-- ===== src/Persist/TablesMeta/Tests.antt =====
-- A run over the attributes.
use my_no_sql_server_grpc.Base.{ℕ, ◌≡◌, false, List, [], ◌∷◌, Text, text_eq}
use my_no_sql_server_grpc.Base.Assoc.{lookup}
use my_no_sql_server_grpc.Base.Outcome.{returns}
use my_no_sql_server_grpc.Persist.TablesMeta.Example.{read-write, yaml, fresh, fresh-IsMirrored}
use my_no_sql_server_grpc.Persist.TablesMeta.{
  TablesMeta, save, delete, restart, MetaEdit, run_all, all_edited, IsMirrored, run_all-IsMirrored,
}

abbrev some_edits : List (MetaEdit yaml)
some_edits = save (116 ∷ []) 5 ∷ save (117 ∷ []) 6 ∷ restart ∷ delete (116 ∷ []) ∷ []

run_all-IsMirrored_example :
    (m' : TablesMeta ℕ) × (run_all yaml false some_edits fresh ≡ returns m')
    × IsMirrored yaml read-write false m'
    × ((k : Text) → lookup k m'.tables ≡ all_edited yaml some_edits (λ j. lookup j []) k)
run_all-IsMirrored_example =
    run_all-IsMirrored yaml read-write false some_edits fresh fresh-IsMirrored
