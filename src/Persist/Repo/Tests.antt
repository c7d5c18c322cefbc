-- ===== src/Persist/Repo/Tests.antt =====
-- Two partitions, one of which is written again and the other deleted, over a stop and a start.
use my_no_sql_server_grpc.Base.{
  ℕ, ◌≡◌, refl, arith, true, false, List, [], ◌∷◌, none, some, Text, text_eq, All,
}
use my_no_sql_server_grpc.Base.Assoc.{lookup}
use my_no_sql_server_grpc.Base.Word.{to_le_bytes}
use my_no_sql_server_grpc.Base.Outcome.{returns}
use my_no_sql_server_grpc.Persist.BinaryReader.{write_u32_prefixed_bytes}
use my_no_sql_server_grpc.Persist.PartitionBlob.{Zstd, DbRow, serialize, body_of, write_rows}
use my_no_sql_server_grpc.Persist.PartitionBlob.RoundTrip.{IsWritablePartition}
use my_no_sql_server_grpc.Persist.Files.{LoadedPartition}
use my_no_sql_server_grpc.Persist.Files.History.{Fits}
use my_no_sql_server_grpc.Persist.Files.History
use my_no_sql_server_grpc.Persist.Files.Example.{
  hash, t, p, empty_repo, empty_repo-IsConsistent, empty_repo-IsFolder, t-is_utf8, p-is_utf8,
}
use my_no_sql_server_grpc.Persist.TablesMeta.Example.{read-write, yaml, fresh, fresh-IsMirrored}
use my_no_sql_server_grpc.Persist.Repo.{PersistRepo, folder_of, start, get_tables}
use my_no_sql_server_grpc.Persist.Repo.History.{
  RepoEdit, save_rows, delete_rows, save_attributes, restart, reclaim, Promise, all_promised,
  run_all, IsStorable, IsKeeping, Hands, run_all-handed,
}

abbrev stored : Zstd
stored = record { encode_all = λ bytes. bytes; decode_all = λ bytes. some bytes }

abbrev two_rows : List DbRow
two_rows =
    record { get_schema_id = 7; to_vec = 1 ∷ 2 ∷ [] }
    ∷ record { get_schema_id = 8; to_vec = [] }
    ∷ []

abbrev one_row : List DbRow
one_row = record { get_schema_id = 9; to_vec = 3 ∷ [] } ∷ []

two_rows-IsWritable : IsWritablePartition two_rows
unfolding to_le_bytes
two_rows-IsWritable = record {
  counted = omega arith;
  rows = ((omega arith, omega arith), ((omega arith, omega arith), tt));
  measured = omega arith;
}

one_row-IsWritable : IsWritablePartition one_row
unfolding to_le_bytes
one_row-IsWritable = record {
  counted = omega arith;
  rows = ((omega arith, omega arith), tt);
  measured = omega arith;
}

abbrev new_repo : PersistRepo ℕ
new_repo = record { files = empty_repo; meta = fresh; compress_data = true }

abbrev nothing : Promise ℕ
nothing = record { rows = λ k. none; attributes = λ name. none }

new_repo-IsKeeping : IsKeeping yaml hash stored false true read-write new_repo nothing
new_repo-IsKeeping = record {
  consistent = empty_repo-IsConsistent;
  folder = empty_repo-IsFolder;
  mirrored = fresh-IsMirrored;
  compresses = refl;
  writable = λ k db_rows e. absurd (ground arith);
  rows = λ k. refl;
  attributes = λ name. refl;
}

abbrev some_edits : List (RepoEdit ℕ)
some_edits =
    save_attributes t 5
    ∷ save_rows t p one_row
    ∷ save_rows t t one_row
    ∷ restart
    ∷ save_rows t p two_rows
    ∷ delete_rows t t
    ∷ reclaim (λ c. true)
    ∷ []

one_row-Fits : Fits (History.save t p (serialize stored one_row true))
unfolding serialize body_of write_rows write_u32_prefixed_bytes to_le_bytes
one_row-Fits = (omega arith, omega arith, t-is_utf8, p-is_utf8, omega arith)

also-Fits : Fits (History.save t t (serialize stored one_row true))
unfolding serialize body_of write_rows write_u32_prefixed_bytes to_le_bytes
also-Fits = (omega arith, omega arith, t-is_utf8, t-is_utf8, omega arith)

two_rows-Fits : Fits (History.save t p (serialize stored two_rows true))
unfolding serialize body_of write_rows write_u32_prefixed_bytes to_le_bytes
two_rows-Fits = (omega arith, omega arith, t-is_utf8, p-is_utf8, omega arith)

storable : All (IsStorable yaml hash stored false true) some_edits
storable = (
  tt,
  (
    (one_row-Fits, one_row-IsWritable),
    ((also-Fits, one_row-IsWritable), (tt, ((two_rows-Fits, two_rows-IsWritable), (tt, (tt, tt))))),
  ),
)

run_all-handed_example :
    (repo' : PersistRepo ℕ) × (partitions : List LoadedPartition) × (repo'' : PersistRepo ℕ)
    × (run_all yaml hash stored false true some_edits new_repo ≡ returns repo')
    × (start yaml hash stored (folder_of repo') false true ≡ returns (partitions, repo''))
    × ((k : Text × Text)
        → Hands yaml hash stored false true read-write
            (λ bytes. omega arith)
            partitions
            k
            ((all_promised some_edits nothing).rows k))
    × ((name : Text)
        → lookup name (get_tables yaml hash stored repo'')
          ≡ (all_promised some_edits nothing).attributes name)
run_all-handed_example =
    run_all-handed yaml hash stored false true read-write (λ bytes. omega arith) (λ bytes. refl)
      some_edits new_repo nothing storable new_repo-IsKeeping (omega arith)
