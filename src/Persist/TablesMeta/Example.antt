-- ===== src/Persist/TablesMeta/Example.antt =====
-- A yaml that reads what it wrote: a name ends with a zero, and an attribute is a number behind it.
use my_no_sql_server_grpc.Base.{
  ℕ, zero, suc, ◌≡◌, refl, false, List, [], ◌∷◌, Option, none, some, Text,
}
use my_no_sql_server_grpc.Persist.TablesMeta.{TablesYaml, TablesMeta, load_tables_meta, IsMirrored}

abbrev pub Tables : Type 0
Tables = List (Text × ℕ)

abbrev pub written : Text → ℕ → List ℕ → List ℕ
written [] attribute rest = 0 ∷ attribute ∷ rest
written (c ∷ name) attribute rest = suc c ∷ written name attribute rest

abbrev pub write : Tables → List ℕ
write [] = []
write ((name, attribute) ∷ tables) = written name attribute (write tables)

abbrev pub longer : ℕ → Option Tables → Option Tables
longer c (some ((name, attribute) ∷ tables)) = some ((c ∷ name, attribute) ∷ tables)
longer c (some []) = none
longer c none = none

abbrev pub with_table : ℕ → Option Tables → Option Tables
with_table attribute none = none
with_table attribute (some tables) = some (([], attribute) ∷ tables)

abbrev pub read : List ℕ → Option Tables
read [] = some []
read (zero ∷ []) = none
read (zero ∷ attribute ∷ bytes) = with_table attribute (read bytes)
read (suc c ∷ bytes) = longer c (read bytes)

read-written :
    (name : Text) (attribute : ℕ) (rest : List ℕ) (tables : Tables)
    → read rest ≡ some tables
    → read (written name attribute rest) ≡ some ((name, attribute) ∷ tables)
read-written [] attribute rest tables h = rw h refl
read-written (c ∷ name) attribute rest tables h =
    rw (read-written name attribute rest tables h) refl

pub read-write : (tables : Tables) → read (write tables) ≡ some tables
read-write [] = refl
read-write ((name, attribute) ∷ tables) =
    read-written name attribute (write tables) tables (read-write tables)

abbrev pub yaml : TablesYaml ℕ
yaml = record { to_string = write; from_slice = read }

abbrev pub fresh : TablesMeta ℕ
fresh = record { tables = []; file = none }

pub fresh-IsMirrored : IsMirrored yaml read-write false fresh
unfolding load_tables_meta
fresh-IsMirrored = refl
