-- ===== src/Operations/Disk/Stored/Tests.antt =====
-- Three tasks over a namespace with one table: its partition, its attributes, and a partition of it once it is gone.
use my_no_sql_server_grpc.Base.{
  ℕ, zero, suc, ◌≡◌, refl, ap, arith, Bool, true, false, List, [], ◌∷◌, Option, none, some,
  if◌then◌else◌, map, Text, text_eq, text_same, pair_eq, All,
}
use my_no_sql_server_grpc.Base.Assoc.{lookup}
use my_no_sql_server_grpc.Base.Word.{to_le_bytes}
use my_no_sql_server_grpc.Base.Utf8.{is_utf8}
use my_no_sql_server_grpc.Base.Outcome.{returns}
use my_no_sql_server_grpc.Persist.BinaryReader.{write_u32_prefixed_bytes}
use my_no_sql_server_grpc.Persist.PartitionBlob.{Zstd, DbRow, serialize, body_of, write_rows}
use my_no_sql_server_grpc.Persist.PartitionBlob.RoundTrip.{IsWritablePartition}
use my_no_sql_server_grpc.Persist.Markers.{PersistTask, partition, table_metadata}
use my_no_sql_server_grpc.Persist.Files.{LoadedPartition}
use my_no_sql_server_grpc.Persist.Files.History.{Fits}
use my_no_sql_server_grpc.Persist.Files.History
use my_no_sql_server_grpc.Persist.Files.Example.{
  hash, empty_repo, empty_repo-IsConsistent, empty_repo-IsFolder,
}
use my_no_sql_server_grpc.Persist.TablesMeta.{TablesYaml, load_tables_meta}
use my_no_sql_server_grpc.Persist.TablesMeta.Example
use my_no_sql_server_grpc.Persist.Repo
use my_no_sql_server_grpc.Persist.Repo.{folder_of, start, get_tables}
use my_no_sql_server_grpc.Persist.Repo.History.{run_all, IsStorable, IsKeeping, Hands}
use my_no_sql_server_grpc.Reader.Example.{a_table}
use my_no_sql_server_grpc.Operations.Example.{Row, table}
use my_no_sql_server_grpc.Operations.Disk.{PersistRepo}
use my_no_sql_server_grpc.Operations.Disk.Stored.{
  edit_of, rows_for, promise_of, execute_all, execute_all-handed,
}

abbrev as_number : Text × Bool → Text × ℕ
as_number (name, attribute) = (name, if attribute then 1 else 0)

abbrev as_flag : Text × ℕ → Text × Bool
as_flag (name, zero) = (name, false)
as_flag (name, suc n) = (name, true)

abbrev as_flags : Option (List (Text × ℕ)) → Option (List (Text × Bool))
as_flags none = none
as_flags (some tables) = some (map as_flag tables)

abbrev yaml : TablesYaml Bool
yaml = record {
  to_string = λ tables. Example.yaml.to_string (map as_number tables);
  from_slice = λ bytes. as_flags (Example.yaml.from_slice bytes);
}

flags-numbers : (tables : List (Text × Bool)) → map as_flag (map as_number tables) ≡ tables
flags-numbers [] = refl
flags-numbers ((name, true) ∷ tables) =
    ap (λ (rest : List (Text × Bool)). (name, true) ∷ rest) (flags-numbers tables)
flags-numbers ((name, false) ∷ tables) =
    ap (λ (rest : List (Text × Bool)). (name, false) ∷ rest) (flags-numbers tables)

round_trip : (tables : List (Text × Bool)) → yaml.from_slice (yaml.to_string tables) ≡ some tables
round_trip tables = rw (Example.read-write (map as_number tables)) (ap some (flags-numbers tables))

abbrev stored : Zstd
stored = record { encode_all = λ bytes. bytes; decode_all = λ bytes. some bytes }

abbrev row_of : Row → DbRow
row_of r = record { get_schema_id = r.time_stamp; to_vec = r.row_key }

abbrev db_table : List Row
db_table = record { partition_key = 1 ∷ []; row_key = 1 ∷ []; time_stamp = 5 } ∷ []

abbrev get_table : Text → Option (List Row)
get_table name = if text_same a_table name then some db_table else none

abbrev nobody : Text → Option (List Row)
nobody name = none

abbrev tasks : List ((Text → Option (List Row)) × PersistTask)
tasks =
    (get_table, partition a_table (1 ∷ []))
    ∷ (get_table, table_metadata a_table)
    ∷ (nobody, partition a_table (2 ∷ []))
    ∷ []

abbrev maps : PersistRepo Row Bool
maps = record { partitions = []; tables = [] }

abbrev repo : Repo.PersistRepo Bool
repo = record {
  files = empty_repo;
  meta = record { tables = []; file = none };
  compress_data = false;
}

repo-IsKeeping :
    IsKeeping yaml hash stored false false round_trip repo (promise_of table row_of maps)
unfolding load_tables_meta
repo-IsKeeping = record {
  consistent = empty_repo-IsConsistent;
  folder = empty_repo-IsFolder;
  mirrored = refl;
  compresses = refl;
  writable = λ k db_rows e. absurd (ground arith);
  rows = λ k. refl;
  attributes = λ name. refl;
}

a_table-is_utf8 : is_utf8 a_table ≡ true
unfolding is_utf8
a_table-is_utf8 = refl

key-is_utf8 : is_utf8 (1 ∷ []) ≡ true
unfolding is_utf8
key-is_utf8 = refl

db_table-Fits : Fits (History.save a_table (1 ∷ []) (serialize stored (map row_of db_table) false))
unfolding serialize body_of write_rows write_u32_prefixed_bytes to_le_bytes
db_table-Fits = (omega arith, omega arith, a_table-is_utf8, key-is_utf8, omega arith)

db_table-IsWritable : IsWritablePartition (map row_of db_table)
unfolding to_le_bytes
db_table-IsWritable = record {
  counted = omega arith;
  rows = ((omega arith, omega arith), tt);
  measured = omega arith;
}

storable : All (IsStorable yaml hash stored false false) (map (edit_of table row_of) tasks)
storable = ((db_table-Fits, db_table-IsWritable), (tt, (tt, tt)))

execute_all-handed_example :
    (repo' : Repo.PersistRepo Bool) × (partitions : List LoadedPartition)
    × (repo'' : Repo.PersistRepo Bool) × (run_all yaml hash stored false false
          (map (edit_of table row_of) tasks)
          repo
        ≡ returns repo')
    × (start yaml hash stored (folder_of repo') false false ≡ returns (partitions, repo''))
    × ((k : Text × Text)
        → Hands yaml hash stored false false round_trip
            (λ bytes. omega arith)
            partitions
            k
            (rows_for table row_of (lookup k (execute_all table row_of tasks maps).partitions)))
    × ((name : Text)
        → lookup name (get_tables yaml hash stored repo'')
          ≡ lookup name (execute_all table row_of tasks maps).tables)
execute_all-handed_example =
    execute_all-handed table row_of yaml hash stored false false round_trip (λ bytes. omega arith)
      (λ bytes. refl) tasks maps repo storable repo-IsKeeping (omega arith)
