-- ===== src/Persist/Repo.antt =====
-- server/src/persist/persist_repo.rs, over files_repo.rs: all that a namespace keeps on disk. The lock of files_repo.rs makes
-- each call one step.
pub mod History
mod Tests
use my_no_sql_server_grpc.Base.{ℕ, Bool, true, false, List, [], Option, none, some, Text}
use my_no_sql_server_grpc.Base.Outcome.{Outcome, returns, ◌>>=◌}
use my_no_sql_server_grpc.Persist.PartitionBlob.{Zstd, DbRow, serialize}
use my_no_sql_server_grpc.Persist.Files.{PageFiles, FilesRepoInner, LoadedPartition, open_files}
use my_no_sql_server_grpc.Persist.Files
use my_no_sql_server_grpc.Persist.Files.Vacuum
use my_no_sql_server_grpc.Persist.TablesMeta.{TablesYaml, TablesMeta, open_tables}
use my_no_sql_server_grpc.Persist.TablesMeta

-- `FilesRepoInner` is its page-files and its tables.
pub record PersistRepo (C : Type 0) : Type 0 where
  pub files : FilesRepoInner
  pub meta : TablesMeta C
  pub compress_data : Bool

-- The folder of a namespace: its page-files, and `tables.meta` if it is there.
abbrev pub Folder : Type 0
Folder = PageFiles × Option (List ℕ)

abbrev pub folder_of : {C : Type 0} → PersistRepo C → Folder
folder_of repo = (repo.files.page_files, repo.meta.file)

module _ {C : Type 0} (yaml : TablesYaml C) (hash : List ℕ → ℕ) (zstd : Zstd) where
  unfoldable pub open_repo : Folder → Bool → Bool → Outcome (PersistRepo C)
  open_repo (page_files, file) skip_errors compress_data = do
    meta ← open_tables yaml skip_errors file
    returns (record { files = open_files page_files; meta = meta; compress_data = compress_data })

  unfoldable pub save_partition : Text → Text → List DbRow → PersistRepo C → Outcome (PersistRepo C)
  save_partition table_name partition_key db_rows repo = do
    files ←
        Files.save_partition hash table_name partition_key
          (serialize zstd db_rows repo.compress_data) repo.files
    returns (record repo { files = files })

  unfoldable pub delete_partition : Text → Text → PersistRepo C → Outcome (PersistRepo C)
  delete_partition table_name partition_key repo = do
    files ← Files.delete_partition table_name partition_key repo.files
    returns (record repo { files = files })

  unfoldable pub save_table_metadata : Text → C → PersistRepo C → PersistRepo C
  save_table_metadata table_name attr repo = record repo {
    meta = TablesMeta.save_table_metadata yaml table_name attr repo.meta;
  }

  unfoldable pub delete_table_metadata : Text → PersistRepo C → PersistRepo C
  delete_table_metadata table_name repo = record repo {
    meta = TablesMeta.delete_table_metadata yaml table_name repo.meta;
  }

  unfoldable pub get_tables : PersistRepo C → List (Text × C)
  get_tables repo = repo.meta.tables

  unfoldable pub load_all_partitions :
      Bool → PersistRepo C → Outcome (List LoadedPartition × PersistRepo C)
  load_all_partitions skip_errors repo = do
    (partitions, files) ← Files.load_all_partitions hash skip_errors repo.files
    returns (partitions, record repo { files = files })

  unfoldable pub prime_for_writes : Bool → PersistRepo C → Outcome (PersistRepo C)
  prime_for_writes skip_errors repo = do
    loaded ← load_all_partitions skip_errors repo
    returns loaded.1

  -- What a removal of the folder leaves of it: nothing, or if it fails any part.
  unfoldable pub delete_everything : Option Folder → PersistRepo C → Bool × PersistRepo C
  delete_everything none repo = (
    true,
    record repo {
      files = record repo.files { index = []; classes = []; page_files = [] };
      meta = record { tables = []; file = none };
    },
  )
  delete_everything (some (page_files, file)) repo = (
    false,
    record repo {
      files = record repo.files { index = []; classes = []; page_files = page_files };
      meta = record { tables = []; file = file };
    },
  )

  unfoldable pub vacuum : (ℕ → Bool) → PersistRepo C → Outcome (PersistRepo C)
  vacuum removes repo = do
    files ← Vacuum.vacuum removes repo.files
    returns (record repo { files = files })

  -- A start: the folder is opened and scanned.
  unfoldable pub start : Folder → Bool → Bool → Outcome (List LoadedPartition × PersistRepo C)
  start folder skip_errors compress_data = do
    repo ← open_repo folder skip_errors compress_data
    load_all_partitions skip_errors repo
