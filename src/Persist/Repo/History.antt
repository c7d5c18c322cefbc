-- ===== src/Persist/Repo/History.antt =====
-- A run of calls on the repository of a namespace, and a start after it: the rows and the attributes are those that the calls say.
use mathlib.Core.Path.{subst}
use my_no_sql_server_grpc.Base.{
  ℕ, ◌+◌, ◌^◌, ◌≡◌, ◌≤◌, ◌<◌, refl, ap, ◌∙◌, arith, Bool, inl, inr, List, [], ◌∷◌, Option, none,
  some, if◌then◌else◌, length, map, Text, text_eq, text_same, pair_eq, pair_same, Option-cases,
  Bool-cases, All,
}
use my_no_sql_server_grpc.Base.Assoc.{lookup}
use my_no_sql_server_grpc.Base.Result.{ok}
use my_no_sql_server_grpc.Base.Outcome.{Outcome, returns, ◌>>=◌}
use my_no_sql_server_grpc.Persist.PartitionBlob.{Zstd, DbRow, serialize, deserialize}
use my_no_sql_server_grpc.Persist.PartitionBlob.RoundTrip.{
  persisted, IsWritablePartition, deserialize-serialize,
}
use my_no_sql_server_grpc.Persist.Files.{LoadedPartition, FilesRepoInner}
use my_no_sql_server_grpc.Persist.Files.Consistent.{saved, IsConsistent}
use my_no_sql_server_grpc.Persist.Files.Choose.{no_stale}
use my_no_sql_server_grpc.Persist.Files.Open.{IsFolder}
use my_no_sql_server_grpc.Persist.Files.Loaded.{payload_of}
use my_no_sql_server_grpc.Persist.Files.Load.{load_all_partitions-IsRecovered}
use my_no_sql_server_grpc.Persist.Files.History.{Edit, Fits, edited, run-kept, rescanned}
use my_no_sql_server_grpc.Persist.Files.History
use my_no_sql_server_grpc.Persist.TablesMeta.{
  TablesYaml, TablesMeta, MetaEdit, open_tables, IsMirrored, run-IsMirrored,
}
use my_no_sql_server_grpc.Persist.TablesMeta
use my_no_sql_server_grpc.Persist.Repo.{
  PersistRepo, folder_of, open_repo, save_partition, delete_partition, save_table_metadata,
  delete_table_metadata, load_all_partitions, vacuum, start, get_tables,
}

-- A call that changes what is kept, or a stop and a start of the process.
pub data RepoEdit (C : Type 0) : Type 0 where
  save_rows : Text → Text → List DbRow → RepoEdit C
  delete_rows : Text → Text → RepoEdit C
  save_attributes : Text → C → RepoEdit C
  delete_attributes : Text → RepoEdit C
  reclaim : (ℕ → Bool) → RepoEdit C
  restart : RepoEdit C

-- What is promised: a map of rows, and a map of attributes.
pub record Promise (C : Type 0) : Type 0 where
  pub rows : Text × Text → Option (List DbRow)
  pub attributes : Text → Option C

abbrev pub promised : {C : Type 0} → RepoEdit C → Promise C → Promise C
promised (save_rows t p db_rows) s = record s {
  rows = λ k. if pair_same (t, p) k then some db_rows else s.rows k;
}
promised (delete_rows t p) s = record s {
  rows = λ k. if pair_same (t, p) k then none else s.rows k;
}
promised (save_attributes name attr) s = record s {
  attributes = λ k. if text_same name k then some attr else s.attributes k;
}
promised (delete_attributes name) s = record s {
  attributes = λ k. if text_same name k then none else s.attributes k;
}
promised (reclaim removes) s = s
promised restart s = s

abbrev pub all_promised : {C : Type 0} → List (RepoEdit C) → Promise C → Promise C
all_promised [] s = s
all_promised (e ∷ es) s = all_promised es (promised e s)

module _ {C : Type 0} (yaml : TablesYaml C) (hash : List ℕ → ℕ) (zstd : Zstd)
    (skip compress : Bool) where
  abbrev pub run : RepoEdit C → PersistRepo C → Outcome (PersistRepo C)
  run (save_rows t p db_rows) repo = save_partition yaml hash zstd t p db_rows repo
  run (delete_rows t p) repo = delete_partition yaml hash zstd t p repo
  run (save_attributes name attr) repo = returns (save_table_metadata yaml hash zstd name attr repo)
  run (delete_attributes name) repo = returns (delete_table_metadata yaml hash zstd name repo)
  run (reclaim removes) repo = vacuum yaml hash zstd removes repo
  run restart repo = do
    loaded ← start yaml hash zstd (folder_of repo) skip compress
    returns loaded.1

  abbrev pub run_all : List (RepoEdit C) → PersistRepo C → Outcome (PersistRepo C)
  run_all [] repo = returns repo
  run_all (e ∷ es) repo = do repo ← run e repo; run_all es repo

  -- Rows that the format can count, with keys and a payload that a slot has room for.
  abbrev pub IsStorable : RepoEdit C → Type 0
  IsStorable (save_rows t p db_rows) =
      Fits (History.save t p (serialize zstd db_rows compress)) × IsWritablePartition db_rows
  IsStorable e = Unit {0}

  abbrev pub payload_for : Option (List DbRow) → Option (List ℕ)
  payload_for none = none
  payload_for (some db_rows) = some (serialize zstd db_rows compress)

  module _
      (round_trip : (tables : List (Text × C))
        → yaml.from_slice (yaml.to_string tables) ≡ some tables) where
    -- The repository keeps what is promised.
    pub record IsKeeping (repo : PersistRepo C) (s : Promise C) : Type 0 where
      pub consistent : IsConsistent hash no_stale repo.files
      pub folder : IsFolder hash skip repo.files.page_files
      pub mirrored : IsMirrored yaml round_trip skip repo.meta
      pub compresses : repo.compress_data ≡ compress
      pub writable :
          (k : Text × Text) (db_rows : List DbRow)
          → s.rows k ≡ some db_rows
          → IsWritablePartition db_rows
      pub rows : (k : Text × Text) → saved hash repo.files k ≡ payload_for (s.rows k)
      pub attributes : (name : Text) → lookup name repo.meta.tables ≡ s.attributes name

    module _ (repo : PersistRepo C) (s : Promise C) (h : IsKeeping repo s) where
      with_files :
          (files : FilesRepoInner) (rows : Text × Text → Option (List DbRow))
          → IsConsistent hash no_stale files
          → IsFolder hash skip files.page_files
          → ((k : Text × Text) (db_rows : List DbRow)
              → rows k ≡ some db_rows
              → IsWritablePartition db_rows)
          → ((k : Text × Text) → saved hash files k ≡ payload_for (rows k))
          → IsKeeping (record repo { files = files }) (record s { rows = rows })
      with_files files rows consistent folder writable keeps = record {
        consistent = consistent;
        folder = folder;
        mirrored = h.mirrored;
        compresses = h.compresses;
        writable = writable;
        rows = keeps;
        attributes = h.attributes;
      }

      with_meta :
          (meta : TablesMeta C) (attributes : Text → Option C)
          → IsMirrored yaml round_trip skip meta
          → ((name : Text) → lookup name meta.tables ≡ attributes name)
          → IsKeeping (record repo { meta = meta }) (record s { attributes = attributes })
      with_meta meta attributes mirrored keeps = record {
        consistent = h.consistent;
        folder = h.folder;
        mirrored = mirrored;
        compresses = h.compresses;
        writable = h.writable;
        rows = h.rows;
        attributes = keeps;
      }

      started :
          repo.files.next_version < 2 ^ 64
          → (partitions : List LoadedPartition) × (repo' : PersistRepo C) × (start yaml hash zstd
                (folder_of repo)
                skip
                compress
              ≡ returns (partitions, repo'))
            × IsKeeping repo' s
            × (repo'.files.next_version ≤ repo.files.next_version + 1)
            × ((k : Text × Text) → payload_of k partitions ≡ payload_for (s.rows k))
      unfolding start open_repo load_all_partitions open_tables
      started room =
          let (partitions, files, done, back) =
            load_all_partitions-IsRecovered hash skip repo.files.page_files h.folder
              (λ l slot at. omega (arith, h.consistent.versions l slot at)) in
          let same = rescanned hash repo.files files partitions h.consistent back in
          let keeps : (k : Text × Text) → saved hash files k ≡ payload_for (s.rows k) =
            λ k. same k ∙ h.rows k in
          (
            partitions,
            record { files = files; meta = repo.meta; compress_data = compress },
            rw (open_tables, h.mirrored, done) refl,
            record {
              consistent = back.consistent;
              folder = back.folder skip h.folder;
              mirrored = h.mirrored;
              compresses = refl;
              writable = h.writable;
              rows = keeps;
              attributes = h.attributes;
            },
            back.counts (repo.files.next_version + 1) (omega arith)
                (λ l slot at. omega (arith, h.consistent.versions l slot at)),
            λ k. back.loads k ∙ keeps k,
          )

    moved :
        (repo : PersistRepo C) {m m' : TablesMeta C}
        → returns m ≡ returns m'
        → returns (record repo { meta = m }) ≡ returns (record repo { meta = m' })
    moved repo e =
        ap (λ (o : Outcome (TablesMeta C)). do m ← o; returns (record repo { meta = m })) e

    module _ (law : (bytes : List ℕ) → hash bytes < 2 ^ 32) where
      run-IsKeeping :
          (e : RepoEdit C) (repo : PersistRepo C) (s : Promise C)
          → IsStorable e
          → IsKeeping repo s
          → repo.files.next_version + 1 < 2 ^ 64
          → (repo' : PersistRepo C) × (run e repo ≡ returns repo')
            × IsKeeping repo' (promised e s)
            × (repo'.files.next_version ≤ repo.files.next_version + 1)
      unfolding save_partition delete_partition save_table_metadata delete_table_metadata vacuum
      run-IsKeeping (save_rows t p db_rows) repo s (fits, writable) h room =
          let edit = History.save t p (serialize zstd db_rows compress) in
          let (files, done, consistent, folder, next, kept) =
            run-kept hash law skip edit repo.files fits h.consistent h.folder room in
          (
            record repo { files = files },
            rw (h.compresses, done) refl,
            with_files repo s h files (promised (save_rows t p db_rows) s).rows consistent folder
                (λ k rows e. elim (Bool-cases (pair_same (t, p) k)) [
                  | inl same ↦
                      let it : db_rows ≡ rows = ground arith in
                      subst IsWritablePartition it writable
                  | inr other ↦ h.writable k rows (ground arith)
                ])
                (λ k. ground (arith, kept k, h.rows k)),
            next,
          )
      run-IsKeeping (delete_rows t p) repo s fits h room =
          let (files, done, consistent, folder, next, kept) =
            run-kept hash law skip (History.delete t p) repo.files tt h.consistent h.folder room in
          (
            record repo { files = files },
            rw done refl,
            with_files repo s h files (promised (delete_rows t p) s).rows consistent folder
                (λ k rows e. h.writable k rows (ground arith))
                (λ k. ground (arith, kept k, h.rows k)),
            next,
          )
      run-IsKeeping (save_attributes name attr) repo s fits h room =
          let (meta, done, mirrored, kept) =
            run-IsMirrored yaml round_trip skip (TablesMeta.save name attr) repo.meta h.mirrored in
          (
            record repo { meta = meta },
            moved repo done,
            with_meta repo s h meta (promised (save_attributes name attr) s).attributes mirrored
                (λ k. ground (arith, kept k, h.attributes k)),
            omega arith,
          )
      run-IsKeeping (delete_attributes name) repo s fits h room =
          let (meta, done, mirrored, kept) =
            run-IsMirrored yaml round_trip skip (TablesMeta.delete name) repo.meta h.mirrored in
          (
            record repo { meta = meta },
            moved repo done,
            with_meta repo s h meta (promised (delete_attributes name) s).attributes mirrored
                (λ k. ground (arith, kept k, h.attributes k)),
            omega arith,
          )
      run-IsKeeping (reclaim removes) repo s fits h room =
          let (files, done, consistent, folder, next, kept) =
            run-kept hash law skip (History.reclaim removes) repo.files tt h.consistent h.folder
              room in
          (
            record repo { files = files },
            rw done refl,
            with_files repo s h files s.rows consistent folder h.writable (λ k. kept k ∙ h.rows k),
            next,
          )
      run-IsKeeping restart repo s fits h room =
          let (partitions, repo', done, keeping, next, _) = started repo s h (omega arith) in
          (repo', rw done refl, keeping, next)

      run_all-IsKeeping :
          (es : List (RepoEdit C)) (repo : PersistRepo C) (s : Promise C)
          → All IsStorable es
          → IsKeeping repo s
          → repo.files.next_version + length es < 2 ^ 64
          → (repo' : PersistRepo C) × (run_all es repo ≡ returns repo')
            × IsKeeping repo' (all_promised es s)
            × (repo'.files.next_version < 2 ^ 64)
      run_all-IsKeeping [] repo s fits h room = (repo, refl, h, omega arith)
      run_all-IsKeeping (e ∷ es) repo s fits h room =
          let (repo1, one, h1, next) = run-IsKeeping e repo s fits.0 h (omega arith) in
          let (repo', all, h', room') =
            run_all-IsKeeping es repo1 (promised e s) fits.1 h1 (omega arith) in
          (repo', rw one all, h', room')

      -- What a start hands out for a key of which some rows are promised, or none.
      abbrev pub Hands : List LoadedPartition → Text × Text → Option (List DbRow) → Type 0
      Hands partitions k none = payload_of k partitions ≡ none
      Hands partitions k (some db_rows) =
          (payload : List ℕ) × (payload_of k partitions ≡ some payload)
          × (deserialize zstd payload ≡ ok (map persisted db_rows))

      -- Writes and deletions of rows and of attributes, vacuums and restarts in any order,
      -- and then a start: every call goes through; for
      -- each key the start hands out a payload that reads as exactly the rows that were last saved, in order, and none if they were
      -- deleted or never saved; and the attributes of each table are those that were last saved. The rows are such as the format can
      -- count and a slot has room for, what was compressed decompresses, the yaml reads what
      -- it wrote, the crc is a `u32` and the 64-bit
      -- counter does not run out.
      pub run_all-handed :
          (unzip : (bytes : List ℕ) → zstd.decode_all (zstd.encode_all bytes) ≡ some bytes)
          (edits : List (RepoEdit C)) (repo : PersistRepo C) (s : Promise C)
          → All IsStorable edits
          → IsKeeping repo s
          → repo.files.next_version + length edits < 2 ^ 64
          → (repo' : PersistRepo C) × (partitions : List LoadedPartition) × (repo'' : PersistRepo C)
            × (run_all edits repo ≡ returns repo')
            × (start yaml hash zstd (folder_of repo') skip compress ≡ returns (partitions, repo''))
            × ((k : Text × Text) → Hands partitions k ((all_promised edits s).rows k))
            × ((name : Text)
                → lookup name (get_tables yaml hash zstd repo'')
                  ≡ (all_promised edits s).attributes name)
      unfolding get_tables
      run_all-handed unzip edits repo s fits h room =
          let (repo', all, h', room') = run_all-IsKeeping edits repo s fits h room in
          let (partitions, repo'', done, h'', _, gives) =
            started repo' (all_promised edits s) h' room' in
          (
            repo',
            partitions,
            repo'',
            all,
            done,
            λ k. elim (Option-cases ((all_promised edits s).rows k)) [
              | inl nothing ↦ rw nothing (ground (arith, gives k))
              | inr (db_rows, there) ↦ rw there (
                serialize zstd db_rows compress,
                ground (arith, gives k),
                deserialize-serialize zstd db_rows compress unzip (h''.writable k db_rows there),
              )
            ],
            h''.attributes,
          )
