-- ===== src/Persist/Files/History.antt =====
-- A run of saves, deletions, vacuums and restarts: the page-files keep the map that the calls describe.
use my_no_sql_server_grpc.Base.{
  ℕ, ◌+◌, ◌^◌, ◌≡◌, ◌≤◌, ◌<◌, refl, sym, ap, ◌∙◌, arith, Bool, true, inl, inr, List, [], ◌∷◌,
  Option, none, some, if◌then◌else◌, length, Text, pair_eq, pair_same, Option-cases, All,
}
use my_no_sql_server_grpc.Base.Assoc.{lookup}
use my_no_sql_server_grpc.Base.Outcome.{Outcome, returns, ◌>>=◌}
use my_no_sql_server_grpc.Base.Utf8.{is_utf8}
use my_no_sql_server_grpc.Persist.Slot.{max_key_len, slot_overhead}
use my_no_sql_server_grpc.Persist.Files.{
  FilesRepoInner, LoadedPartition, save_partition, delete_partition, open_files,
  load_all_partitions,
}
use my_no_sql_server_grpc.Persist.Files.Consistent.{key_of, saved, saved-some, IsConsistent}
use my_no_sql_server_grpc.Persist.Files.Choose.{no_stale}
use my_no_sql_server_grpc.Persist.Files.Open.{IsFolder}
use my_no_sql_server_grpc.Persist.Files.Loaded.{payload_of}
use my_no_sql_server_grpc.Persist.Files.Save.{save_partition-IsSaved}
use my_no_sql_server_grpc.Persist.Files.Delete.{delete_partition-IsDeleted}
use my_no_sql_server_grpc.Persist.Files.Vacuum.{vacuum}
use my_no_sql_server_grpc.Persist.Files.Vacuum.Keeps.{vacuum-IsKept}
use my_no_sql_server_grpc.Persist.Files.Load.{IsRecovered, load_all_partitions-IsRecovered}

-- A call that changes what is kept.
pub data Edit : Type 0 where
  save : Text → Text → List ℕ → Edit
  delete : Text → Text → Edit
  -- `vacuum`, with the removals of files that go through.
  reclaim : (ℕ → Bool) → Edit
  -- The process ends, and the next one opens the folder and scans it.
  restart : Edit

-- What the repository promises: a map from keys to payloads.
abbrev pub Kept : Type 0
Kept = Text × Text → Option (List ℕ)

abbrev pub edited : Edit → Kept → Kept
edited (save table_name partition_key payload) kept k =
    if pair_same (table_name, partition_key) k then some payload else kept k
edited (delete table_name partition_key) kept k =
    if pair_same (table_name, partition_key) k then none else kept k
edited (reclaim removes) kept k = kept k
edited restart kept k = kept k

abbrev pub all_edited : List Edit → Kept → Kept
all_edited [] kept = kept
all_edited (e ∷ es) kept = all_edited es (edited e kept)

-- Keys that are texts of a length that a slot can say, and a payload that some size class has room for.
abbrev pub Fits : Edit → Type 0
Fits (save t p payload) =
    (length t ≤ max_key_len)
    × (length p ≤ max_key_len)
    × (is_utf8 t ≡ true)
    × (is_utf8 p ≡ true)
    × (slot_overhead + length t + length p + length payload ≤ 2 ^ 31)
Fits (delete t p) = Unit {0}
Fits (reclaim removes) = Unit {0}
Fits restart = Unit {0}

module _ (hash : List ℕ → ℕ) where
  module _ (skip : Bool) where
    abbrev pub run : Edit → FilesRepoInner → Outcome FilesRepoInner
    run (save t p payload) r = save_partition hash t p payload r
    run (delete t p) r = delete_partition t p r
    run (reclaim removes) r = vacuum removes r
    run restart r = do
      loaded ← load_all_partitions hash skip (open_files r.page_files)
      returns loaded.1

    abbrev pub run_all : List Edit → FilesRepoInner → Outcome FilesRepoInner
    run_all [] r = returns r
    run_all (e ∷ es) r = do r ← run e r; run_all es r

  -- A repository that is scanned again keeps what it kept.
  pub rescanned :
      (r r' : FilesRepoInner) (partitions : List LoadedPartition)
      → IsConsistent hash no_stale r
      → IsRecovered hash r.page_files partitions r'
      → (k : Text × Text) → saved hash r' k ≡ saved hash r k
  rescanned r r' partitions h back k = elim (Option-cases (lookup k r.index)) [
    | inl nobody ↦ elim (Option-cases (saved hash r' k)) [
      | inl nothing ↦ ground arith
      | inr (payload, e) ↦
          let (l, slot, at, name, _) = back.only k payload e in
          let own : lookup (key_of slot) r.index ≡ some l = ground (arith, h.listed l slot at) in
          absurd (ground (arith, ap (λ (j : Text × Text). lookup j r.index) name))
    ]
    | inr (l, e) ↦
        let (slot, at, name) = (h.indexed k l e).1 in
        let (m, best, at', name', _, kept) = back.newest l slot at in
        let own : lookup (key_of best) r.index ≡ some m = ground (arith, h.listed m best at') in
        let here : lookup k r.index ≡ some m =
          ap (λ (j : Text × Text). lookup j r.index) (sym (name' ∙ name)) ∙ own in
        ap (saved hash r') (sym name) ∙ (kept ∙ sym (saved-some hash r k m best here at'))
  ]

  module _ (law : (bytes : List ℕ) → hash bytes < 2 ^ 32) (skip : Bool) where
    pub run-kept :
        (e : Edit) (r : FilesRepoInner)
        → Fits e
        → IsConsistent hash no_stale r
        → IsFolder hash skip r.page_files
        → r.next_version + 1 < 2 ^ 64
        → (r' : FilesRepoInner) × (run skip e r ≡ returns r')
          × IsConsistent hash no_stale r'
          × IsFolder hash skip r'.page_files
          × (r'.next_version ≤ r.next_version + 1)
          × ((k : Text × Text) → saved hash r' k ≡ edited e (saved hash r) k)
    run-kept (save t p payload) r fits h f room =
        let (r', done, s) =
          save_partition-IsSaved hash t p payload r law h room fits.0 fits.1 fits.2 fits.3 fits.4 in
        (r', done, s.consistent, s.folder skip f, omega (arith, s.next), s.kept)
    run-kept (delete t p) r fits h f room =
        let (r', done, s) = delete_partition-IsDeleted hash t p r h in
        (r', done, s.consistent, s.folder skip f, omega (arith, s.next), s.kept)
    run-kept (reclaim removes) r fits h f room =
        let (r', done, s) = vacuum-IsKept hash removes r h in
        (r', done, s.consistent, s.folder skip f, omega (arith, s.next), s.kept)
    run-kept restart r fits h f room =
        let (partitions, r', done, back) =
          load_all_partitions-IsRecovered hash skip r.page_files f
            (λ l slot at. omega (arith, h.versions l slot at)) in
        (
          r',
          rw (done) refl,
          back.consistent,
          back.folder skip f,
          back.counts (r.next_version + 1) (omega arith)
              (λ l slot at. omega (arith, h.versions l slot at)),
          rescanned r r' partitions h back,
        )

    all_edited_congr :
        (es : List Edit) (a b : Kept)
        → ((k : Text × Text) → a k ≡ b k)
        → (k : Text × Text) → all_edited es a k ≡ all_edited es b k
    all_edited_congr [] a b same = same
    all_edited_congr (save t p payload ∷ es) a b same =
        all_edited_congr es _ _ (λ k. ground (arith, same k))
    all_edited_congr (reclaim removes ∷ es) a b same = all_edited_congr es _ _ same
    all_edited_congr (restart ∷ es) a b same = all_edited_congr es _ _ same
    all_edited_congr (delete t p ∷ es) a b same =
        all_edited_congr es _ _ (λ k. ground (arith, same k))

    run_all-kept :
        (es : List Edit) (r : FilesRepoInner)
        → All Fits es
        → IsConsistent hash no_stale r
        → IsFolder hash skip r.page_files
        → r.next_version + length es < 2 ^ 64
        → (r' : FilesRepoInner) × (run_all skip es r ≡ returns r')
          × IsConsistent hash no_stale r'
          × IsFolder hash skip r'.page_files
          × (r'.next_version < 2 ^ 64)
          × ((k : Text × Text) → saved hash r' k ≡ all_edited es (saved hash r) k)
    run_all-kept [] r fits h f room = (r, refl, h, f, omega arith, λ k. refl)
    run_all-kept (e ∷ es) r fits h f room =
        let (r1, one, h1, f1, next, kept) = run-kept e r fits.0 h f (omega arith) in
        let (r', all, h', f', room', kept') = run_all-kept es r1 fits.1 h1 f1 (omega arith) in
        (
          r',
          rw one all,
          h',
          f',
          room',
          λ k. kept' k ∙ all_edited_congr es (saved hash r1) (edited e (saved hash r)) kept k,
        )

    -- Saves, deletions, vacuums and restarts in any order, and then a restart: every call goes through, and the scan of the files that
    -- they left hands out, and keeps, exactly the map that the saves and deletions make of what
    -- was kept before. The keys are texts that fit, each slot needs
    -- at most 2 ^ 31 bytes, the crc is a `u32` and the 64-bit counter does not run out.
    pub run_all-restarted :
        (edits : List Edit) (r : FilesRepoInner)
        → All Fits edits
        → IsConsistent hash no_stale r
        → IsFolder hash skip r.page_files
        → r.next_version + length edits < 2 ^ 64
        → (r' : FilesRepoInner) × (partitions : List LoadedPartition) × (r'' : FilesRepoInner)
          × (run_all skip edits r ≡ returns r')
          × (load_all_partitions hash skip (open_files r'.page_files) ≡ returns (partitions, r''))
          × IsConsistent hash no_stale r''
          × ((k : Text × Text) → saved hash r'' k ≡ all_edited edits (saved hash r) k)
          × ((k : Text × Text) → payload_of k partitions ≡ all_edited edits (saved hash r) k)
    run_all-restarted edits r fits h f room =
        let (r', all, h', f', room', kept) = run_all-kept edits r fits h f room in
        let (partitions, r'', loads, back) =
          load_all_partitions-IsRecovered hash skip r'.page_files f'
            (λ l slot at. omega (arith, h'.versions l slot at)) in
        let same : (k : Text × Text) → saved hash r'' k ≡ all_edited edits (saved hash r) k =
          λ k. rescanned r' r'' partitions h' back k ∙ kept k in
        (r', partitions, r'', all, loads, back.consistent, same, λ k. back.loads k ∙ same k)
