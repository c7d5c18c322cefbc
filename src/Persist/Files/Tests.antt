-- ===== src/Persist/Files/Tests.antt =====
-- A folder that a crash left with two slots of one key, its scan, and edits after it.
use my_no_sql_server_grpc.Base.{
  ℕ, ◌≡◌, ◌+◌, ◌<◌, ◌^◌, refl, arith, true, false, zero, suc, ◌==◌, inl, inr, Bool-cases, nat_eq,
  ap, sym, ◌∙◌, List, [], ◌∷◌, none, some, Text, replicate,
}
use my_no_sql_server_grpc.Base.Outcome.{Outcome, returns}
use my_no_sql_server_grpc.Base.Utf8.{is_utf8}
use my_no_sql_server_grpc.Persist.Slot.{OccupiedSlot, decode_slot, decode_body}
use my_no_sql_server_grpc.Base.Word.{from_le_bytes}
use my_no_sql_server_grpc.Persist.Files.{
  write_at, discover_class_files, scan_classes, scan_slots, recover, dedup, dedup_step, highest,
  free_all, free_slot, zero_slot, zero_at, push_free, index_all, loaded, slots_of, PageFiles,
  SlotLocation, FilesRepoInner, LoadedPartition, open_files, load_all_partitions, save_partition,
}
use my_no_sql_server_grpc.Persist.Files.Example.{
  hash, t, p, empty_repo, empty_repo-IsConsistent, empty_repo-IsFolder, t-is_utf8, p-is_utf8,
}
use my_no_sql_server_grpc.Persist.Files.Slots.{content, occupant, occupant_in}
use my_no_sql_server_grpc.Persist.Files.Consistent.{saved, IsConsistent}
use my_no_sql_server_grpc.Persist.Files.Choose.{no_stale}
use my_no_sql_server_grpc.Persist.Files.Open.{IsFolder}
use my_no_sql_server_grpc.Persist.Files.Loaded.{payload_of}
use my_no_sql_server_grpc.Persist.Files.Save.{IsSaved, save_partition-IsSaved}
use my_no_sql_server_grpc.Persist.Files.Vacuum.{
  vacuum, empty_classes, all_free, remove_empty, compact_candidates, is_candidate, compact_all,
  compact_class, compact_slots, head_frees, tail_lives, copy_slots, copy_slot, repoint,
}
use my_no_sql_server_grpc.Persist.Files.Vacuum.Keeps.{IsKept, vacuum-IsKept}
use my_no_sql_server_grpc.Persist.Files.Load.{IsRecovered, load_all_partitions-IsRecovered}
use my_no_sql_server_grpc.Persist.Files.History.{
  Edit, save, delete, reclaim, restart, run_all, all_edited, run_all-restarted,
}

save_partition-IsSaved_example :
    (r' : FilesRepoInner) × (save_partition hash t p (9 ∷ 8 ∷ []) empty_repo ≡ returns r')
    × IsSaved hash (t, p) (9 ∷ 8 ∷ []) empty_repo r'
save_partition-IsSaved_example =
    save_partition-IsSaved hash t p (9 ∷ 8 ∷ []) empty_repo (λ bytes. omega arith)
      empty_repo-IsConsistent (omega arith) (omega arith) (omega arith) t-is_utf8 p-is_utf8
      (omega arith)

-- The repository that a first save leaves.
saved_once :
    (r' : FilesRepoInner) × (save_partition hash t p (9 ∷ []) empty_repo ≡ returns r')
    × IsSaved hash (t, p) (9 ∷ []) empty_repo r'
saved_once =
    save_partition-IsSaved hash t p (9 ∷ []) empty_repo (λ bytes. omega arith)
      empty_repo-IsConsistent (omega arith) (omega arith) (omega arith) t-is_utf8 p-is_utf8
      (omega arith)

-- A slot of the class 512, of the partition `p` of the table `t`.
abbrev a_slot : ℕ → ℕ → List ℕ
a_slot version value =
    7
    ∷ 0
    ∷ 0
    ∷ 0
    ∷ version
    ∷ 0
    ∷ 0
    ∷ 0
    ∷ 0
    ∷ 0
    ∷ 0
    ∷ 0
    ∷ 7
    ∷ 0
    ∷ 0
    ∷ 0
    ∷ 1
    ∷ 0
    ∷ 1
    ∷ 0
    ∷ 116
    ∷ 112
    ∷ value
    ∷ replicate 489 0

-- The older one first, and a free slot between them.
abbrev crashed : PageFiles
crashed = (512, a_slot 1 9 ∷ replicate 512 0 ∷ a_slot 2 8 ∷ []) ∷ []

abbrev as_slot : ℕ → ℕ → OccupiedSlot
as_slot version value = record {
  version = version;
  table_name = t;
  partition_key = p;
  payload = value ∷ [];
}

older : content hash (a_slot 1 9) ≡ some (as_slot 1 9)
unfolding content decode_slot decode_body from_le_bytes is_utf8
older = refl

newer : content hash (a_slot 2 8) ≡ some (as_slot 2 8)
unfolding content decode_slot decode_body from_le_bytes is_utf8
newer = refl

between : content hash (replicate 512 0) ≡ none
unfolding content decode_slot from_le_bytes
between = refl

crashed-IsFolder : IsFolder hash false crashed
unfolding decode_slot decode_body from_le_bytes is_utf8
crashed-IsFolder = record { distinct = (refl, tt); page_files = ((omega arith, refl), tt) }

small_in :
    (i : ℕ) (slot : OccupiedSlot)
    → occupant_in hash (a_slot 1 9 ∷ replicate 512 0 ∷ a_slot 2 8 ∷ []) i ≡ some slot
    → slot.version + 1 < 2 ^ 64
unfolding occupant_in
small_in zero slot e = ground (arith, older)
small_in (suc zero) slot e = ground (arith, between)
small_in (suc (suc zero)) slot e = ground (arith, newer)
small_in (suc (suc (suc i))) slot e = absurd (ground arith)

nowhere : (i : ℕ) → occupant_in hash [] i ≡ none
unfolding occupant_in
nowhere i = refl

small :
    (l : SlotLocation) (slot : OccupiedSlot)
    → occupant hash crashed l ≡ some slot
    → slot.version + 1 < 2 ^ 64
small l slot e = elim (Bool-cases (512 == l.size_class)) [
  | inl same ↦
      let at : slots_of l.size_class crashed ≡ a_slot 1 9 ∷ replicate 512 0 ∷ a_slot 2 8 ∷ [] =
        ground arith in
      small_in l.slot_index slot
        (ap (λ (s : List (List ℕ)). occupant_in hash s l.slot_index) (sym at) ∙ e)
  | inr other ↦
      let at : slots_of l.size_class crashed ≡ [] = ground arith in
      absurd (
        ground (
          arith,
          nowhere l.slot_index,
          ap (λ (s : List (List ℕ)). occupant_in hash s l.slot_index) at,
        ))
]

-- The newer slot wins.
abbrev payloads : Outcome (List LoadedPartition × FilesRepoInner) → List (List ℕ)
payloads (returns (partition ∷ [], r)) = partition.payload ∷ []
payloads _ = []

newer_wins : payloads (load_all_partitions hash false (open_files crashed)) ≡ (8 ∷ []) ∷ []
unfolding load_all_partitions open_files discover_class_files scan_classes scan_slots decode_slot
    decode_body from_le_bytes is_utf8 recover dedup dedup_step highest free_all free_slot zero_slot
    zero_at push_free index_all loaded
newer_wins = refl

load_all_partitions-IsRecovered_example :
    (partitions : List LoadedPartition) × (r' : FilesRepoInner) × (load_all_partitions hash false
        (open_files crashed)
      ≡ returns (partitions, r'))
    × IsRecovered hash crashed partitions r'
load_all_partitions-IsRecovered_example =
    load_all_partitions-IsRecovered hash false crashed crashed-IsFolder small

abbrev some_edits : List Edit
some_edits =
    save t p (9 ∷ [])
    ∷ save t p (replicate 600 5)
    ∷ restart
    ∷ delete t p
    ∷ reclaim (λ c. true)
    ∷ save t t (4 ∷ [])
    ∷ []

run_all-restarted_example :
    (r' : FilesRepoInner) × (partitions : List LoadedPartition) × (r'' : FilesRepoInner) × (run_all
        hash false some_edits empty_repo
      ≡ returns r')
    × (load_all_partitions hash false (open_files r'.page_files) ≡ returns (partitions, r''))
    × IsConsistent hash no_stale r''
    × ((k : Text × Text) → saved hash r'' k ≡ all_edited some_edits (saved hash empty_repo) k)
    × ((k : Text × Text)
        → payload_of k partitions ≡ all_edited some_edits (saved hash empty_repo) k)
run_all-restarted_example =
    run_all-restarted hash (λ bytes. omega arith) false some_edits empty_repo
      (
        (omega arith, omega arith, t-is_utf8, p-is_utf8, omega arith),
        (
          (omega arith, omega arith, t-is_utf8, p-is_utf8, omega arith),
          (tt, (tt, (tt, ((omega arith, omega arith, t-is_utf8, t-is_utf8, omega arith), tt)))),
        ),
      )
      empty_repo-IsConsistent empty_repo-IsFolder (omega arith)

vacuum-IsKept_example :
    (r' : FilesRepoInner) × (vacuum (λ c. true) saved_once.0 ≡ returns r')
    × IsKept hash saved_once.0 r'
vacuum-IsKept_example = vacuum-IsKept hash (λ c. true) saved_once.0 saved_once.2.consistent

-- Two files: in the first both slots are free, in the second a live slot lies behind two free ones.
abbrev spread : FilesRepoInner
spread = record {
  classes =
      (512, record { slot_count = 2; free = 1 ∷ 0 ∷ [] })
      ∷ (1024, record { slot_count = 3; free = 0 ∷ 1 ∷ [] })
      ∷ [];
  index = ((t, p), record { size_class = 1024; slot_index = 2 }) ∷ [];
  next_version = 4;
  page_files =
      (512, replicate 2 (replicate 16 0))
      ∷ (1024, (replicate 16 0) ∷ (replicate 16 0) ∷ (3 ∷ []) ∷ [])
      ∷ [];
}

vacuumed :
    vacuum (λ c. true) spread
    ≡ returns (record {
      classes = (1024, record { slot_count = 1; free = [] }) ∷ [];
      index = ((t, p), record { size_class = 1024; slot_index = 0 }) ∷ [];
      next_version = 4;
      page_files = (1024, (3 ∷ []) ∷ []) ∷ [];
    })
unfolding vacuum empty_classes all_free remove_empty compact_candidates is_candidate compact_all
    compact_class compact_slots head_frees tail_lives copy_slots copy_slot write_at repoint
vacuumed = refl
