-- ===== src/Persist/Files/Vacuum.antt =====
-- server/src/persist/files_repo_inner.rs: `vacuum` and `compact_class`. Whether the removal of a file goes through is the
-- parameter `removes`.
pub mod Count
pub mod Pairs
pub mod Copy
pub mod Places
pub mod Compact
pub mod Keeps
use my_no_sql_server_grpc.Base.{
  ℕ, zero, suc, ◌-◌, ◌*◌, Bool, true, false, not, ◌&&◌, List, [], ◌∷◌, Option, none, some, ltb, leb,
  ◌==◌, if◌then◌else◌, length, take, get_elem?, Text, nat_eq, pair_eq,
}
use my_no_sql_server_grpc.Base.Assoc.{lookup, insert, remove}
use my_no_sql_server_grpc.Base.Outcome.{Outcome, returns, panics, ◌>>=◌, ◌>>◌, assert}
use my_no_sql_server_grpc.Persist.Files.{
  SlotLocation, ClassState, Classes, FilesRepoInner, write_at,
}
use my_no_sql_server_grpc.Persist.Files.FreeList.{contains}

-- `(0..state.slot_count).all(|slot_index| free.contains(&slot_index))`
unfoldable pub all_free : ℕ → List ℕ → Bool
all_free zero free = true
all_free (suc n) free = contains n free && all_free n free

unfoldable pub empty_classes : Classes → List ℕ
empty_classes [] = []
empty_classes ((c, state) ∷ classes) =
    let rest = empty_classes classes in
    if state.slot_count == 0
    then rest
    else if all_free state.slot_count state.free
    then c ∷ rest
    else rest

unfoldable pub remove_empty : (ℕ → Bool) → List ℕ → FilesRepoInner → FilesRepoInner
remove_empty removes [] r = r
remove_empty removes (c ∷ cs) r = remove_empty removes cs (
    if removes c
    then record r { classes = remove c r.classes; page_files = remove c r.page_files }
    else r)

unfoldable pub is_candidate : ClassState → Bool
is_candidate state =
    ltb 2 state.slot_count
    && (ltb (length state.free) state.slot_count && leb state.slot_count (length state.free * 2))

unfoldable pub compact_candidates : Classes → List ℕ
compact_candidates [] = []
compact_candidates ((c, state) ∷ classes) =
    let rest = compact_candidates classes in if is_candidate state then c ∷ rest else rest

-- Copy targets: free slots below the new end of file.
unfoldable pub head_frees : ℕ → List ℕ → List ℕ
head_frees live_count [] = []
head_frees live_count (i ∷ free) =
    let rest = head_frees live_count free in if ltb i live_count then i ∷ rest else rest

-- Slots to move: live slots at or beyond the new end of file.
unfoldable pub tail_lives : ℕ → ℕ → List ((Text × Text) × SlotLocation) → List ((Text × Text) × ℕ)
tail_lives size_class live_count [] = []
tail_lives size_class live_count ((key, l) ∷ index) =
    let rest = tail_lives size_class live_count index in
    if (l.size_class == size_class) && leb live_count l.slot_index
    then (key, l.slot_index) ∷ rest
    else rest

-- `read_exact` of one slot, and `write_all` of another.
unfoldable pub copy_slot : ℕ → ℕ → ℕ → List (List ℕ) → Outcome (List (List ℕ))
copy_slot size_class from_index to_index slots = elim (get_elem? slots from_index) [
  | none ↦ panics
  | some buf ↦ returns (write_at size_class to_index buf slots)
]

-- `tail_lives.iter().zip(head_frees.iter())`
unfoldable pub copy_slots :
    ℕ → List ((Text × Text) × ℕ) → List ℕ → List (List ℕ) → Outcome (List (List ℕ))
copy_slots size_class [] frees slots = returns slots
copy_slots size_class (live ∷ lives) [] slots = returns slots
copy_slots size_class ((_, from_index) ∷ lives) (to_index ∷ frees) slots = do
  slots ← copy_slot size_class from_index to_index slots
  copy_slots size_class lives frees slots

unfoldable pub repoint :
    ℕ
    → List ((Text × Text) × ℕ)
    → List ℕ
    → List ((Text × Text) × SlotLocation)
    → List ((Text × Text) × SlotLocation)
repoint size_class [] frees index = index
repoint size_class (live ∷ lives) [] index = index
repoint size_class ((key, _) ∷ lives) (to_index ∷ frees) index =
    repoint size_class lives frees
      (insert key (record { size_class = size_class; slot_index = to_index }) index)

-- The part of `compact_class` behind the lookups of the class and of its file.
unfoldable pub compact_slots :
    ℕ → ClassState → List (List ℕ) → FilesRepoInner → Outcome FilesRepoInner
compact_slots size_class state slots r =
    let live_count = state.slot_count - length state.free in
    let frees = head_frees live_count state.free in
    let lives = tail_lives size_class live_count r.index in
    do
      assert (length lives == length frees)
      copied ← copy_slots size_class lives frees slots
      returns (record r {
        page_files = insert size_class (take live_count copied) r.page_files;
        index = repoint size_class lives frees r.index;
        classes = insert size_class (record { slot_count = live_count; free = [] }) r.classes;
      })

unfoldable pub compact_class : ℕ → FilesRepoInner → Outcome FilesRepoInner
compact_class size_class r = elim (lookup size_class r.classes) [
  | none ↦ panics
  | some state ↦ elim (lookup size_class r.page_files) [
    | none ↦ panics
    | some slots ↦ compact_slots size_class state slots r
  ]
]

unfoldable pub compact_all : List ℕ → FilesRepoInner → Outcome FilesRepoInner
compact_all [] r = returns r
compact_all (c ∷ cs) r = do r ← compact_class c r; compact_all cs r

unfoldable pub vacuum : (ℕ → Bool) → FilesRepoInner → Outcome FilesRepoInner
vacuum removes r =
    let r' = remove_empty removes (empty_classes r.classes) r in
    compact_all (compact_candidates r'.classes) r'
