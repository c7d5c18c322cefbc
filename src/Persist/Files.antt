-- ===== src/Persist/Files.antt =====
-- server/src/persist/files_repo_inner.rs: the page-files of a namespace, the bookkeeping in memory, and the recovery
-- scan.
--
-- A page-file is the list of its slots. The lock of FilesRepo (files_repo.rs) makes each call one step. Calls of the file
-- system succeed, but where the source has a branch for a failure. The crc is the parameter `hash`.
pub mod Slots
pub mod FreeList
pub mod Consistent
pub mod Choose
pub mod Put
pub mod Save
pub mod Delete
pub mod Scan
pub mod Survey
pub mod Dedup
pub mod Release
pub mod Open
pub mod Load
pub mod Loaded
pub mod Intact
pub mod History
pub mod Vacuum
pub mod Example
mod Tests
use my_no_sql_server_grpc.Base.{
  ℕ, zero, suc, ◌+◌, ◌%◌, ◌^◌, Bool, true, ◌&&◌, List, [], ◌∷◌, ◌++◌, Option, none, some, ltb, ◌==◌,
  KeyEq, if◌then◌else◌, length, drop, replicate, Text, text_eq, nat_eq, pair_eq, ◌≡◌, ◌↔◌, arith,
  ==_iff,
}
use my_no_sql_server_grpc.Base.Assoc.{lookup, insert, remove}
use my_no_sql_server_grpc.Base.Outcome.{Outcome, returns, panics, ◌>>=◌}
use my_no_sql_server_grpc.Persist.SizeClass.{min_size_class, size_class_for}
use my_no_sql_server_grpc.Persist.Slot.{
  slot_prefix_len, slot_bytes_needed, encode_slot, decode_slot, SlotState, occupied, corrupt,
}

pub record SlotLocation : Type 0 where
  pub size_class : ℕ
  pub slot_index : ℕ

abbrev pub location_same : SlotLocation → SlotLocation → Bool
location_same a b = a.size_class == b.size_class && a.slot_index == b.slot_index

pub location_same_iff : (a b : SlotLocation) → (location_same a b ≡ true) ↔ (a ≡ b)
location_same_iff a b =
    ground (arith, ==_iff a.size_class b.size_class, ==_iff a.slot_index b.slot_index)

instance abbrev pub location_eq : KeyEq SlotLocation
location_eq = record { same = location_same; same_iff = location_same_iff }

pub record ClassState : Type 0 where
  pub slot_count : ℕ
  pub free : List ℕ

pub record ScannedSlot : Type 0 where
  pub key : Text × Text
  pub location : SlotLocation
  pub version : ℕ
  pub payload : List ℕ

pub record LoadedPartition : Type 0 where
  pub table_name : Text
  pub partition_key : Text
  pub payload : List ℕ

abbrev pub Classes : Type 0
Classes = List (ℕ × ClassState)

-- The page-files of the folder, by the number that names the file.
abbrev pub PageFiles : Type 0
PageFiles = List (ℕ × List (List ℕ))

pub record FilesRepoInner : Type 0 where
  pub classes : Classes
  pub index : List ((Text × Text) × SlotLocation)
  pub next_version : ℕ
  pub page_files : PageFiles

-- A page-file that is not there is empty.
abbrev pub slots_of : ℕ → PageFiles → List (List ℕ)
slots_of size_class page_files = elim (lookup size_class page_files) [
  | none ↦ []
  | some slots ↦ slots
]

-- A seek to a slot and a write of its bytes. What lies between the end of the file and the slot reads as zeros.
unfoldable pub write_at : ℕ → ℕ → List ℕ → List (List ℕ) → List (List ℕ)
write_at size_class zero buf [] = buf ∷ []
write_at size_class zero buf (slot ∷ slots) = buf ∷ slots
write_at size_class (suc i) buf [] = replicate size_class 0 ∷ write_at size_class i buf []
write_at size_class (suc i) buf (slot ∷ slots) = slot ∷ write_at size_class i buf slots

unfoldable pub zero_at : ℕ → List (List ℕ) → List (List ℕ)
zero_at i [] = []
zero_at zero (slot ∷ slots) = (replicate slot_prefix_len 0 ++ drop slot_prefix_len slot) ∷ slots
zero_at (suc i) (slot ∷ slots) = slot ∷ zero_at i slots

unfoldable pub write_slot : SlotLocation → List ℕ → PageFiles → PageFiles
write_slot location buf page_files =
    insert location.size_class
      (write_at location.size_class location.slot_index buf
        (slots_of location.size_class page_files))
      page_files

-- The file is opened without `create`.
unfoldable pub zero_slot : SlotLocation → PageFiles → Outcome PageFiles
zero_slot location page_files = elim (lookup location.size_class page_files) [
  | none ↦ panics
  | some slots ↦ returns (insert location.size_class (zero_at location.slot_index slots) page_files)
]

-- `self.classes.get_mut(&size_class).unwrap().free.push(slot_index)`
unfoldable pub push_free : SlotLocation → Classes → Outcome Classes
push_free location classes = elim (lookup location.size_class classes) [
  | none ↦ panics
  | some state ↦ returns (
      insert location.size_class (record state { free = state.free ++ (location.slot_index ∷ []) })
        classes)
]

unfoldable pub free_slot : SlotLocation → FilesRepoInner → Outcome FilesRepoInner
free_slot location r = do
  page_files ← zero_slot location r.page_files
  classes ← push_free location r.classes
  returns (record r { page_files = page_files; classes = classes })

-- `Vec::pop`
unfoldable pub pop : List ℕ → Option (ℕ × List ℕ)
pop [] = none
pop (x ∷ xs) = elim (pop xs) [ none ↦ some (x, []) | some (last, rest) ↦ some (last, x ∷ rest) ]

-- `self.classes.entry(size_class).or_insert(..)`
abbrev pub state_of : ℕ → Classes → ClassState
state_of size_class classes = elim (lookup size_class classes) [
  | none ↦ record { slot_count = 0; free = [] }
  | some state ↦ state
]

unfoldable pub allocate_slot : ℕ → Classes → SlotLocation × Classes
allocate_slot size_class classes =
    let state = state_of size_class classes in
    elim (pop state.free) [
      | some (slot_index, free) ↦ (
        record { size_class = size_class; slot_index = slot_index },
        insert size_class (record state { free = free }) classes,
      )
      | none ↦ (
        record { size_class = size_class; slot_index = state.slot_count },
        insert size_class (record state { slot_count = state.slot_count + 1 }) classes,
      )
    ]

-- In place when the size class is unchanged.
unfoldable pub choose_slot : Option SlotLocation → ℕ → Classes → SlotLocation × Classes
choose_slot none size_class classes = allocate_slot size_class classes
choose_slot (some location) size_class classes =
    if location.size_class == size_class
    then (location, classes)
    else allocate_slot size_class classes

-- The old slot of a partition that has moved.
unfoldable pub release :
    Option SlotLocation → SlotLocation → FilesRepoInner → Outcome FilesRepoInner
release none target r = returns r
release (some old) target r = if location_same old target then returns r else free_slot old r

module _ (hash : List ℕ → ℕ) where
  -- The part of `save_partition` behind the choice of the slot.
  unfoldable pub store :
      Text × Text → List ℕ → ℕ → SlotLocation × Classes → FilesRepoInner → Outcome FilesRepoInner
  store key payload size_class (target, classes) r = do
    buf ← encode_slot hash size_class r.next_version key.0 key.1 payload
    release (lookup key r.index) target (record {
      classes = classes;
      index = insert key target r.index;
      next_version = (r.next_version + 1) % 2 ^ 64;
      page_files = write_slot target buf r.page_files;
    })

  unfoldable pub save_partition : Text → Text → List ℕ → FilesRepoInner → Outcome FilesRepoInner
  save_partition table_name partition_key payload r = do
    needed ← slot_bytes_needed table_name partition_key (length payload)
    size_class ← size_class_for needed
    store (table_name, partition_key) payload size_class
        (choose_slot (lookup (table_name, partition_key) r.index) size_class r.classes) r

unfoldable pub delete_partition : Text → Text → FilesRepoInner → Outcome FilesRepoInner
delete_partition table_name partition_key r = elim (lookup (table_name, partition_key) r.index) [
  | none ↦ returns r
  | some location ↦
      free_slot location (record r { index = remove (table_name, partition_key) r.index })
]

-- Files with a smaller number are no page-files.
unfoldable pub discover_class_files : PageFiles → Classes
discover_class_files [] = []
discover_class_files ((size_class, slots) ∷ files) =
    let rest = discover_class_files files in
    if ltb size_class min_size_class
    then rest
    else (size_class, record { slot_count = length slots; free = [] }) ∷ rest

unfoldable pub open_files : PageFiles → FilesRepoInner
open_files page_files = record {
  classes = discover_class_files page_files;
  index = [];
  next_version = 0;
  page_files = page_files;
}

module _ (hash : List ℕ → ℕ) where
  -- `for slot_index in 0..slot_count`: what is picked up, and the slots that are free.
  unfoldable pub scan_slots : ℕ → Bool → ℕ → ℕ → List (List ℕ) → Outcome (List ScannedSlot × List ℕ)
  scan_slots size_class skip_errors zero slot_index slots = returns ([], [])
  scan_slots size_class skip_errors (suc n) slot_index [] = returns ([], [])
  scan_slots size_class skip_errors (suc n) slot_index (bytes ∷ slots) = do
    rest ← scan_slots size_class skip_errors n (slot_index + 1) slots
    elim (decode_slot hash bytes) [
      | SlotState.free ↦ returns (rest.0, slot_index ∷ rest.1)
      | corrupt ↦ if skip_errors then returns (rest.0, slot_index ∷ rest.1) else panics
      | occupied slot ↦ returns (
        record {
          key = (slot.table_name, slot.partition_key);
          location = record { size_class = size_class; slot_index = slot_index };
          version = slot.version;
          payload = slot.payload;
        }
            ∷ rest.0,
        rest.1,
      )
    ]

  unfoldable pub scan_classes : Bool → Classes → PageFiles → Outcome (List ScannedSlot × Classes)
  scan_classes skip_errors [] page_files = returns ([], [])
  scan_classes skip_errors ((size_class, state) ∷ classes) page_files = do
    seen ← scan_slots size_class skip_errors state.slot_count 0 (slots_of size_class page_files)
    rest ← scan_classes skip_errors classes page_files
    returns (seen.0 ++ rest.0, (size_class, record state { free = state.free ++ seen.1 }) ∷ rest.1)

-- `if slot.version > max_version`
unfoldable pub highest : ℕ → List ScannedSlot → ℕ
highest max_version [] = max_version
highest max_version (slot ∷ slots) =
    highest (if ltb max_version slot.version then slot.version else max_version) slots

abbrev pub Winners : Type 0
Winners = List ((Text × Text) × ScannedSlot)

unfoldable pub dedup_step : ScannedSlot → Winners × List SlotLocation → Winners × List SlotLocation
dedup_step slot (winners, losers) = elim (lookup slot.key winners) [
  | none ↦ (insert slot.key slot winners, losers)
  | some old ↦
      if ltb old.version slot.version
      then (insert slot.key slot winners, losers ++ (old.location ∷ []))
      else (winners, losers ++ (slot.location ∷ []))
]

unfoldable pub dedup : List ScannedSlot → Winners × List SlotLocation → Winners × List SlotLocation
dedup [] s = s
dedup (slot ∷ slots) s = dedup slots (dedup_step slot s)

unfoldable pub free_all : List SlotLocation → FilesRepoInner → Outcome FilesRepoInner
free_all [] r = returns r
free_all (location ∷ locations) r = do r ← free_slot location r; free_all locations r

unfoldable pub index_all :
    Winners → List ((Text × Text) × SlotLocation) → List ((Text × Text) × SlotLocation)
index_all [] index = index
index_all ((key, slot) ∷ winners) index = index_all winners (insert key slot.location index)

unfoldable pub loaded : Winners → List LoadedPartition
loaded [] = []
loaded ((key, slot) ∷ winners) =
    record { table_name = key.0; partition_key = key.1; payload = slot.payload } ∷ loaded winners

-- What is left to do once the slots are picked up.
unfoldable pub recover :
    List ScannedSlot × Classes → FilesRepoInner → Outcome (List LoadedPartition × FilesRepoInner)
recover (scanned, classes) r =
    let (winners, losers) = dedup scanned ([], []) in
    do
      r ← free_all losers (record r { classes = classes })
      returns (
        loaded winners,
        record r {
          next_version = (highest 0 scanned + 1) % 2 ^ 64;
          index = index_all winners r.index;
        },
      )

unfoldable pub load_all_partitions :
    (List ℕ → ℕ) → Bool → FilesRepoInner → Outcome (List LoadedPartition × FilesRepoInner)
load_all_partitions hash skip_errors r = do
  scanned ← scan_classes hash skip_errors r.classes r.page_files
  recover scanned r
