-- ===== src/Operations/Init/Tests.antt =====
-- A folder of one slot, and tables that are lists of partitions.
use mathlib.Core.Path.{subst}
use my_no_sql_server_grpc.Base.{
  ℕ, ◌≡◌, ◌+◌, ◌<◌, ◌^◌, refl, arith, ap, sym, ◌∙◌, false, zero, suc, ◌==◌, inl, inr, Bool-cases,
  List, [], ◌∷◌, ◌++◌, Option, none, some, Text, text_same, replicate, length, if◌then◌else◌,
}
use my_no_sql_server_grpc.Base.Word.{from_le_bytes}
use my_no_sql_server_grpc.Base.Utf8.{is_utf8}
use my_no_sql_server_grpc.Base.Outcome.{returns}
use my_no_sql_server_grpc.Persist.BinaryReader.{
  new, read_u32, read_u64, read_bytes, read_u32_prefixed_bytes, is_eof,
}
use my_no_sql_server_grpc.Persist.PartitionBlob.{
  Zstd, decompressed, deserialize, read_body, read_rows, reading,
}
use my_no_sql_server_grpc.Persist.Slot.{OccupiedSlot, decode_slot, decode_body}
use my_no_sql_server_grpc.Persist.Files.{
  slots_of, PageFiles, SlotLocation, FilesRepoInner, LoadedPartition, open_files,
  load_all_partitions,
}
use my_no_sql_server_grpc.Persist.Files.Slots.{content, occupant, occupant_in}
use my_no_sql_server_grpc.Persist.Files.Open.{IsFolder}
use my_no_sql_server_grpc.Persist.Files.Load.{IsRecovered}
use my_no_sql_server_grpc.Operations.Init.{Restores, load_namespace}
use my_no_sql_server_grpc.Operations.Init.Restored.{IsRestoring, shown}
use my_no_sql_server_grpc.Operations.Init.Rows.{IsOfRows}
use my_no_sql_server_grpc.Persist.Files.Consistent.{saved}
use my_no_sql_server_grpc.Operations.Init.Recovered.{IsWhole, Shows, load_namespace-IsRecovered}

-- A partition is its key and a number for each of its rows.
abbrev Partition : Type 0
Partition = Text × List ℕ

abbrev parsed : List ℕ → Option (List ℕ)
parsed [] = none
parsed bytes = some bytes

abbrev ops : Restores (List Partition) Partition ℕ ℕ (List ℕ)
ops = record {
  new_table = λ name attributes. [];
  default_attributes = 0;
  new_partition = λ k. (k, []);
  insert_or_replace = λ row q. (q.0, row ∷ q.1);
  restore_partition = λ q t. q ∷ t;
  parse = parsed;
  time_stamp = λ bytes. none;
  new_row = λ bytes schema_id time_stamp. schema_id + length bytes;
}

abbrev get_partition : Text → List Partition → Option Partition
get_partition k [] = none
get_partition k (q ∷ t) = if text_same q.0 k then some q else get_partition k t

abbrev key : Partition → Text
key q = q.0

law : IsRestoring ops get_partition key
law = record {
  restored = λ q t k. refl;
  empty = λ name k a. refl;
  named = λ k. refl;
  rows = λ r q. refl;
}

abbrev hash : List ℕ → ℕ
hash bytes = 7

abbrev stored : Zstd
stored = record { encode_all = λ bytes. bytes; decode_all = λ bytes. some bytes }

abbrev t : Text
t = 116 ∷ []

abbrev p : Text
p = 112 ∷ []

-- One row of two bytes, under the schema 7.
abbrev payload : List ℕ
payload = 1 ∷ 1 ∷ 0 ∷ 0 ∷ 0 ∷ 7 ∷ 0 ∷ 0 ∷ 0 ∷ 0 ∷ 0 ∷ 0 ∷ 0 ∷ 2 ∷ 0 ∷ 0 ∷ 0 ∷ 5 ∷ 6 ∷ []

-- A slot of the class 512, of the partition `p` of the table `t`.
abbrev a_slot : List ℕ
a_slot =
    7
    ∷ 0
    ∷ 0
    ∷ 0
    ∷ 3
    ∷ 0
    ∷ 0
    ∷ 0
    ∷ 0
    ∷ 0
    ∷ 0
    ∷ 0
    ∷ 25
    ∷ 0
    ∷ 0
    ∷ 0
    ∷ 1
    ∷ 0
    ∷ 1
    ∷ 0
    ∷ 116
    ∷ 112
    ∷ (payload ++ replicate 471 0)

abbrev files : PageFiles
files = (512, a_slot ∷ []) ∷ []

abbrev as_slot : OccupiedSlot
as_slot = record { version = 3; table_name = t; partition_key = p; payload = payload }

read : content hash a_slot ≡ some as_slot
unfolding content decode_slot decode_body from_le_bytes is_utf8
read = refl

files-IsFolder : IsFolder hash false files
unfolding decode_slot decode_body from_le_bytes is_utf8
files-IsFolder = record { distinct = (refl, tt); page_files = ((omega arith, refl), tt) }

only_in :
    (i : ℕ) (slot : OccupiedSlot) → occupant_in hash (a_slot ∷ []) i ≡ some slot → as_slot ≡ slot
unfolding occupant_in
only_in zero slot e = ground (arith, read)
only_in (suc i) slot e = absurd (ground arith)

nowhere : (i : ℕ) → occupant_in hash [] i ≡ none
unfolding occupant_in
nowhere i = refl

only : (l : SlotLocation) (slot : OccupiedSlot) → occupant hash files l ≡ some slot → as_slot ≡ slot
only l slot e = elim (Bool-cases (512 == l.size_class)) [
  | inl same ↦
      let at : slots_of l.size_class files ≡ a_slot ∷ [] = ground arith in
      only_in l.slot_index slot
        (ap (λ (s : List (List ℕ)). occupant_in hash s l.slot_index) (sym at) ∙ e)
  | inr other ↦
      let at : slots_of l.size_class files ≡ [] = ground arith in
      absurd (
        ground (
          arith,
          nowhere l.slot_index,
          ap (λ (s : List (List ℕ)). occupant_in hash s l.slot_index) at,
        ))
]

small :
    (l : SlotLocation) (slot : OccupiedSlot)
    → occupant hash files l ≡ some slot
    → slot.version + 1 < 2 ^ 64
small l slot e = ground (arith, ap (λ (s : OccupiedSlot). s.version) (only l slot e))

abbrev get_row : Text → Partition → Option ℕ
get_row j (k, []) = none
get_row j (k, row ∷ rows) = if text_same (row ∷ []) j then some row else get_row j (k, rows)

-- A row's number is its key as well.
abbrev row_key : ℕ → Text
row_key row = row ∷ []

row_law : IsOfRows ops get_row row_key
row_law = record { no_rows = λ k j. refl; one_more = λ row q j. refl }

whole : IsWhole ops get_partition key law stored hash false 0 get_row row_key row_law payload
unfolding deserialize decompressed read_body reading read_rows new read_u32 read_u64 read_bytes
    read_u32_prefixed_bytes is_eof from_le_bytes
whole = (record { schema_id = 7; row = 5 ∷ 6 ∷ [] } ∷ [], refl, refl)

slots-IsWhole :
    (l : SlotLocation) (slot : OccupiedSlot)
    → occupant hash files l ≡ some slot
    → IsWhole ops get_partition key law stored hash false 0 get_row row_key row_law slot.payload
slots-IsWhole l slot e =
    subst
      (λ (s : OccupiedSlot).
        IsWhole ops get_partition key law stored hash false 0 get_row row_key row_law s.payload)
      (only l slot e) whole

load_namespace-IsRecovered_example :
    (partitions : List LoadedPartition) × (r : FilesRepoInner) × (tables : List
      (Text × List Partition))
    × (load_all_partitions hash false (open_files files) ≡ returns (partitions, r))
    × (load_namespace ops stored false 0 ((112 ∷ [], 5) ∷ []) partitions ≡ returns tables)
    × IsRecovered hash files partitions r
    × ((k : Text × Text)
        → Shows ops get_partition key law stored hash false 0 get_row row_key row_law k
            (saved hash r k)
            (shown ops get_partition key k tables))
load_namespace-IsRecovered_example =
    load_namespace-IsRecovered ops get_partition key law stored hash false 0 get_row row_key row_law
      ((112 ∷ [], 5) ∷ []) files files-IsFolder small slots-IsWhole
