-- ===== src/Persist/Files/Slots.antt =====
-- What stands in a slot of the page-files, and what a write and a release change of it.
use my_no_sql_server_grpc.Base.{
  ℕ, zero, suc, ◌≡◌, refl, ap, arith, ◌≤◌, ◌<◌, List, [], ◌∷◌, ◌++◌, Option, none, some, ◌==◌,
  if◌then◌else◌, length, drop, replicate, nat_eq, ==_iff, inl, inr, Bool-cases,
}
use my_no_sql_server_grpc.Base.Assoc.{lookup, insert, lookup-insert}
use my_no_sql_server_grpc.Base.Word.{from_le_bytes}
use my_no_sql_server_grpc.Persist.Slot.{
  OccupiedSlot, SlotState, occupied, corrupt, decode_slot, slot_prefix_len,
}
use my_no_sql_server_grpc.Persist.Files.{
  SlotLocation, location_same, Classes, ClassState, PageFiles, slots_of, state_of, write_at,
  zero_at, write_slot,
}

pub slots_of-insert :
    (c d : ℕ) (slots : List (List ℕ)) (files : PageFiles)
    → slots_of d (insert c slots files) ≡ (if c == d then slots else slots_of d files)
slots_of-insert c d slots files = ground (arith, lookup-insert c d slots files)

pub state_of-insert :
    (c d : ℕ) (state : ClassState) (classes : Classes)
    → state_of d (insert c state classes) ≡ (if c == d then state else state_of d classes)
state_of-insert c d state classes = ground (arith, lookup-insert c d state classes)

pub length-zero_at : (i : ℕ) (slots : List (List ℕ)) → length (zero_at i slots) ≡ length slots
unfolding zero_at
length-zero_at zero [] = refl
length-zero_at zero (slot ∷ slots) = refl
length-zero_at (suc i) [] = refl
length-zero_at (suc i) (slot ∷ slots) = ap suc (length-zero_at i slots)

pub length-write_at :
    (c i : ℕ) (buf : List ℕ) (slots : List (List ℕ))
    → i ≤ length slots
    → length (write_at c i buf slots)
      ≡ (if i == length slots then suc (length slots) else length slots)
unfolding write_at
length-write_at c zero buf [] h = refl
length-write_at c zero buf (slot ∷ slots) h = ground arith
length-write_at c (suc i) buf [] h = absurd (omega arith)
length-write_at c (suc i) buf (slot ∷ slots) h =
    ground (arith, length-write_at c i buf slots (omega arith))

module _ (hash : List ℕ → ℕ) where
  unfoldable pub content : List ℕ → Option OccupiedSlot
  content bytes = elim (decode_slot hash bytes) [
    | SlotState.free ↦ none
    | corrupt ↦ none
    | occupied slot ↦ some slot
  ]

  unfoldable pub occupant_in : List (List ℕ) → ℕ → Option OccupiedSlot
  occupant_in [] i = none
  occupant_in (bytes ∷ slots) zero = content bytes
  occupant_in (bytes ∷ slots) (suc i) = occupant_in slots i

  abbrev pub occupant : PageFiles → SlotLocation → Option OccupiedSlot
  occupant files location = occupant_in (slots_of location.size_class files) location.slot_index

  pub occupant_in-lt :
      (slots : List (List ℕ)) (i : ℕ) {slot : OccupiedSlot}
      → occupant_in slots i ≡ some slot
      → i < length slots
  unfolding occupant_in
  occupant_in-lt [] i h = cc
  occupant_in-lt (bytes ∷ slots) zero h = omega arith
  occupant_in-lt (bytes ∷ slots) (suc i) h = omega (arith, occupant_in-lt slots i h)

  -- A prefix of zeros says that the slot is free.
  pub decode_slot-zeros :
      (rest : List ℕ) → decode_slot hash (replicate slot_prefix_len 0 ++ rest) ≡ SlotState.free
  unfolding decode_slot from_le_bytes
  decode_slot-zeros rest = ground arith

  content-zeros : (rest : List ℕ) → content (replicate slot_prefix_len 0 ++ rest) ≡ none
  unfolding content
  content-zeros rest = rw (content, decode_slot-zeros rest) refl

  occupant_in-zero_at :
      (i j : ℕ) (slots : List (List ℕ))
      → occupant_in (zero_at i slots) j ≡ (if i == j then none else occupant_in slots j)
  unfolding zero_at occupant_in
  occupant_in-zero_at zero j [] = ground arith
  occupant_in-zero_at (suc i) j [] = ground arith
  occupant_in-zero_at zero zero (slot ∷ slots) = content-zeros (drop slot_prefix_len slot)
  occupant_in-zero_at zero (suc j) (slot ∷ slots) = ground arith
  occupant_in-zero_at (suc i) zero (slot ∷ slots) = ground arith
  occupant_in-zero_at (suc i) (suc j) (slot ∷ slots) = ground (arith, occupant_in-zero_at i j slots)

  pub occupant_in-write_at :
      (c i j : ℕ) (buf : List ℕ) (slots : List (List ℕ))
      → i ≤ length slots
      → occupant_in (write_at c i buf slots) j
        ≡ (if i == j then content buf else occupant_in slots j)
  unfolding write_at occupant_in
  occupant_in-write_at c zero zero buf [] h = refl
  occupant_in-write_at c zero (suc j) buf [] h = ground arith
  occupant_in-write_at c zero zero buf (slot ∷ slots) h = refl
  occupant_in-write_at c zero (suc j) buf (slot ∷ slots) h = ground arith
  occupant_in-write_at c (suc i) j buf [] h = absurd (omega arith)
  occupant_in-write_at c (suc i) zero buf (slot ∷ slots) h = ground arith
  occupant_in-write_at c (suc i) (suc j) buf (slot ∷ slots) h =
      ground (arith, occupant_in-write_at c i j buf slots (omega arith))

  pub occupant-write_slot :
      (location other : SlotLocation) (buf : List ℕ) (files : PageFiles)
      → location.slot_index ≤ length (slots_of location.size_class files)
      → occupant (write_slot location buf files) other
        ≡ (if location_same location other then content buf else occupant files other)
  unfolding write_slot
  occupant-write_slot location other buf files h =
      let c = location.size_class in
      let slots = slots_of c files in
      let there = occupant_in-write_at c location.slot_index other.slot_index buf slots h in
      rw (slots_of-insert c other.size_class (write_at c location.slot_index buf slots) files)
        (elim (Bool-cases (c == other.size_class)) [
          | inl same ↦ rw (same, there) (ground (arith, ==_iff c other.size_class))
          | inr different ↦ rw different refl
        ])

  pub occupant-zero_slot :
      (location other : SlotLocation) (files : PageFiles) (slots : List (List ℕ))
      → lookup location.size_class files ≡ some slots
      → occupant (insert location.size_class (zero_at location.slot_index slots) files) other
        ≡ (if location_same location other then none else occupant files other)
  occupant-zero_slot location other files slots found =
      let c = location.size_class in
      let there = occupant_in-zero_at location.slot_index other.slot_index slots in
      rw (slots_of-insert c other.size_class (zero_at location.slot_index slots) files)
        (elim (Bool-cases (c == other.size_class)) [
          | inl same ↦ rw (same, there) (ground (arith, ==_iff c other.size_class))
          | inr different ↦ rw different refl
        ])
