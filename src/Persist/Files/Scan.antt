-- ===== src/Persist/Files/Scan.antt =====
-- What the recovery scan picks up.
use my_no_sql_server_grpc.Base.{
  ℕ, suc, ◌+◌, ◌-◌, ◌≡◌, ◌<◌, refl, ap, ◌∙◌, arith, Bool, true, false, ◌&&◌, ◌||◌, ◌⊎◌, inl, inr,
  List, [], ◌∷◌, ◌++◌, Option, none, some, ◌==◌, ==_iff, leb, ltb, if◌then◌else◌, length, nat_eq,
  Bool-cases,
}
use my_no_sql_server_grpc.Base.Assoc.{lookup}
use my_no_sql_server_grpc.Base.Outcome.{returns}
use my_no_sql_server_grpc.Persist.Slot.{OccupiedSlot, SlotState, occupied, corrupt, decode_slot}
use my_no_sql_server_grpc.Persist.Files.{
  SlotLocation, Classes, ScannedSlot, location_same, location_same_iff, scan_slots,
}
use my_no_sql_server_grpc.Persist.Files.FreeList.{contains, Unique}
use my_no_sql_server_grpc.Persist.Files.Slots.{content, occupant_in}

-- What was picked up at a place.
unfoldable pub picked : List ScannedSlot → SlotLocation → Option ScannedSlot
picked [] l = none
picked (slot ∷ slots) l = if location_same slot.location l then some slot else picked slots l

-- No place was picked up twice.
abbrev pub Apart : List ScannedSlot → Type 0
Apart [] = Unit {0}
Apart (slot ∷ slots) = (picked slots slot.location ≡ none) × Apart slots

abbrev pub or_picked : Option ScannedSlot → Option ScannedSlot → Option ScannedSlot
or_picked none other = other
or_picked (some slot) other = some slot

pub picked-append :
    (xs ys : List ScannedSlot) (l : SlotLocation)
    → picked (xs ++ ys) l ≡ or_picked (picked xs l) (picked ys l)
unfolding picked
picked-append [] ys l = refl
picked-append (x ∷ xs) ys l = ground (arith, picked-append xs ys l)

pub Apart-append :
    (xs ys : List ScannedSlot)
    → Apart xs
    → Apart ys
    → ((l : SlotLocation) (slot : ScannedSlot) → picked xs l ≡ some slot → picked ys l ≡ none)
    → Apart (xs ++ ys)
unfolding picked
Apart-append [] ys u v apart = v
Apart-append (x ∷ xs) ys u v apart = (
  picked-append xs ys x.location
      ∙ rw (u.0) (apart x.location x (rw ((location_same_iff x.location x.location).1 refl) refl)),
  Apart-append xs ys u.1 v (λ l slot h. elim (Bool-cases (location_same x.location l)) [
    | inl same ↦ apart l x (rw same refl)
    | inr other ↦ apart l slot (rw other h)
  ]),
)

-- A slot as the scan picks it up.
abbrev pub as_scanned : SlotLocation → Option OccupiedSlot → Option ScannedSlot
as_scanned l none = none
as_scanned l (some slot) = some (record {
  key = (slot.table_name, slot.partition_key);
  location = l;
  version = slot.version;
  payload = slot.payload;
})

State-cases :
    (s : SlotState)
    → (s ≡ SlotState.free) ⊎ ((s ≡ corrupt) ⊎ ((slot : OccupiedSlot) × (s ≡ occupied slot)))
State-cases SlotState.free = inl refl
State-cases corrupt = inr (inl refl)
State-cases (occupied slot) = inr (inr (slot, refl))

abbrev pub present : ℕ → Classes → Bool
present d classes = elim (lookup d classes) [ none ↦ false | some state ↦ true ]

module _ (hash : List ℕ → ℕ) where
  -- No slot is corrupt.
  abbrev pub is_clean : List (List ℕ) → Bool
  is_clean [] = true
  is_clean (bytes ∷ slots) = elim (decode_slot hash bytes) [
    | SlotState.free ↦ is_clean slots
    | corrupt ↦ false
    | occupied slot ↦ is_clean slots
  ]

  abbrev pub is_none : Option OccupiedSlot → Bool
  is_none none = true
  is_none (some slot) = false

  -- What the scan of one file, from the slot `i` on, picks up and what it finds free.
  pub record IsScanned (c i : ℕ) (slots : List (List ℕ)) (seen : List ScannedSlot × List ℕ)
      : Type 0 where
    pub found :
        (l : SlotLocation)
        → picked seen.0 l ≡ (
            if (l.size_class == c) && leb i l.slot_index
            then as_scanned l (occupant_in hash slots (l.slot_index - i))
            else none)
    pub free :
        (k : ℕ)
        → contains k seen.1
          ≡ (leb i k && (ltb (k - i) (length slots) && is_none (occupant_in hash slots (k - i))))
    pub apart : Apart seen.0
    pub once : Unique seen.1

  occupant_in-nil : (k : ℕ) → occupant_in hash [] k ≡ none
  unfolding occupant_in
  occupant_in-nil k = refl

  module _ (c i : ℕ) (bytes : List ℕ) (slots : List (List ℕ)) where
    at_first : (k : ℕ) → k ≡ i → occupant_in hash (bytes ∷ slots) (k - i) ≡ content hash bytes
    unfolding occupant_in
    at_first k e = let z : k - i ≡ 0 = omega arith in ap (occupant_in hash (bytes ∷ slots)) z

    at_later :
        (k : ℕ)
        → i < k
        → occupant_in hash (bytes ∷ slots) (k - i) ≡ occupant_in hash slots (k - (i + 1))
    unfolding occupant_in
    at_later k below =
        let s : k - i ≡ suc (k - (i + 1)) = omega arith in ap (occupant_in hash (bytes ∷ slots)) s

    -- The first slot is not occupied.
    free-IsScanned :
        (seen : List ScannedSlot) (free : List ℕ)
        → content hash bytes ≡ none
        → IsScanned c (i + 1) slots (seen, free)
        → IsScanned c i (bytes ∷ slots) (seen, i ∷ free)
    free-IsScanned seen free empty h = record {
      found = λ l. ground (arith, h.found l, at_first l.slot_index, at_later l.slot_index);
      free = λ k. ground (arith, h.free k, at_first k, at_later k, ==_iff i k);
      apart = h.apart;
      once = (ground (arith, h.free i), h.once);
    }

    occupied-IsScanned :
        (slot : OccupiedSlot) (seen : List ScannedSlot) (free : List ℕ)
        → content hash bytes ≡ some slot
        → IsScanned c (i + 1) slots (seen, free)
        → IsScanned c i (bytes ∷ slots) (
          record {
            key = (slot.table_name, slot.partition_key);
            location = record { size_class = c; slot_index = i };
            version = slot.version;
            payload = slot.payload;
          }
              ∷ seen,
          free,
        )
    unfolding picked
    occupied-IsScanned slot seen free full h = record {
      found = λ l. ground (
        arith,
        h.found l,
        at_first l.slot_index,
        at_later l.slot_index,
        location_same_iff (record { size_class = c; slot_index = i }) l,
      );
      free = λ k. ground (arith, h.free k, at_first k, at_later k);
      apart = (ground (arith, h.found (record { size_class = c; slot_index = i })), h.apart);
      once = h.once;
    }

  pub scan_slots-IsScanned :
      (c i : ℕ) (skip : Bool) (slots : List (List ℕ))
      → (skip || is_clean slots) ≡ true
      → (seen : List ScannedSlot × List ℕ) × (scan_slots hash c skip (length slots) i slots
          ≡ returns seen)
        × IsScanned c i slots seen
  unfolding scan_slots picked content
  scan_slots-IsScanned c i skip [] clean = (
    ([], []),
    refl,
    record {
      found = λ l. ground (arith, occupant_in-nil (l.slot_index - i));
      free = λ k. ground arith;
      apart = tt;
      once = tt;
    },
  )
  scan_slots-IsScanned c i skip (bytes ∷ slots) clean =
      let ((seen, free), done, h) = scan_slots-IsScanned c (i + 1) skip slots (ground arith) in
      elim (State-cases (decode_slot hash bytes)) [
        | inl e ↦ (
          (seen, i ∷ free),
          rw (done, e) refl,
          free-IsScanned c i bytes slots seen free (rw (content, e) refl) h,
        )
        | inr rest ↦ elim rest [
          | inl e ↦ (
            (seen, i ∷ free),
            rw (done, e) (ground arith),
            free-IsScanned c i bytes slots seen free (rw (content, e) refl) h,
          )
          | inr (slot, e) ↦ (
            _,
            rw (done, e) refl,
            occupied-IsScanned c i bytes slots slot seen free (rw (content, e) refl) h,
          )
        ]
      ]
