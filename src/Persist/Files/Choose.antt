-- ===== src/Persist/Files/Choose.antt =====
-- The slot that `save_partition` writes to: the partition's own, a free one, or one behind the end of the file.
use my_no_sql_server_grpc.Base.{
  ℕ, suc, ◌+◌, ◌≡◌, ◌≤◌, refl, arith, Bool, false, not, ◌&&◌, ◌⊎◌, inl, inr, List, Option, none,
  some, ◌==◌, ==_iff, if◌then◌else◌, length, Text, nat_eq, pair_eq, Option-cases, Bool-cases,
}
use my_no_sql_server_grpc.Base.Assoc.{lookup, Distinct, insert-Distinct}
use my_no_sql_server_grpc.Persist.Files.{
  SlotLocation, Classes, ClassState, location_same, location_same_iff, FilesRepoInner, slots_of,
  state_of, pop, allocate_slot, choose_slot,
}
use my_no_sql_server_grpc.Persist.Files.FreeList.{contains, Unique, contains-pop, Unique-pop}
use my_no_sql_server_grpc.Persist.Files.Slots.{state_of-insert, occupant_in-lt}
use my_no_sql_server_grpc.Persist.Files.Consistent.{is_free, stands, IsConsistent}

-- Between two calls no slot is stale.
abbrev pub no_stale : SlotLocation → Bool
no_stale l = false

-- How many slots there are once `target` is written.
abbrev pub grown : FilesRepoInner → SlotLocation → ℕ → ℕ
grown r target d =
    if (target.size_class == d) && (target.slot_index == length (slots_of d r.page_files))
    then suc (length (slots_of d r.page_files))
    else length (slots_of d r.page_files)

module _ (hash : List ℕ → ℕ) where
  pub record IsChosen (existing : Option SlotLocation) (size_class : ℕ) (r : FilesRepoInner)
      (target : SlotLocation) (classes : Classes) : Type 0 where
    pub size : target.size_class ≡ size_class
    pub fits : target.slot_index ≤ length (slots_of target.size_class r.page_files)
    pub empty : (stands hash r target ≡ none) ⊎ (existing ≡ some target)
    pub counted : (d : ℕ) → grown r target d ≡ (state_of d classes).slot_count
    pub taken :
        (l : SlotLocation)
        → contains l.slot_index (state_of l.size_class classes).free
          ≡ (is_free r l && not (location_same target l))
    pub once : (d : ℕ) → Unique (state_of d classes).free
    pub distinct : Distinct classes

  stands-beyond :
      (r : FilesRepoInner) (l : SlotLocation)
      → length (slots_of l.size_class r.page_files) ≤ l.slot_index
      → stands hash r l ≡ none
  stands-beyond r l h = elim (Option-cases (stands hash r l)) [
    | inl e ↦ e
    | inr (slot, e) ↦
        absurd
          (omega (arith, occupant_in-lt hash (slots_of l.size_class r.page_files) l.slot_index e))
  ]

  module _ (existing : Option SlotLocation) (c : ℕ) (r : FilesRepoInner)
      (h : IsConsistent hash no_stale r) where
    -- A free slot, the last of the list.
    allocate_free :
        (i : ℕ) (rest : List ℕ)
        → pop (state_of c r.classes).free ≡ some (i, rest)
        → IsChosen existing c r (allocate_slot c r.classes).0 (allocate_slot c r.classes).1
    unfolding allocate_slot
    allocate_free i rest e =
        let target : SlotLocation = record { size_class = c; slot_index = i } in
        let state' = state_of-insert c in
        let spot =
          h.vacant target
            (ground (arith, contains-pop (state_of c r.classes).free i rest i e, ==_iff i i)) in
        rw (allocate_slot, e)
          (record {
            size = refl;
            distinct =
                insert-Distinct c (record (state_of c r.classes) { free = rest }) r.classes
                  h.distinct_classes;
            fits = omega (arith, h.counted c, spot.1);
            empty = inl spot.0;
            counted = λ d. ground (
              arith,
              state' d (record (state_of c r.classes) { free = rest }) r.classes,
              h.counted c,
              h.counted d,
              spot.1,
              ==_iff c d,
            );
            taken = λ l. ground (
              arith,
              state' l.size_class (record (state_of c r.classes) { free = rest }) r.classes,
              ==_iff c l.size_class,
              ==_iff i l.slot_index,
              contains-pop (state_of c r.classes).free i rest l.slot_index e,
              (Unique-pop (state_of c r.classes).free i rest e (h.once c)).0,
            );
            once = λ d. elim (Bool-cases (c == d)) [
              | inl same ↦
                  rw (state' d (record (state_of c r.classes) { free = rest }) r.classes, same)
                    (Unique-pop (state_of c r.classes).free i rest e (h.once c)).1
              | inr different ↦
                  rw (state' d (record (state_of c r.classes) { free = rest }) r.classes, different)
                    (h.once d)
            ];
          })

    allocate_new :
        pop (state_of c r.classes).free ≡ none
        → IsChosen existing c r (allocate_slot c r.classes).0 (allocate_slot c r.classes).1
    unfolding allocate_slot
    allocate_new e =
        let n = (state_of c r.classes).slot_count in
        let target : SlotLocation = record { size_class = c; slot_index = n } in
        let longer : ClassState = record (state_of c r.classes) { slot_count = n + 1 } in
        let state' = λ (d : ℕ). state_of-insert c d longer r.classes in
        rw (allocate_slot, e)
          (record {
            size = refl;
            distinct = insert-Distinct c longer r.classes h.distinct_classes;
            fits = omega (arith, h.counted c);
            empty = inl (stands-beyond r target (omega (arith, h.counted c)));
            counted = λ d. ground (arith, state' d, h.counted c, h.counted d, ==_iff c d);
            taken = λ l. ground (
              arith,
              state' l.size_class,
              h.vacant l,
              ==_iff c l.size_class,
              ==_iff n l.slot_index,
            );
            once = λ d. elim (Bool-cases (c == d)) [
              | inl same ↦ rw (state' d, same) (h.once c)
              | inr different ↦ rw (state' d, different) (h.once d)
            ];
          })

    in_place :
        (location : SlotLocation)
        → location.size_class ≡ c
        → existing ≡ some location
        → ((slot : _) × (stands hash r location ≡ some slot))
        → IsChosen existing c r location r.classes
    in_place location same here (slot, there) = record {
      size = same;
      fits = omega (
        arith,
        occupant_in-lt hash (slots_of location.size_class r.page_files) location.slot_index there,
      );
      empty = inr here;
      counted = λ d. ground (
        arith,
        h.counted d,
        ==_iff location.size_class d,
        occupant_in-lt hash (slots_of location.size_class r.page_files) location.slot_index there,
      );
      taken = λ l. ground (arith, h.vacant l, location_same_iff location l);
      once = h.once;
      distinct = h.distinct_classes;
    }

    allocate_slot-IsChosen :
        IsChosen existing c r (allocate_slot c r.classes).0 (allocate_slot c r.classes).1
    allocate_slot-IsChosen = elim (Option-cases (pop (state_of c r.classes).free)) [
      | inl e ↦ allocate_new e
      | inr ((i, rest), e) ↦ allocate_free i rest e
    ]

  pub choose_slot-IsChosen :
      (key : Text × Text) (c : ℕ) (r : FilesRepoInner)
      → IsConsistent hash no_stale r
      → IsChosen
          (lookup key r.index)
          c
          r
          (choose_slot (lookup key r.index) c r.classes).0
          (choose_slot (lookup key r.index) c r.classes).1
  unfolding choose_slot
  choose_slot-IsChosen key c r h = elim (Option-cases (lookup key r.index)) [
    | inl e ↦ rw (choose_slot, e) (allocate_slot-IsChosen none c r h)
    | inr (location, e) ↦ elim (Bool-cases (location.size_class == c)) [
      | inl same ↦
          let (slot, there, _) = (h.indexed key location e).1 in
          rw (choose_slot, e, same)
            (in_place (some location) c r h location ((==_iff location.size_class c).0 same) refl
              (slot, there))
      | inr other ↦ rw (choose_slot, e, other) (allocate_slot-IsChosen (some location) c r h)
    ]
  ]
