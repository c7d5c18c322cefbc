-- ===== src/Persist/Files/Consistent.antt =====
-- When the bookkeeping in memory says what is on disk, and that the release of a slot keeps it so.
use my_no_sql_server_grpc.Base.{
  ℕ, ◌≡◌, ◌<◌, refl, arith, Bool, true, false, not, ◌&&◌, ◌||◌, ap, ◌⊎◌, inl, inr, List, [], ◌∷◌,
  ◌++◌, Option, none, some, ◌==◌, ==_iff, if◌then◌else◌, length, Text, nat_eq, pair_eq,
  Option-cases, Bool-cases,
}
use mathlib.Core.Path.{subst, fun_ext}
use my_no_sql_server_grpc.Base.Assoc.{lookup, insert, Distinct, insert-Distinct}
use my_no_sql_server_grpc.Base.Outcome.{returns}
use my_no_sql_server_grpc.Persist.Slot.{OccupiedSlot}
use my_no_sql_server_grpc.Persist.Files.{
  SlotLocation, ClassState, location_same, location_same_iff, FilesRepoInner, slots_of, state_of,
  zero_at, zero_slot, push_free, free_slot,
}
use my_no_sql_server_grpc.Persist.Files.FreeList.{contains, contains-append, Unique, Unique-push}
use my_no_sql_server_grpc.Persist.Files.Slots.{
  slots_of-insert, state_of-insert, length-zero_at, occupant, occupant_in-lt, occupant-zero_slot,
}

abbrev pub key_of : OccupiedSlot → Text × Text
key_of slot = (slot.table_name, slot.partition_key)

abbrev pub is_free : FilesRepoInner → SlotLocation → Bool
is_free r location = contains location.slot_index (state_of location.size_class r.classes).free

module _ (hash : List ℕ → ℕ) where
  abbrev pub stands : FilesRepoInner → SlotLocation → Option OccupiedSlot
  stands r location = occupant hash r.page_files location

  -- What the repository keeps for a partition: the payload of the slot that the index names.
  abbrev pub saved : FilesRepoInner → Text × Text → Option (List ℕ)
  saved r key = elim (lookup key r.index) [
    | none ↦ none
    | some location ↦ elim (stands r location) [ none ↦ none | some slot ↦ some slot.payload ]
  ]

  -- `stale` says which slots are occupied and about to be released; between two calls there are none.
  pub record IsConsistent (stale : SlotLocation → Bool) (r : FilesRepoInner) : Type 0 where
    pub distinct : Distinct r.index
    pub distinct_classes : Distinct r.classes
    -- An entry of the index leads to a slot with its key.
    pub indexed :
        (key : Text × Text) (l : SlotLocation)
        → lookup key r.index ≡ some l
        → (stale l ≡ false)
          × ((slot : OccupiedSlot) × (stands r l ≡ some slot) × (key_of slot ≡ key))
    -- Every occupied slot is the one of its key.
    pub listed :
        (l : SlotLocation) (slot : OccupiedSlot)
        → stands r l ≡ some slot
        → (lookup (key_of slot) r.index ≡ some l) ⊎ (stale l ≡ true)
    pub versions :
        (l : SlotLocation) (slot : OccupiedSlot)
        → stands r l ≡ some slot
        → slot.version < r.next_version
    pub counted : (c : ℕ) → length (slots_of c r.page_files) ≡ (state_of c r.classes).slot_count
    -- The free slots and the occupied ones are the slots of the files, and no slot is both.
    pub vacant :
        (l : SlotLocation)
        → is_free r l ≡ true
        → (stands r l ≡ none) × (l.slot_index < (state_of l.size_class r.classes).slot_count)
    pub occupied :
        (l : SlotLocation)
        → l.slot_index < (state_of l.size_class r.classes).slot_count
        → is_free r l ≡ false
        → (slot : OccupiedSlot) × (stands r l ≡ some slot)
    pub once : (c : ℕ) → Unique (state_of c r.classes).free

  -- The repository once `location` is released.
  pub record IsFreed (stale : SlotLocation → Bool) (location : SlotLocation) (r r' : FilesRepoInner)
      : Type 0 where
    pub consistent : IsConsistent (λ l. stale l && not (location_same location l)) r'
    pub same_index : r'.index ≡ r.index
    pub same_version : r'.next_version ≡ r.next_version
    pub stood :
        (l : SlotLocation) → stands r' l ≡ (if location_same location l then none else stands r l)

  module _ (stale : SlotLocation → Bool) (location : SlotLocation) (r : FilesRepoInner)
      {slot : OccupiedSlot} (h : IsConsistent stale r) (there : stands r location ≡ some slot) where
    abbrev c : ℕ
    c = location.size_class

    file_exists : (slots : List (List ℕ)) × (lookup c r.page_files ≡ some slots)
    file_exists = elim (Option-cases (lookup c r.page_files)) [
      | inl e ↦
          absurd (
            ground (arith, occupant_in-lt hash (slots_of c r.page_files) location.slot_index there))
      | inr found ↦ found
    ]

    class_exists : (state : ClassState) × (lookup c r.classes ≡ some state)
    class_exists = elim (Option-cases (lookup c r.classes)) [
      | inl e ↦ absurd (
          ground (
            arith,
            h.counted c,
            occupant_in-lt hash (slots_of c r.page_files) location.slot_index there,
          ))
      | inr found ↦ found
    ]

    module _ (slots : List (List ℕ)) (found : lookup c r.page_files ≡ some slots)
        (state : ClassState) (known : lookup c r.classes ≡ some state) where
      abbrev freed : FilesRepoInner
      freed = record r {
        page_files = insert c (zero_at location.slot_index slots) r.page_files;
        classes =
            insert c (record state { free = state.free ++ (location.slot_index ∷ []) }) r.classes;
      }

      free_slot-freed : free_slot location r ≡ returns freed
      unfolding free_slot zero_slot push_free
      free_slot-freed = rw (free_slot, zero_slot, push_free, found, known) refl

      state-freed :
          (d : ℕ)
          → state_of d freed.classes ≡ (
              if c == d
              then record state { free = state.free ++ (location.slot_index ∷ []) }
              else state_of d r.classes)
      state-freed d = state_of-insert c d _ r.classes

      stood-freed :
          (l : SlotLocation)
          → stands freed l ≡ (if location_same location l then none else stands r l)
      stood-freed l = occupant-zero_slot hash location l r.page_files slots found

      count-freed :
          (d : ℕ) → (state_of d freed.classes).slot_count ≡ (state_of d r.classes).slot_count
      count-freed d = ground (arith, state-freed d, ==_iff c d)

      is_free-freed :
          (l : SlotLocation) → is_free freed l ≡ (is_free r l || location_same location l)
      is_free-freed l = ground (
        arith,
        state-freed l.size_class,
        ==_iff c l.size_class,
        contains-append l.slot_index state.free (location.slot_index ∷ []),
      )

      in_use : is_free r location ≡ false
      in_use = ground (arith, h.vacant location)

      once-freed : (d : ℕ) → Unique (state_of d freed.classes).free
      once-freed d = elim (Bool-cases (c == d)) [
        | inl same ↦
            rw (state-freed d, same)
              (Unique-push state.free location.slot_index (ground (arith, h.once c))
                (ground (arith, in_use)))
        | inr different ↦ rw (state-freed d, different) (h.once d)
      ]

      freed-IsFreed : stale location ≡ true → IsFreed stale location r freed
      freed-IsFreed old = record {
        consistent = record {
          distinct = h.distinct;
          distinct_classes =
              insert-Distinct c (record state { free = state.free ++ (location.slot_index ∷ []) })
                r.classes h.distinct_classes;
          indexed = λ key l e.
              ground (arith, h.indexed key l e, stood-freed l, location_same_iff location l);
          listed = λ l s e. ground (arith, h.listed l s, stood-freed l);
          versions = λ l s e. ground (arith, h.versions l s, stood-freed l);
          counted = λ d. ground (
            arith,
            h.counted d,
            count-freed d,
            slots_of-insert c d (zero_at location.slot_index slots) r.page_files,
            length-zero_at location.slot_index slots,
            ==_iff c d,
          );
          vacant = λ l e. elim (Bool-cases (location_same location l)) [
            | inl same ↦
                let eq : location ≡ l = (location_same_iff location l).0 same in
                let small =
                  occupant_in-lt hash (slots_of c r.page_files) location.slot_index there in
                (
                  ground (arith, stood-freed l),
                  subst
                      (λ (k : SlotLocation).
                        k.slot_index < (state_of k.size_class freed.classes).slot_count)
                      eq (ground (arith, h.counted c, count-freed c)),
                )
            | inr other ↦
                ground (arith, is_free-freed l, stood-freed l, count-freed l.size_class, h.vacant l)
          ];
          occupied = λ l below e.
              let (standing, at) =
                h.occupied l (omega (arith, count-freed l.size_class))
                  (ground (arith, is_free-freed l)) in
              (standing, ground (arith, stood-freed l, is_free-freed l));
          once = once-freed;
        };
        same_index = refl;
        same_version = refl;
        stood = stood-freed;
      }

  -- The release of a stale slot goes through, and what stood in it is gone; all else is as before.
  pub free_slot-IsFreed :
      (stale : SlotLocation → Bool) (location : SlotLocation) (r : FilesRepoInner)
      {slot : OccupiedSlot}
      → IsConsistent stale r
      → stands r location ≡ some slot
      → stale location ≡ true
      → (r' : FilesRepoInner) × (free_slot location r ≡ returns r') × IsFreed stale location r r'
  free_slot-IsFreed stale location r h there old =
      let (slots, found) = file_exists stale location r h there in
      let (state, known) = class_exists stale location r h there in
      (
        freed stale location r h there slots found state known,
        free_slot-freed stale location r h there slots found state known,
        freed-IsFreed stale location r h there slots found state known old,
      )

  -- What is kept under a key depends on its entry of the index and the slot there.
  pub saved_same :
      (r r' : FilesRepoInner) (key : Text × Text)
      → lookup key r'.index ≡ lookup key r.index
      → ((l : SlotLocation) → lookup key r.index ≡ some l → stands r' l ≡ stands r l)
      → saved r' key ≡ saved r key
  saved_same r r' key entry slots = elim (Option-cases (lookup key r.index)) [
    | inl e ↦ ground arith
    | inr (l, e) ↦ ground (arith, slots l e)
  ]

  pub saved-some :
      (r : FilesRepoInner) (key : Text × Text) (l : SlotLocation) (slot : OccupiedSlot)
      → lookup key r.index ≡ some l
      → stands r l ≡ some slot
      → saved r key ≡ some slot.payload
  saved-some r key l slot entry at = ground arith

  pub saved-freed :
      (stale : SlotLocation → Bool) (location : SlotLocation) (r r' : FilesRepoInner)
      → IsConsistent stale r
      → stale location ≡ true
      → IsFreed stale location r r'
      → (key : Text × Text) → saved r' key ≡ saved r key
  saved-freed stale location r r' h old done key =
      saved_same r r' key (ap (lookup key) done.same_index)
        (λ l e. ground (arith, done.stood l, (h.indexed key l e).0, location_same_iff location l))

  pub IsConsistent-same :
      (stale stale' : SlotLocation → Bool) (r : FilesRepoInner)
      → ((l : SlotLocation) → stale l ≡ stale' l)
      → IsConsistent stale r
      → IsConsistent stale' r
  IsConsistent-same stale stale' r same h =
      subst (λ (s : SlotLocation → Bool). IsConsistent s r) (fun_ext same) h
