-- ===== src/Persist/Files/Vacuum/Compact.antt =====
-- The compaction of a file keeps what is kept.
use my_no_sql_server_grpc.Base.{
  ℕ, ◌-◌, ◌≡◌, ◌≤◌, ◌<◌, refl, sym, ap, ◌∙◌, arith, Bool, true, false, not, ◌⊎◌, inl, inr, List, [],
  none, some, ltb, ◌==◌, ==_iff, if◌then◌else◌, length, take, length-take, Text, nat_eq, pair_eq,
  Bool-cases, Option-cases,
}
use my_no_sql_server_grpc.Base.Assoc.{lookup, insert, Distinct, insert-Distinct, lookup-insert}
use my_no_sql_server_grpc.Base.Outcome.{returns}
use my_no_sql_server_grpc.Persist.Slot.{OccupiedSlot}
use my_no_sql_server_grpc.Persist.Files.{
  SlotLocation, ClassState, FilesRepoInner, slots_of, state_of,
}
use my_no_sql_server_grpc.Persist.Files.FreeList.{contains, Unique}
use my_no_sql_server_grpc.Persist.Files.Slots.{
  slots_of-insert, state_of-insert, occupant_in, occupant_in-lt,
}
use my_no_sql_server_grpc.Persist.Files.Consistent.{key_of, stands, saved, IsConsistent}
use my_no_sql_server_grpc.Persist.Files.Choose.{no_stale}
use my_no_sql_server_grpc.Persist.Files.Put.{one_key}
use my_no_sql_server_grpc.Persist.Files.Open.{IsFolder}
use my_no_sql_server_grpc.Persist.Files.Intact.{All-lookup, All-insert}
use my_no_sql_server_grpc.Persist.Files.Vacuum.{
  head_frees, tail_lives, copy_slots, repoint, compact_slots, compact_class,
}
use my_no_sql_server_grpc.Persist.Files.Vacuum.Count.{below, below-beyond, below-both, below-all}
use my_no_sql_server_grpc.Persist.Files.Vacuum.Pairs.{
  Lives, moved, target, target-moved, moved-target, target-none, moved-none, lookup-repoint,
  repoint-Distinct,
}
use my_no_sql_server_grpc.Persist.Files.Vacuum.Copy.{
  is_clean-take, is_clean-copy_slots, Tail-lookup, Head-contains, occupant_in-take, after_copy,
  copy_slots-copied,
}
use my_no_sql_server_grpc.Persist.Files.Vacuum.Places.{
  places, at, contains-places, places-contains, places-Unique, length-tail_lives, length-head_frees,
  contains-head_frees, head_frees-Unique, lookup-tail_lives, tail_lives-Distinct,
}

module _ (hash : List ℕ → ℕ) where
  module _ (c : ℕ) (r : FilesRepoInner) (h : IsConsistent hash no_stale r) (state : ClassState)
      (known : lookup c r.classes ≡ some state) (slots : List (List ℕ))
      (found : lookup c r.page_files ≡ some slots) where
    abbrev live : ℕ
    live = state.slot_count - length state.free

    abbrev frees : List ℕ
    frees = head_frees live state.free

    abbrev lives : Lives
    lives = tail_lives c live r.index

    size : length slots ≡ state.slot_count
    size = ground (arith, h.counted c)

    once : Unique state.free
    once = ground (arith, h.once c)

    -- A slot is live or free.
    split :
        (i : ℕ) → i < state.slot_count → contains i (places c r.index) ≡ not (contains i state.free)
    split i below = elim (Bool-cases (contains i state.free)) [
      | inl free ↦ elim (Bool-cases (contains i (places c r.index))) [
        | inl both ↦
            let (k, e) = contains-places c i r.index h.distinct both in
            let (slot, at', _) = (h.indexed k (at c i) e).1 in
            absurd (ground (arith, h.vacant (at c i)))
        | inr only ↦ ground arith
      ]
      | inr taken ↦
          let (slot, at') = h.occupied (at c i) (ground arith) (ground arith) in
          let own : lookup (key_of slot) r.index ≡ some (at c i) =
            ground (arith, h.listed (at c i) slot at') in
          ground (arith, places-contains c i (key_of slot) r.index own)
    ]

    free-lt : (i : ℕ) → contains i state.free ≡ true → i < state.slot_count
    free-lt i e = ground (arith, h.vacant (at c i))

    place-lt : (i : ℕ) → contains i (places c r.index) ≡ true → i < state.slot_count
    place-lt i e =
        let (k, found') = contains-places c i r.index h.distinct e in
        let (slot, at', _) = (h.indexed k (at c i) found').1 in
        ground (arith, size, occupant_in-lt hash (slots_of c r.page_files) i at')

    Unique-places : Unique (places c r.index)
    Unique-places = places-Unique c r.index h.distinct (one_key hash r h)

    -- As many slots are moved as there are free places for them.
    paired : length lives ≡ length frees
    paired = omega (
      arith,
      length-tail_lives c live r.index,
      length-head_frees live state.free,
      below-both state.slot_count (places c r.index) state.free Unique-places once split,
      below-all state.slot_count (places c r.index) place-lt,
      below-all state.slot_count state.free free-lt,
      below-both live (places c r.index) state.free Unique-places once
          (λ i b. split i (omega arith)),
      below-beyond live (places c r.index),
    )

    -- A slot that is moved was one of the class, at or beyond the new end.
    lives-lookup :
        (k : Text × Text) (f : ℕ)
        → lookup k lives ≡ some f
        → (lookup k r.index ≡ some (at c f)) × ((live ≤ f) × (f < length slots))
    lives-lookup k f e = elim (Option-cases (lookup k r.index)) [
      | inl nobody ↦ absurd (ground (arith, lookup-tail_lives c live r.index k h.distinct))
      | inr (l, there) ↦
          let here : l ≡ at c f =
            ground (arith, lookup-tail_lives c live r.index k h.distinct, ==_iff l.size_class c) in
          let own : lookup k r.index ≡ some (at c f) = there ∙ ap some here in
          (
            own,
            (
              ground (arith, lookup-tail_lives c live r.index k h.distinct),
              ground (arith, size, place-lt f (places-contains c f k r.index own)),
            ),
          )
    ]

    free-head : (i : ℕ) → contains i frees ≡ true → i < live
    free-head i e = ground (arith, contains-head_frees live i state.free)

    copied :
        (bytes : List (List ℕ)) × (copy_slots c lives frees slots ≡ returns bytes)
        × (length bytes ≡ length slots)
        × ((i : ℕ) → i < live → occupant_in hash bytes i ≡ after_copy hash lives frees slots i)
        × ((i : ℕ) → live ≤ i → occupant_in hash bytes i ≡ occupant_in hash slots i)
    copied =
        copy_slots-copied hash c live lives frees slots
          (Tail-lookup live (length slots) lives (tail_lives-Distinct c live r.index h.distinct)
            (λ k f e. (lives-lookup k f e).1))
          (Head-contains live frees free-head) (omega (arith, size))
          (head_frees-Unique live state.free once)

    module _ (bytes : List (List ℕ)) (long : length bytes ≡ length slots)
        (low : (i : ℕ)
          → i < live
          → occupant_in hash bytes i ≡ after_copy hash lives frees slots i) where
      abbrev packed : FilesRepoInner
      packed = record r {
        page_files = insert c (take live bytes) r.page_files;
        index = repoint c lives frees r.index;
        classes = insert c (record { slot_count = live; free = [] }) r.classes;
      }

      -- What stands in the class afterwards, and in the others.
      stands-packed :
          (i : ℕ)
          → stands hash packed (at c i)
            ≡ (if ltb i live then after_copy hash lives frees slots i else none)
      stands-packed i =
          let here : slots_of c packed.page_files ≡ take live bytes =
            ground (arith, slots_of-insert c c (take live bytes) r.page_files, ==_iff c c) in
          ap (λ (s : List (List ℕ)). occupant_in hash s i) here
          ∙ (occupant_in-take hash live i bytes ∙ ground (arith, low i))

      stands-others :
          (l : SlotLocation) → (c == l.size_class) ≡ false → stands hash packed l ≡ stands hash r l
      stands-others l other =
          ap (λ (s : List (List ℕ)). occupant_in hash s l.slot_index)
            (slots_of-insert c l.size_class (take live bytes) r.page_files ∙ rw other refl)

      -- Where a slot that is not moved stands, it stays.
      index-packed :
          (k : Text × Text)
          → lookup k packed.index
            ≡ elim (target lives frees k) [ none ↦ lookup k r.index | some i ↦ some (at c i) ]
      index-packed k =
          lookup-repoint c lives frees r.index k (tail_lives-Distinct c live r.index h.distinct)

      stood : (i : ℕ) → stands hash r (at c i) ≡ occupant_in hash slots i
      stood i = ground arith

      Distinct-lives : Distinct lives
      Distinct-lives = tail_lives-Distinct c live r.index h.distinct

      -- What a place that takes a slot shows.
      arrives :
          (i f : ℕ)
          → moved lives frees i ≡ some f
          → (k : Text × Text) × (target lives frees k ≡ some i)
            × (lookup k r.index ≡ some (at c f))
            × (i < live)
            × (contains i state.free ≡ true)
      arrives i f comes =
          let (k, mine, goes) = moved-target lives frees i f Distinct-lives comes in
          let (_, _, _, inside) =
            target-moved lives frees k i Distinct-lives (head_frees-Unique live state.free once)
              goes in
          (
            k,
            goes,
            (lives-lookup k f mine).0,
            free-head i inside,
            ground (arith, contains-head_frees live i state.free),
          )

      -- A slot below the new end stays.
      stays-packed :
          (i : ℕ) (slot : OccupiedSlot)
          → stands hash r (at c i) ≡ some slot
          → i < live
          → stands hash packed (at c i) ≡ some slot
      stays-packed i slot there small = elim (Option-cases (moved lives frees i)) [
        | inl quiet ↦ ground (arith, stands-packed i, stood i)
        | inr (f, comes) ↦ absurd (ground (arith, arrives i f comes, h.vacant (at c i)))
      ]

      -- A key of a slot of the class goes with the tail, or lies below the new end.
      unmoved-lt :
          (k : Text × Text) (i : ℕ)
          → target lives frees k ≡ none
          → lookup k r.index ≡ some (at c i)
          → i < live
      unmoved-lt k i stays own = ground (
        arith,
        target-none lives frees k paired,
        lookup-tail_lives c live r.index k h.distinct,
        ==_iff c c,
      )

      unmoved :
          (k : Text × Text) (l : SlotLocation)
          → lookup k r.index ≡ some l
          → ((c == l.size_class) ≡ false) ⊎ (l.slot_index < live)
          → target lives frees k ≡ none
      unmoved k l own where_it_is = elim (Option-cases (target lives frees k)) [
        | inl stays ↦ stays
        | inr (i, goes) ↦
            let (f, mine, _, _) =
              target-moved lives frees k i Distinct-lives (head_frees-Unique live state.free once)
                goes in
            let tail = lives-lookup k f mine in absurd (ground (arith, tail, ==_iff c c))
      ]

      -- An entry of the index after the moves leads to what it led to before.
      follows :
          (k : Text × Text) (l : SlotLocation)
          → lookup k packed.index ≡ some l
          → (old : SlotLocation) × (lookup k r.index ≡ some old)
            × (stands hash packed l ≡ stands hash r old)
      follows k l e = elim (Option-cases (target lives frees k)) [
        | inr (i, goes) ↦
            let (f, mine, comes, inside) =
              target-moved lives frees k i Distinct-lives (head_frees-Unique live state.free once)
                goes in
            let there : at c i ≡ l = ground (arith, index-packed k) in
            let small = free-head i inside in
            (
              at c f,
              (lives-lookup k f mine).0,
              ap (stands hash packed) (sym there) ∙ (stands-packed i ∙ ground (arith, stood f)),
            )
        | inl stays ↦
            let old : lookup k r.index ≡ some l = ground (arith, index-packed k) in
            (
              l,
              old,
              elim (Bool-cases (c == l.size_class)) [
                | inl same ↦
                    let here : at c l.slot_index ≡ l = ground (arith, ==_iff c l.size_class) in
                    let (slot, there, _) = (h.indexed k l old).1 in
                    let there' : stands hash r (at c l.slot_index) ≡ some slot =
                      ap (stands hash r) here ∙ there in
                    let small = unmoved-lt k l.slot_index stays (old ∙ ap some (sym here)) in
                    ap (stands hash packed) (sym here)
                    ∙ (stays-packed l.slot_index slot there' small ∙ sym there)
                | inr other ↦ stands-others l other
              ],
            )
      ]

      listed-packed :
          (l : SlotLocation) (slot : OccupiedSlot)
          → stands hash packed l ≡ some slot
          → lookup (key_of slot) packed.index ≡ some l
      listed-packed l slot e = elim (Bool-cases (c == l.size_class)) [
        | inr other ↦
            let there : stands hash r l ≡ some slot = sym (stands-others l other) ∙ e in
            let own : lookup (key_of slot) r.index ≡ some l =
              ground (arith, h.listed l slot there) in
            index-packed (key_of slot) ∙ rw (unmoved (key_of slot) l own (inl other)) own
        | inl same ↦
            let i = l.slot_index in
            let here : at c i ≡ l = ground (arith, ==_iff c l.size_class) in
            let e' : stands hash packed (at c i) ≡ some slot = ap (stands hash packed) here ∙ e in
            let small : i < live = ground (arith, stands-packed i) in
            elim (Option-cases (moved lives frees i)) [
              | inl quiet ↦
                  let there : stands hash r (at c i) ≡ some slot =
                    ground (arith, stands-packed i, stood i) in
                  let own : lookup (key_of slot) r.index ≡ some (at c i) =
                    ground (arith, h.listed (at c i) slot there) in
                  index-packed (key_of slot)
                  ∙ rw (unmoved (key_of slot) (at c i) own (inr small)) (own ∙ ap some here)
              | inr (f, comes) ↦
                  let (k, goes, own, _, _) = arrives i f comes in
                  let (s, there, name) = (h.indexed k (at c f) own).1 in
                  let it : s ≡ slot = ground (arith, stands-packed i, stood f) in
                  let name' : k ≡ key_of slot = sym name ∙ ap key_of it in
                  ap (λ (j : Text × Text). lookup j packed.index) (sym name')
                  ∙ (index-packed k ∙ rw goes (ap some here))
            ]
      ]

      state-packed :
          (d : ℕ)
          → state_of d packed.classes
            ≡ (if c == d then record { slot_count = live; free = [] } else state_of d r.classes)
      state-packed d = state_of-insert c d (record { slot_count = live; free = [] }) r.classes

      occupied-packed :
          (i : ℕ) → i < live → (slot : OccupiedSlot) × (stands hash packed (at c i) ≡ some slot)
      occupied-packed i small = elim (Option-cases (moved lives frees i)) [
        | inl quiet ↦
            let taken : contains i state.free ≡ false =
              ground
                (arith, moved-none lives frees i paired, contains-head_frees live i state.free) in
            let (slot, there) = h.occupied (at c i) (ground arith) (ground arith) in
            (slot, stays-packed i slot there small)
        | inr (f, comes) ↦
            let (k, goes, own, _, _) = arrives i f comes in
            let (slot, there, _) = (h.indexed k (at c f) own).1 in
            (slot, ground (arith, stands-packed i, stood f))
      ]

      place-packed : (l : SlotLocation) → (c == l.size_class) ≡ true → at c l.slot_index ≡ l
      place-packed l same = ground (arith, ==_iff c l.size_class)

      packed-IsConsistent : IsConsistent hash no_stale packed
      packed-IsConsistent = record {
        distinct = repoint-Distinct c lives frees r.index h.distinct;
        distinct_classes =
            insert-Distinct c (record { slot_count = live; free = [] }) r.classes
              h.distinct_classes;
        indexed = λ k l e.
            let (old, own, same) = follows k l e in
            let (slot, there, name) = (h.indexed k old own).1 in (refl, (slot, same ∙ there, name));
        listed = λ l slot e. inl (listed-packed l slot e);
        versions = λ l slot e.
            let (old, own, same) = follows (key_of slot) l (listed-packed l slot e) in
            h.versions old slot (sym same ∙ e);
        counted = λ d. ground (
          arith,
          slots_of-insert c d (take live bytes) r.page_files,
          state-packed d,
          length-take live bytes,
          h.counted d,
          size,
          long,
        );
        vacant = λ l e. elim (Bool-cases (c == l.size_class)) [
          | inl same ↦ absurd (ground (arith, state-packed l.size_class))
          | inr other ↦ ground (arith, state-packed l.size_class, stands-others l other, h.vacant l)
        ];
        occupied = λ l small e. elim (Bool-cases (c == l.size_class)) [
          | inl same ↦
              let (slot, there) =
                occupied-packed l.slot_index (ground (arith, state-packed l.size_class)) in
              (slot, ap (stands hash packed) (sym (place-packed l same)) ∙ there)
          | inr other ↦
              let (slot, there) =
                h.occupied l (ground (arith, state-packed l.size_class))
                  (ground (arith, state-packed l.size_class)) in
              (slot, stands-others l other ∙ there)
        ];
        once = λ d. elim (Bool-cases (c == d)) [
          | inl same ↦ rw (state-packed d, same) tt
          | inr other ↦ rw (state-packed d, other) (h.once d)
        ];
      }

      saved-packed : (k : Text × Text) → saved hash packed k ≡ saved hash r k
      saved-packed k = elim (Option-cases (lookup k packed.index)) [
        | inl nobody ↦ elim (Option-cases (target lives frees k)) [
          | inl stays ↦ ground (arith, index-packed k)
          | inr (i, goes) ↦ absurd (ground (arith, index-packed k))
        ]
        | inr (l, e) ↦ let (old, own, same) = follows k l e in ground arith
      ]

      packed-IsFolder :
          copy_slots c lives frees slots ≡ returns bytes
          → (skip : Bool) → IsFolder hash skip r.page_files
          → IsFolder hash skip packed.page_files
      packed-IsFolder copies skip f =
          let old = All-lookup hash skip c r.page_files slots f.page_files found in
          record {
            distinct = insert-Distinct c (take live bytes) r.page_files f.distinct;
            page_files = All-insert hash skip c r.page_files (take live bytes) f.page_files (
              old.0,
              elim (Bool-cases skip) [
                | inl tolerant ↦ ground arith
                | inr strict ↦
                    let clean =
                      is_clean-copy_slots hash c live lives frees slots {bytes = bytes}
                        (Head-contains live frees free-head) (omega (arith, size)) copies
                        (ground (arith, old.1)) in
                    ground (arith, is_clean-take hash live bytes clean)
              ],
            );
          }

  -- The compaction of a class that is there goes through: the slots to move and the free places below the new end are as many, the
  -- bookkeeping says what is on disk as before, and every key keeps its payload.
  pub compact_class-kept :
      (c : ℕ) (r : FilesRepoInner) (state : ClassState)
      → IsConsistent hash no_stale r
      → lookup c r.classes ≡ some state
      → 0 < state.slot_count
      → (r' : FilesRepoInner) × (compact_class c r ≡ returns r')
        × IsConsistent hash no_stale r'
        × ((k : Text × Text) → saved hash r' k ≡ saved hash r k)
        × ((d : ℕ) → (c == d) ≡ false → lookup d r'.classes ≡ lookup d r.classes)
        × (r'.next_version ≡ r.next_version)
        × ((skip : Bool) → IsFolder hash skip r.page_files → IsFolder hash skip r'.page_files)
  unfolding compact_class compact_slots
  compact_class-kept c r state h known some_slots = elim (Option-cases (lookup c r.page_files)) [
    | inl nothing ↦ absurd (ground (arith, h.counted c))
    | inr (slots, found) ↦
        let (bytes, copies, long, low, _) = copied c r h state known slots found in
        let even : (length (lives c r h state known slots found)
              == length (frees c r h state known slots found))
            ≡ true =
          (==_iff _ _).1 (paired c r h state known slots found) in
        (
          packed c r h state known slots found bytes long low,
          rw (compact_class, compact_slots, known, found, even, copies) refl,
          packed-IsConsistent c r h state known slots found bytes long low,
          saved-packed c r h state known slots found bytes long low,
          λ d other. lookup-insert c d _ r.classes ∙ rw other refl,
          refl,
          packed-IsFolder c r h state known slots found bytes long low copies,
        )
  ]
