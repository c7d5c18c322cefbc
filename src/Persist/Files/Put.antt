-- ===== src/Persist/Files/Put.antt =====
-- The repository once a slot is written to its place, and before the partition's old slot is released.
use my_no_sql_server_grpc.Base.{
  ℕ, ◌+◌, ◌≡◌, refl, arith, Bool, true, false, not, ◌&&◌, ◌⊎◌, inl, inr, List, Option, none, some,
  sym, ap, ◌∙◌, ==_iff, if◌then◌else◌, length, Text, nat_eq, pair_eq, pair_same, pair_same_iff,
  Option-cases, Bool-cases,
}
use my_no_sql_server_grpc.Base.Assoc.{lookup, insert, insert-Distinct, lookup-insert}
use my_no_sql_server_grpc.Persist.Slot.{OccupiedSlot}
use my_no_sql_server_grpc.Persist.Files.{
  SlotLocation, Classes, location_same, location_same_iff, FilesRepoInner, slots_of, write_slot,
  write_at,
}
use my_no_sql_server_grpc.Persist.Files.Slots.{
  slots_of-insert, length-write_at, content, occupant-write_slot,
}
use my_no_sql_server_grpc.Persist.Files.Consistent.{
  key_of, stands, saved, IsConsistent, saved_same, saved-some,
}
use my_no_sql_server_grpc.Persist.Files.Choose.{no_stale, grown, IsChosen}

module _ (hash : List ℕ → ℕ) where
  -- The slot that a partition has moved out of.
  abbrev pub left : Option SlotLocation → SlotLocation → SlotLocation → Bool
  left none target l = false
  left (some old) target l = location_same old l && not (location_same old target)

  -- A slot is the slot of one key.
  pub one_key :
      (r : FilesRepoInner)
      → IsConsistent hash no_stale r
      → (a b : Text × Text) (l : SlotLocation) → lookup a r.index ≡ some l
      → lookup b r.index ≡ some l
      → a ≡ b
  one_key r h a b l ha hb =
      let (s, at, name) = (h.indexed a l ha).1 in
      let (t, at', name') = (h.indexed b l hb).1 in
      let same : s ≡ t = ground arith in sym name ∙ (ap key_of same ∙ name')

  -- The repository with a slot written to the place that was chosen for it, and nothing released yet.
  module _ (key : Text × Text) (c : ℕ) (r : FilesRepoInner) (target : SlotLocation)
      (classes : Classes) (buf : List ℕ) (slot : OccupiedSlot) (h : IsConsistent hash no_stale r)
      (chosen : IsChosen hash (lookup key r.index) c r target classes)
      (says : content hash buf ≡ some slot) (named : key_of slot ≡ key)
      (fresh : slot.version ≡ r.next_version) where
    abbrev pub put : FilesRepoInner
    put = record {
      classes = classes;
      index = insert key target r.index;
      next_version = r.next_version + 1;
      page_files = write_slot target buf r.page_files;
    }

    pub stands-put :
        (l : SlotLocation)
        → stands hash put l ≡ (if location_same target l then some slot else stands hash r l)
    stands-put l = occupant-write_slot hash target l buf r.page_files chosen.fits ∙ rw says refl

    length-put : (d : ℕ) → length (slots_of d put.page_files) ≡ grown r target d
    unfolding write_slot
    length-put d = ground (
      arith,
      slots_of-insert target.size_class d
          (write_at target.size_class target.slot_index buf
            (slots_of target.size_class r.page_files))
          r.page_files,
      length-write_at target.size_class target.slot_index buf
          (slots_of target.size_class r.page_files) chosen.fits,
      ==_iff target.size_class d,
    )

    -- Another partition's slot is neither the one that is written nor the one that is left.
    others_stay :
        (k : Text × Text) (l : SlotLocation)
        → pair_same key k ≡ false
        → lookup k r.index ≡ some l
        → (location_same target l ≡ false) × (left (lookup key r.index) target l ≡ false)
    others_stay k l other e =
        let apart : lookup key r.index ≡ some l → pair_same key k ≡ true =
          λ there. (pair_same_iff key k).1 (one_key r h key k l there e) in
        let (s, at, _) = (h.indexed k l e).1 in
        (
          elim (Bool-cases (location_same target l)) [
            | inl same ↦
                let eq : target ≡ l = (location_same_iff target l).0 same in
                elim chosen.empty [
                  | inl nobody ↦ absurd (ground arith)
                  | inr own ↦ absurd (ground (arith, apart (own ∙ ap some eq)))
                ]
            | inr different ↦ different
          ],
          elim (Option-cases (lookup key r.index)) [
            | inl nothing ↦ rw nothing refl
            | inr (old, own) ↦ elim (Bool-cases (location_same old l)) [
              | inl same ↦
                  absurd (ground (arith, apart (own ∙ ap some ((location_same_iff old l).0 same))))
              | inr different ↦ rw (own, different) refl
            ]
          ],
        )

    indexed-put :
        (k : Text × Text) (l : SlotLocation)
        → lookup k put.index ≡ some l
        → (left (lookup key r.index) target l ≡ false)
          × ((s : OccupiedSlot) × (stands hash put l ≡ some s) × (key_of s ≡ k))
    indexed-put k l e = elim (Bool-cases (pair_same key k)) [
      | inl same ↦
          let eq : target ≡ l = ground (arith, lookup-insert key k target r.index) in
          let reads : location_same target l ≡ true = (location_same_iff target l).1 eq in
          (
            elim (Option-cases (lookup key r.index)) [
              | inl nothing ↦ rw nothing refl
              | inr (old, own) ↦ rw own (ground (arith, eq))
            ],
            (slot, stands-put l ∙ rw reads refl, named ∙ (pair_same_iff key k).0 same),
          )
      | inr other ↦
          let kept : lookup k r.index ≡ some l =
            ground (arith, lookup-insert key k target r.index) in
          let (elsewhere, stays) = others_stay k l other kept in
          let (s, at, name) = (h.indexed k l kept).1 in
          (stays, (s, stands-put l ∙ rw elsewhere at, name))
    ]

    listed-put :
        (l : SlotLocation) (s : OccupiedSlot)
        → stands hash put l ≡ some s
        → (lookup (key_of s) put.index ≡ some l) ⊎ (left (lookup key r.index) target l ≡ true)
    listed-put l s e = elim (Bool-cases (location_same target l)) [
      | inl same ↦ inl (
          ground (
            arith,
            stands-put l,
            location_same_iff target l,
            lookup-insert key (key_of s) target r.index,
            pair_same_iff key (key_of s),
          ))
      | inr other ↦
          let at : stands hash r l ≡ some s = ground (arith, stands-put l) in
          let own : lookup (key_of s) r.index ≡ some l = ground (arith, h.listed l s at) in
          elim (Bool-cases (pair_same key (key_of s))) [
            | inl same ↦
                let there : lookup key r.index ≡ some l =
                  ap (λ (k : Text × Text). lookup k r.index) ((pair_same_iff key (key_of s)).0 same)
                  ∙ own in
                inr (
                  rw there (
                    ground (
                      arith,
                      location_same_iff l l,
                      location_same_iff l target,
                      location_same_iff target l,
                    )))
            | inr different ↦ inl (lookup-insert key (key_of s) target r.index ∙ rw different own)
          ]
    ]

    pub put-IsConsistent : IsConsistent hash (left (lookup key r.index) target) put
    put-IsConsistent = record {
      distinct = insert-Distinct key target r.index h.distinct;
      distinct_classes = chosen.distinct;
      indexed = indexed-put;
      listed = listed-put;
      versions = λ l s e. ground (arith, stands-put l, h.versions l s);
      counted = λ d. length-put d ∙ chosen.counted d;
      vacant = λ l e. ground (
        arith,
        chosen.taken l,
        h.vacant l,
        stands-put l,
        chosen.counted l.size_class,
        h.counted l.size_class,
      );
      occupied = λ l below e. elim (Bool-cases (location_same target l)) [
        | inl same ↦ (slot, stands-put l ∙ rw same refl)
        | inr other ↦
            let (s, at) =
              h.occupied l
                (ground (
                  arith,
                  chosen.counted l.size_class,
                  h.counted l.size_class,
                  ==_iff target.size_class l.size_class,
                  chosen.fits,
                ))
                (ground (arith, chosen.taken l)) in
            (s, stands-put l ∙ rw other at)
      ];
      once = chosen.once;
    }

    pub saved-put :
        (k : Text × Text)
        → saved hash put k ≡ (if pair_same key k then some slot.payload else saved hash r k)
    saved-put k = elim (Bool-cases (pair_same key k)) [
      | inl same ↦
          let found : lookup k put.index ≡ some target =
            lookup-insert key k target r.index ∙ rw same refl in
          let at : stands hash put target ≡ some slot =
            stands-put target ∙ rw ((location_same_iff target target).1 refl) refl in
          saved-some hash put k target slot found at ∙ rw same refl
      | inr other ↦
          let kept : lookup k put.index ≡ lookup k r.index =
            lookup-insert key k target r.index ∙ rw other refl in
          saved_same hash r put k kept
            (λ l there. stands-put l ∙ rw (others_stay k l other there).0 refl)
          ∙ rw other refl
    ]
