-- ===== src/Persist/Files/Dedup.antt =====
-- Which of several slots with one key wins, and which lose.
use my_no_sql_server_grpc.Base.{
  ◌≡◌, ◌≤◌, refl, sym, ap, ◌∙◌, arith, true, false, ◌⊎◌, inl, inr, List, [], ◌∷◌, ◌++◌, Option,
  none, some, ltb, if◌then◌else◌, Text, pair_eq, pair_same, pair_same_iff, Option-cases, Bool-cases,
}
use my_no_sql_server_grpc.Base.Assoc.{lookup, insert, Distinct, lookup-insert, insert-Distinct}
use my_no_sql_server_grpc.Persist.Files.{
  SlotLocation, ScannedSlot, Winners, location_same, location_same_iff, location_eq, dedup_step,
  dedup,
}
use my_no_sql_server_grpc.Persist.Files.FreeList.{contains, contains-append, Unique, Unique-push}
use my_no_sql_server_grpc.Persist.Files.Scan.{picked, Apart, or_picked}

-- What was seen at each place so far.
abbrev pub Seen : Type 0
Seen = SlotLocation → Option ScannedSlot

-- Every slot seen has won or lost to one of its key that is at least as new, and none has done both.
pub record IsDeduped (seen : Seen) (winners : Winners) (losers : List SlotLocation) : Type 0 where
  pub distinct : Distinct winners
  pub own :
      (key : Text × Text) (slot : ScannedSlot)
      → lookup key winners ≡ some slot
      → (slot.key ≡ key)
        × (seen slot.location ≡ some slot)
        × (contains slot.location losers ≡ false)
  pub decided :
      (l : SlotLocation) (slot : ScannedSlot)
      → seen l ≡ some slot
      → (winner : ScannedSlot) × (lookup slot.key winners ≡ some winner)
        × (slot.version ≤ winner.version)
        × ((winner ≡ slot) ⊎ (contains l losers ≡ true))
  pub lost :
      (l : SlotLocation) → contains l losers ≡ true → (slot : ScannedSlot) × (seen l ≡ some slot)
  pub place : (l : SlotLocation) (slot : ScannedSlot) → seen l ≡ some slot → slot.location ≡ l
  pub once : Unique losers

abbrev pub also : ScannedSlot → Seen → Seen
also slot seen l = if location_same slot.location l then some slot else seen l

module _ (slot : ScannedSlot) (seen : Seen) (winners : Winners) (losers : List SlotLocation)
    (h : IsDeduped seen winners losers) (new : seen slot.location ≡ none) where
  kept_seen : (l : SlotLocation) (s : ScannedSlot) → seen l ≡ some s → also slot seen l ≡ some s
  kept_seen l s e = ground (arith, location_same_iff slot.location l)

  not_lost : contains slot.location losers ≡ false
  not_lost = elim (Bool-cases (contains slot.location losers)) [
    | inl e ↦ let (s, at) = h.lost slot.location e in absurd (ground arith)
    | inr e ↦ e
  ]

  place-also : (l : SlotLocation) (s : ScannedSlot) → also slot seen l ≡ some s → s.location ≡ l
  place-also l s e = ground (arith, h.place l s, location_same_iff slot.location l)

  same_key : (key : Text × Text) → pair_same slot.key key ≡ true → slot.key ≡ key
  same_key key = (pair_same_iff slot.key key).0

  here : also slot seen slot.location ≡ some slot
  here = rw ((location_same_iff slot.location slot.location).1 refl) refl

  old_seen :
      (l : SlotLocation) (s : ScannedSlot)
      → also slot seen l ≡ some s
      → location_same slot.location l ≡ false
      → seen l ≡ some s
  old_seen l s e other = ground arith

  new_seen :
      (l : SlotLocation) (s : ScannedSlot)
      → also slot seen l ≡ some s
      → location_same slot.location l ≡ true
      → slot ≡ s
  new_seen l s e same = ground arith

  elsewhere :
      (l : SlotLocation) (s : ScannedSlot) → seen l ≡ some s → location_same slot.location l ≡ false
  elsewhere l s e = elim (Bool-cases (location_same slot.location l)) [
    | inl same ↦
        let eq : slot.location ≡ l = (location_same_iff slot.location l).0 same in
        absurd (ground arith)
    | inr other ↦ other
  ]

  -- The slot becomes the winner of its key.
  inserted :
      (key : Text × Text) (s : ScannedSlot)
      → lookup key (insert slot.key slot winners) ≡ some s
      → ((slot.key ≡ key) × (slot ≡ s))
        ⊎ ((pair_same slot.key key ≡ false) × (lookup key winners ≡ some s))
  inserted key s e = elim (Bool-cases (pair_same slot.key key)) [
    | inl same ↦ inl (same_key key same, ground (arith, lookup-insert slot.key key slot winners))
    | inr other ↦ inr (other, ground (arith, lookup-insert slot.key key slot winners))
  ]

  -- The first slot of its key.
  step_first :
      lookup slot.key winners ≡ none
      → IsDeduped (also slot seen) (insert slot.key slot winners) losers
  step_first free = record {
    distinct = insert-Distinct slot.key slot winners h.distinct;
    own = λ key s e. elim (inserted key s e) [
      | inl (named, it) ↦ ground (arith, here, not_lost)
      | inr (_, kept) ↦
          let (named, at, safe) = h.own key s kept in (named, kept_seen s.location s at, safe)
    ];
    decided = λ l s e. elim (Bool-cases (location_same slot.location l)) [
      | inl same ↦ (
        slot,
        ground (
          arith,
          new_seen l s e same,
          lookup-insert slot.key slot.key slot winners,
          pair_same_iff slot.key slot.key,
        ),
        ground (arith, new_seen l s e same),
        inl (new_seen l s e same),
      )
      | inr other ↦
          let (w, wins, newer, fate) = h.decided l s (old_seen l s e other) in
          (
            w,
            ground (arith, lookup-insert slot.key s.key slot winners, pair_same_iff slot.key s.key),
            newer,
            fate,
          )
    ];
    lost = λ l e. let (s, at) = h.lost l e in (s, kept_seen l s at);
    place = place-also;
    once = h.once;
  }

  module _ (old : ScannedSlot) (there : lookup slot.key winners ≡ some old) where
    -- The slot is newer than the winner so far.
    step_wins :
        old.version ≤ slot.version
        → IsDeduped (also slot seen) (insert slot.key slot winners) (losers ++ (old.location ∷ []))
    step_wins newer =
        let (named, at, safe) = h.own slot.key old there in
        let more = λ (l : SlotLocation). contains-append l losers (old.location ∷ []) in
        record {
          distinct = insert-Distinct slot.key slot winners h.distinct;
          own = λ key s e. elim (inserted key s e) [
            | inl (key', it) ↦ ground (
              arith,
              here,
              not_lost,
              more slot.location,
              elsewhere old.location old at,
              location_same_iff old.location slot.location,
              location_same_iff slot.location old.location,
            )
            | inr (other, kept) ↦
                let (named', at', safe') = h.own key s kept in
                let apart : location_same old.location s.location ≡ false =
                  elim (Bool-cases (location_same old.location s.location)) [
                    | inl same ↦
                        let place : old.location ≡ s.location =
                          (location_same_iff old.location s.location).0 same in
                        let one : old ≡ s = ground arith in
                        absurd (
                          ground (
                            arith,
                            pair_same_iff slot.key key,
                            ap (λ (x : ScannedSlot). x.key) one,
                          ))
                    | inr different ↦ different
                  ] in
                (named', kept_seen s.location s at', ground (arith, more s.location))
          ];
          decided = λ l s e. elim (Bool-cases (location_same slot.location l)) [
            | inl same ↦ (
              slot,
              ground (
                arith,
                new_seen l s e same,
                lookup-insert slot.key slot.key slot winners,
                pair_same_iff slot.key slot.key,
              ),
              ground (arith, new_seen l s e same),
              inl (new_seen l s e same),
            )
            | inr other ↦
                let seen' = old_seen l s e other in
                let (w, wins, newer', fate) = h.decided l s seen' in
                elim (Bool-cases (pair_same slot.key s.key)) [
                  | inl same ↦
                      let key' : slot.key ≡ s.key = same_key s.key same in
                      let one : old ≡ w = ground arith in
                      (
                        slot,
                        ground (arith, lookup-insert slot.key s.key slot winners),
                        ground (arith, ap (λ (x : ScannedSlot). x.version) one),
                        inr (elim fate [
                          | inl e' ↦
                              let place : old.location ≡ l =
                                ap (λ (x : ScannedSlot). x.location) (one ∙ e')
                                ∙ h.place l s seen' in
                              ground (arith, more l, location_same_iff old.location l)
                          | inr gone ↦ ground (arith, more l)
                        ]),
                      )
                  | inr different ↦ (
                    w,
                    ground (arith, lookup-insert slot.key s.key slot winners),
                    newer',
                    elim fate [ inl e' ↦ inl e' | inr gone ↦ inr (ground (arith, more l)) ],
                  )
                ]
          ];
          lost = λ l e. elim (Bool-cases (contains l losers)) [
            | inl gone ↦ let (s, at') = h.lost l gone in (s, kept_seen l s at')
            | inr not_yet ↦
                let place : old.location ≡ l =
                  ground (arith, more l, location_same_iff old.location l) in
                (old, kept_seen l old (ap seen (sym place) ∙ at))
          ];
          place = place-also;
          once = Unique-push losers old.location h.once safe;
        }

    -- The winner so far stays.
    step_loses :
        slot.version ≤ old.version
        → IsDeduped (also slot seen) winners (losers ++ (slot.location ∷ []))
    step_loses older =
        let more = λ (l : SlotLocation). contains-append l losers (slot.location ∷ []) in
        record {
          distinct = h.distinct;
          own = λ key s e.
              let (named, at, safe) = h.own key s e in
              (
                named,
                kept_seen s.location s at,
                ground (arith, more s.location, elsewhere s.location s at),
              );
          decided = λ l s e. elim (Bool-cases (location_same slot.location l)) [
            | inl same ↦
                let one : slot ≡ s = new_seen l s e same in
                (
                  old,
                  ap (λ (x : ScannedSlot). lookup x.key winners) (sym one) ∙ there,
                  ground (arith, ap (λ (x : ScannedSlot). x.version) one),
                  inr (ground (arith, more l)),
                )
            | inr other ↦
                let (w, wins, newer, fate) = h.decided l s (old_seen l s e other) in
                (
                  w,
                  wins,
                  newer,
                  elim fate [ inl e' ↦ inl e' | inr gone ↦ inr (ground (arith, more l)) ],
                )
          ];
          lost = λ l e. elim (Bool-cases (contains l losers)) [
            | inl gone ↦ let (s, at) = h.lost l gone in (s, kept_seen l s at)
            | inr not_yet ↦ (slot, ground (arith, more l))
          ];
          place = place-also;
          once = Unique-push losers slot.location h.once not_lost;
        }

dedup_step-IsDeduped :
    (slot : ScannedSlot) (seen : Seen) (winners : Winners) (losers : List SlotLocation)
    → IsDeduped seen winners losers
    → seen slot.location ≡ none
    → IsDeduped
        (also slot seen)
        (dedup_step slot (winners, losers)).0
        (dedup_step slot (winners, losers)).1
unfolding dedup_step
dedup_step-IsDeduped slot seen winners losers h new =
    elim (Option-cases (lookup slot.key winners)) [
      | inl free ↦ rw (dedup_step, free) (step_first slot seen winners losers h new free)
      | inr (old, there) ↦ elim (Bool-cases (ltb old.version slot.version)) [
        | inl newer ↦
            rw (dedup_step, there, newer)
              (step_wins slot seen winners losers h new old there (ground arith))
        | inr older ↦
            rw (dedup_step, there, older)
              (step_loses slot seen winners losers h new old there (ground arith))
      ]
    ]

-- Slots from places that are all different, and new.
pub dedup-IsDeduped :
    (slots : List ScannedSlot) (seen : Seen) (s : Winners × List SlotLocation)
    → IsDeduped seen s.0 s.1
    → Apart slots
    → ((l : SlotLocation) (slot : ScannedSlot) → picked slots l ≡ some slot → seen l ≡ none)
    → (seen' : Seen) × ((l : SlotLocation) → seen' l ≡ or_picked (picked slots l) (seen l))
      × IsDeduped seen' (dedup slots s).0 (dedup slots s).1
unfolding dedup picked
dedup-IsDeduped [] seen s h apart new = (seen, λ l. refl, h)
dedup-IsDeduped (slot ∷ slots) seen (winners, losers) h apart new =
    let fresh : seen slot.location ≡ none =
      new slot.location slot (rw ((location_same_iff slot.location slot.location).1 refl) refl) in
    let step = dedup_step-IsDeduped slot seen winners losers h fresh in
    let (seen', shows, done) =
      dedup-IsDeduped slots (also slot seen) (dedup_step slot (winners, losers)) step apart.1
        (λ l s e. elim (Bool-cases (location_same slot.location l)) [
          | inl same ↦
              let eq : slot.location ≡ l = (location_same_iff slot.location l).0 same in
              let none_left = apart.0 in absurd (ground (arith, ap (picked slots) eq))
          | inr other ↦ rw other (new l s (rw other e))
        ]) in
    (seen', λ l. ground (arith, shows l, apart.0, location_same_iff slot.location l), done)
