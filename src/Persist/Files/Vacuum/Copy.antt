-- ===== src/Persist/Files/Vacuum/Copy.antt =====
-- The copies of the compaction: what stands where afterwards.
use my_no_sql_server_grpc.Base.{
  ℕ, zero, suc, ◌≡◌, ◌≤◌, ◌<◌, refl, sym, ap, ◌∙◌, arith, true, false, inl, inr, List, [], ◌∷◌,
  Option, none, some, ltb, ◌==◌, ==_iff, if◌then◌else◌, length, take, get_elem?, Text, nat_eq,
  pair_eq, pair_same, pair_same_iff, Bool-cases, Option-cases, All,
}
use mathlib.Core.Path.{subst}
use my_no_sql_server_grpc.Base.Assoc.{lookup, Distinct}
use my_no_sql_server_grpc.Base.Outcome.{returns}
use my_no_sql_server_grpc.Persist.Slot.{OccupiedSlot}
use my_no_sql_server_grpc.Persist.Files.{write_at}
use my_no_sql_server_grpc.Persist.Files.FreeList.{contains, Unique}
use my_no_sql_server_grpc.Persist.Files.Slots.{
  content, occupant_in, occupant_in-write_at, length-write_at,
}
use my_no_sql_server_grpc.Persist.Files.Scan.{is_clean}
use my_no_sql_server_grpc.Persist.Files.Intact.{is_clean-write_at}
use my_no_sql_server_grpc.Persist.Files.Vacuum.{copy_slot, copy_slots}
use my_no_sql_server_grpc.Persist.Files.Vacuum.Pairs.{Lives, moved, not_moved}

get_elem?-lt :
    (slots : List (List ℕ)) (i : ℕ)
    → i < length slots
    → (buf : List ℕ) × (get_elem? slots i ≡ some buf)
get_elem?-lt [] i h = absurd (omega arith)
get_elem?-lt (slot ∷ slots) zero h = (slot, refl)
get_elem?-lt (slot ∷ slots) (suc i) h = get_elem?-lt slots i (omega arith)

-- The places that are read and written: read at or beyond `live`, written below it.
abbrev pub Tail : ℕ → ℕ → Lives → Type 0
Tail live n lives = All (λ (m : (Text × Text) × ℕ). (live ≤ m.1) × (m.1 < n)) lives

abbrev pub Head : ℕ → List ℕ → Type 0
Head live frees = All (λ (i : ℕ). i < live) frees

pub Tail-lookup :
    (live n : ℕ) (lives : Lives)
    → Distinct lives
    → ((k : Text × Text) (f : ℕ) → lookup k lives ≡ some f → (live ≤ f) × (f < n))
    → Tail live n lives
Tail-lookup live n [] d h = tt
Tail-lookup live n ((key, f) ∷ lives) d h = (
  h key f (rw ((pair_same_iff key key).1 refl) refl),
  Tail-lookup live n lives d.1 (λ k g e. elim (Bool-cases (pair_same key k)) [
    | inl same ↦ absurd (
        ground
          (arith, d.0, ap (λ (j : Text × Text). lookup j lives) ((pair_same_iff key k).0 same)))
    | inr other ↦ h k g (rw other e)
  ]),
)

pub Head-contains :
    (live : ℕ) (frees : List ℕ) → ((i : ℕ) → contains i frees ≡ true → i < live) → Head live frees
Head-contains live [] h = tt
Head-contains live (t ∷ frees) h =
    (ground (arith, h t, ==_iff t t), Head-contains live frees (λ i e. h i (ground arith)))

moved-Tail :
    (live n : ℕ) (lives : Lives) (frees : List ℕ) (i g : ℕ)
    → Tail live n lives
    → moved lives frees i ≡ some g
    → live ≤ g
moved-Tail live n [] frees i g h e = absurd (ground arith)
moved-Tail live n (m ∷ lives) [] i g h e = absurd (ground arith)
moved-Tail live n ((key, f) ∷ lives) (t ∷ frees) i g h e =
    ground (arith, moved-Tail live n lives frees i g h.1)

module _ (hash : List ℕ → ℕ) where
  get_elem?-content :
      (slots : List (List ℕ)) (i : ℕ) (buf : List ℕ)
      → get_elem? slots i ≡ some buf
      → content hash buf ≡ occupant_in hash slots i
  unfolding occupant_in
  get_elem?-content [] i buf h = absurd (ground arith)
  get_elem?-content (slot ∷ slots) zero buf h = ground arith
  get_elem?-content (slot ∷ slots) (suc i) buf h = get_elem?-content slots i buf h

  pub occupant_in-take :
      (m i : ℕ) (slots : List (List ℕ))
      → occupant_in hash (take m slots) i ≡ (if ltb i m then occupant_in hash slots i else none)
  unfolding occupant_in
  occupant_in-take zero i slots = ground arith
  occupant_in-take (suc m) i [] = ground arith
  occupant_in-take (suc m) zero (slot ∷ slots) = ground arith
  occupant_in-take (suc m) (suc i) (slot ∷ slots) = ground (arith, occupant_in-take m i slots)

  is_clean-get_elem? :
      (slots : List (List ℕ)) (i : ℕ) (buf : List ℕ)
      → get_elem? slots i ≡ some buf
      → is_clean hash slots ≡ true
      → is_clean hash (buf ∷ []) ≡ true
  is_clean-get_elem? [] i buf e h = absurd (ground arith)
  is_clean-get_elem? (slot ∷ slots) zero buf e h = ground arith
  is_clean-get_elem? (slot ∷ slots) (suc i) buf e h =
      is_clean-get_elem? slots i buf e (ground arith)

  pub is_clean-take :
      (m : ℕ) (slots : List (List ℕ))
      → is_clean hash slots ≡ true
      → is_clean hash (take m slots) ≡ true
  is_clean-take zero slots h = refl
  is_clean-take (suc m) [] h = refl
  is_clean-take (suc m) (slot ∷ slots) h = ground (arith, is_clean-take m slots)

  -- A copy of slots that are not corrupt is none.
  pub is_clean-copy_slots :
      (c live : ℕ) (lives : Lives) (frees : List ℕ) (slots : List (List ℕ)) {bytes : List (List ℕ)}
      → Head live frees
      → live ≤ length slots
      → copy_slots c lives frees slots ≡ returns bytes
      → is_clean hash slots ≡ true
      → is_clean hash bytes ≡ true
  unfolding copy_slots copy_slot
  is_clean-copy_slots c live [] frees slots head fits e h = ground arith
  is_clean-copy_slots c live (m ∷ lives) [] slots head fits e h = ground arith
  is_clean-copy_slots c live ((key, f) ∷ lives) (t ∷ frees) slots {bytes} head fits e h =
      elim (Option-cases (get_elem? slots f)) [
        | inl nothing ↦ absurd (ground arith)
        | inr (buf, got) ↦
            let slots1 = write_at c t buf slots in
            let more : copy_slots c lives frees slots1 ≡ returns bytes = ground arith in
            let size : length slots1 ≡ length slots =
              ground (arith, length-write_at c t buf slots (omega arith)) in
            is_clean-copy_slots c live lives frees slots1 {bytes = bytes} head.1 (omega arith) more
              (is_clean-write_at hash false c t buf slots (is_clean-get_elem? slots f buf got h)
                (omega arith) h)
      ]

  -- What stands at a place afterwards.
  abbrev pub after_copy : Lives → List ℕ → List (List ℕ) → ℕ → Option OccupiedSlot
  after_copy lives frees slots i = elim (moved lives frees i) [
    | none ↦ occupant_in hash slots i
    | some f ↦ occupant_in hash slots f
  ]

  pub copy_slots-copied :
      (c live : ℕ) (lives : Lives) (frees : List ℕ) (slots : List (List ℕ))
      → Tail live (length slots) lives
      → Head live frees
      → live ≤ length slots
      → Unique frees
      → (copied : List (List ℕ)) × (copy_slots c lives frees slots ≡ returns copied)
        × (length copied ≡ length slots)
        × ((i : ℕ) → i < live → occupant_in hash copied i ≡ after_copy lives frees slots i)
        × ((i : ℕ) → live ≤ i → occupant_in hash copied i ≡ occupant_in hash slots i)
  unfolding copy_slots copy_slot
  copy_slots-copied c live [] frees slots tail head fits u =
      (slots, refl, refl, λ i h. refl, λ i h. refl)
  copy_slots-copied c live (m ∷ lives) [] slots tail head fits u =
      (slots, refl, refl, λ i h. refl, λ i h. refl)
  copy_slots-copied c live ((key, f) ∷ lives) (t ∷ frees) slots tail head fits u =
      let (buf, got) = get_elem?-lt slots f tail.0.1 in
      let slots1 = write_at c t buf slots in
      let size : length slots1 ≡ length slots =
        ground (arith, length-write_at c t buf slots (omega arith)) in
      let wrote = λ (i : ℕ). occupant_in-write_at hash c t i buf slots (omega arith) in
      let reads = get_elem?-content slots f buf got in
      let tail1 : Tail live (length slots1) lives =
        subst (λ (n : ℕ). Tail live n lives) (sym size) tail.1 in
      let step : (i : ℕ)
          → after_copy lives frees slots1 i ≡ after_copy ((key, f) ∷ lives) (t ∷ frees) slots i =
        λ i. elim (Bool-cases (t == i)) [
          | inl same ↦
              let gone : moved lives frees i ≡ none =
                not_moved lives frees i (ground (arith, ==_iff t i)) in
              ground (arith, wrote i)
          | inr other ↦ elim (Option-cases (moved lives frees i)) [
            | inl stays ↦ ground (arith, wrote i)
            | inr (g, comes) ↦ ground (
              arith,
              wrote g,
              moved-Tail live (length slots) lives frees i g tail.1 comes,
              ==_iff t g,
            )
          ]
        ] in
      let (copied, done, long, low, high) =
        copy_slots-copied c live lives frees slots1 tail1 head.1 (omega arith) u.1 in
      (
        copied,
        rw (copy_slots, copy_slot, got) done,
        long ∙ size,
        λ i h. low i h ∙ step i,
        λ i h. ground (arith, high i h, wrote i, ==_iff t i),
      )
