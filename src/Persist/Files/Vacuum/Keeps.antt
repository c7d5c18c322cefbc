-- ===== src/Persist/Files/Vacuum/Keeps.antt =====
-- The vacuum as a whole keeps what is kept.
use my_no_sql_server_grpc.Base.{
  ℕ, zero, suc, ◌≡◌, ◌<◌, refl, sym, ap, ◌∙◌, arith, Bool, true, false, inl, inr, List, [], ◌∷◌,
  none, some, ltb, ◌==◌, ==_iff, if◌then◌else◌, Text, nat_eq, Bool-cases, Option-cases, All,
}
use my_no_sql_server_grpc.Base.Assoc.{lookup, remove, Distinct, lookup-remove, remove-Distinct}
use my_no_sql_server_grpc.Base.Outcome.{returns}
use my_no_sql_server_grpc.Persist.Files.{
  SlotLocation, ClassState, Classes, PageFiles, FilesRepoInner, slots_of, state_of,
}
use my_no_sql_server_grpc.Persist.Files.FreeList.{contains}
use my_no_sql_server_grpc.Persist.Files.Slots.{occupant_in, occupant_in-lt}
use my_no_sql_server_grpc.Persist.Files.Consistent.{stands, saved, saved_same, IsConsistent}
use my_no_sql_server_grpc.Persist.Files.Choose.{no_stale}
use my_no_sql_server_grpc.Persist.Files.Open.{IsFolder, IsPageFile, All-weaken}
use my_no_sql_server_grpc.Persist.Files.Vacuum.{
  all_free, empty_classes, remove_empty, is_candidate, compact_candidates, compact_all, vacuum,
}
use my_no_sql_server_grpc.Persist.Files.Vacuum.Places.{at}
use my_no_sql_server_grpc.Persist.Files.Vacuum.Compact.{compact_class-kept}

contains-all_free :
    (n : ℕ) (free : List ℕ) (i : ℕ) → all_free n free ≡ true → i < n → contains i free ≡ true
unfolding all_free
contains-all_free zero free i h below = absurd (omega arith)
contains-all_free (suc n) free i h below = elim (Bool-cases (i == n)) [
  | inl same ↦ ground (arith, ==_iff i n)
  | inr other ↦ ground (arith, contains-all_free n free i, ==_iff i n)
]

All-remove :
    (hash : List ℕ → ℕ) (skip : Bool) (c : ℕ) (files : PageFiles)
    → All (IsPageFile hash skip) files
    → All (IsPageFile hash skip) (remove c files)
All-remove hash skip c [] h = tt
All-remove hash skip c ((d, slots) ∷ files) h = elim (Bool-cases (d == c)) [
  | inl same ↦ rw same (All-remove hash skip c files h.1)
  | inr other ↦ rw other (h.0, All-remove hash skip c files h.1)
]

-- An entry of a list of classes is the one that its number finds.
Entries : Classes → Classes → Type 0
Entries all classes = All (λ (e : ℕ × ClassState). lookup e.0 all ≡ some e.1) classes

module _ (hash : List ℕ → ℕ) where
  -- What a step of the vacuum leaves.
  pub record IsKept (r r' : FilesRepoInner) : Type 0 where
    pub consistent : IsConsistent hash no_stale r'
    pub kept : (k : Text × Text) → saved hash r' k ≡ saved hash r k
    pub next : r'.next_version ≡ r.next_version
    pub folder : (skip : Bool) → IsFolder hash skip r.page_files → IsFolder hash skip r'.page_files

  IsKept-refl : (r : FilesRepoInner) → IsConsistent hash no_stale r → IsKept r r
  IsKept-refl r h = record { consistent = h; kept = λ k. refl; next = refl; folder = λ skip f. f }

  IsKept-trans : (a b c : FilesRepoInner) → IsKept a b → IsKept b c → IsKept a c
  IsKept-trans a b c x y = record {
    consistent = y.consistent;
    kept = λ k. y.kept k ∙ x.kept k;
    next = y.next ∙ x.next;
    folder = λ skip f. y.folder skip (x.folder skip f);
  }

  -- A class in which nothing stands.
  abbrev Vacant : FilesRepoInner → ℕ → Type 0
  Vacant r c = (i : ℕ) → stands hash r (at c i) ≡ none

  module _ (c : ℕ) (r : FilesRepoInner) (h : IsConsistent hash no_stale r)
      (empty : Vacant r c) where
    abbrev without : FilesRepoInner
    without = record r { classes = remove c r.classes; page_files = remove c r.page_files }

    slots_of-without :
        (d : ℕ) → slots_of d without.page_files ≡ (if c == d then [] else slots_of d r.page_files)
    slots_of-without d = ground (arith, lookup-remove c d r.page_files)

    state_of-without :
        (d : ℕ)
        → state_of d without.classes
          ≡ (if c == d then record { slot_count = 0; free = [] } else state_of d r.classes)
    state_of-without d = ground (arith, lookup-remove c d r.classes)

    stands-without : (l : SlotLocation) → stands hash without l ≡ stands hash r l
    unfolding occupant_in
    stands-without l = elim (Bool-cases (c == l.size_class)) [
      | inl same ↦
          let here : at c l.slot_index ≡ l = ground (arith, ==_iff c l.size_class) in
          let gone : slots_of l.size_class without.page_files ≡ [] =
            slots_of-without l.size_class ∙ rw same refl in
          ap (λ (s : List (List ℕ)). occupant_in hash s l.slot_index) gone
          ∙ sym (ap (stands hash r) (sym here) ∙ empty l.slot_index)
      | inr other ↦
          let same_slots : slots_of l.size_class without.page_files
              ≡ slots_of l.size_class r.page_files =
            slots_of-without l.size_class ∙ rw other refl in
          ap (λ (s : List (List ℕ)). occupant_in hash s l.slot_index) same_slots
    ]

    without-IsKept : IsKept r without
    without-IsKept = record {
      consistent = record {
        distinct = h.distinct;
        distinct_classes = remove-Distinct c r.classes h.distinct_classes;
        indexed = λ k l e.
            let (slot, there, name) = (h.indexed k l e).1 in
            (refl, (slot, stands-without l ∙ there, name));
        listed = λ l slot e. h.listed l slot (sym (stands-without l) ∙ e);
        versions = λ l slot e. h.versions l slot (sym (stands-without l) ∙ e);
        counted = λ d. ground (arith, slots_of-without d, state_of-without d, h.counted d);
        vacant = λ l e. ground (arith, state_of-without l.size_class, stands-without l, h.vacant l);
        occupied = λ l below e.
            let (slot, there) =
              h.occupied l (ground (arith, state_of-without l.size_class))
                (ground (arith, state_of-without l.size_class)) in
            (slot, stands-without l ∙ there);
        once = λ d. elim (Bool-cases (c == d)) [
          | inl same ↦ rw (state_of-without d, same) tt
          | inr other ↦ rw (state_of-without d, other) (h.once d)
        ];
      };
      kept = λ k. saved_same hash r without k refl (λ l e. stands-without l);
      next = refl;
      folder = λ skip f. record {
        distinct = remove-Distinct c r.page_files f.distinct;
        page_files = All-remove hash skip c r.page_files f.page_files;
      };
    }

  remove_empty-IsKept :
      (removes : ℕ → Bool) (cs : List ℕ) (r : FilesRepoInner)
      → IsConsistent hash no_stale r
      → All (Vacant r) cs
      → IsKept r (remove_empty removes cs r)
  unfolding remove_empty
  remove_empty-IsKept removes [] r h empty = IsKept-refl r h
  remove_empty-IsKept removes (c ∷ cs) r h empty = elim (Bool-cases (removes c)) [
    | inr stays ↦ rw stays (remove_empty-IsKept removes cs r h empty.1)
    | inl goes ↦
        let one = without-IsKept c r h empty.0 in
        rw goes (
          IsKept-trans r (without c r h empty.0) _ one (
            remove_empty-IsKept removes cs (without c r h empty.0) one.consistent
              (All-weaken cs (λ d e i. stands-without c r h empty.0 (at d i) ∙ e i) empty.1)))
  ]

  entries : (classes : Classes) → Distinct classes → Entries classes classes
  unfolding Entries
  entries [] d = tt
  entries ((c, state) ∷ classes) d = (
    ground (arith, ==_iff c c),
    All-weaken classes
        (λ e found. elim (Bool-cases (c == e.0)) [
          | inl same ↦
              absurd (ground (arith, d.0, ap (λ (k : ℕ). lookup k classes) ((==_iff c e.0).0 same)))
          | inr other ↦ ground arith
        ])
        (entries classes d.1),
  )

  -- Nothing stands in a class all of whose slots are free.
  Vacant-class :
      (c : ℕ) (state : ClassState) (r : FilesRepoInner)
      → IsConsistent hash no_stale r
      → lookup c r.classes ≡ some state
      → all_free state.slot_count state.free ≡ true
      → Vacant r c
  Vacant-class c state r h known free i = elim (Bool-cases (ltb i state.slot_count)) [
    | inl small ↦
        ground (arith, contains-all_free state.slot_count state.free i free, h.vacant (at c i))
    | inr large ↦ elim (Option-cases (stands hash r (at c i))) [
      | inl nobody ↦ nobody
      | inr (slot, there) ↦
          absurd
            (ground (arith, occupant_in-lt hash (slots_of c r.page_files) i there, h.counted c))
    ]
  ]

  empty_classes-Vacant :
      (classes : Classes) (r : FilesRepoInner)
      → IsConsistent hash no_stale r
      → Entries r.classes classes
      → All (Vacant r) (empty_classes classes)
  unfolding empty_classes Entries
  empty_classes-Vacant [] r h e = tt
  empty_classes-Vacant ((c, state) ∷ classes) r h e =
      let rest = empty_classes-Vacant classes r h e.1 in
      elim (Bool-cases (state.slot_count == 0)) [
        | inl none_there ↦ rw none_there rest
        | inr some_there ↦ elim (Bool-cases (all_free state.slot_count state.free)) [
          | inl free ↦ rw (some_there, free) (Vacant-class c state r h e.0 free, rest)
          | inr live ↦ rw (some_there, live) rest
        ]
      ]

  -- The classes that are compacted are there, each once.
  abbrev Chosen : FilesRepoInner → List ℕ → Type 0
  Chosen r [] = Unit {0}
  Chosen r (c ∷ cs) =
      ((state : ClassState) × (lookup c r.classes ≡ some state) × (0 < state.slot_count))
      × Chosen r cs

  abbrev has : ℕ → List ℕ → Bool
  has c [] = false
  has c (d ∷ ds) = if d == c then true else has c ds

  abbrev Single : List ℕ → Type 0
  Single [] = Unit {0}
  Single (c ∷ cs) = (has c cs ≡ false) × Single cs

  Chosen-same :
      (c : ℕ) (r r' : FilesRepoInner) (cs : List ℕ)
      → ((d : ℕ) → (c == d) ≡ false → lookup d r'.classes ≡ lookup d r.classes)
      → has c cs ≡ false
      → Chosen r cs
      → Chosen r' cs
  Chosen-same c r r' [] same new chosen = tt
  Chosen-same c r r' (d ∷ cs) same new ((state, known, some_slots), rest) =
      let apart : (c == d) ≡ false = ground (arith, ==_iff c d, ==_iff d c) in
      ((state, same d apart ∙ known, some_slots), Chosen-same c r r' cs same (ground arith) rest)

  compact_all-IsKept :
      (cs : List ℕ) (r : FilesRepoInner)
      → IsConsistent hash no_stale r
      → Chosen r cs
      → Single cs
      → (r' : FilesRepoInner) × (compact_all cs r ≡ returns r') × IsKept r r'
  unfolding compact_all
  compact_all-IsKept [] r h chosen single = (r, refl, IsKept-refl r h)
  compact_all-IsKept (c ∷ cs) r h ((state, known, some_slots), rest) single =
      let (r1, one, h1, kept, same, next, folder) =
        compact_class-kept hash c r state h known some_slots in
      let (r', all, more) =
        compact_all-IsKept cs r1 h1 (Chosen-same c r r1 cs same single.0 rest) single.1 in
      (
        r',
        rw one all,
        IsKept-trans r r1 r' (record { consistent = h1; kept = kept; next = next; folder = folder })
            more,
      )

  has-candidates :
      (c : ℕ) (classes : Classes)
      → lookup c classes ≡ none
      → has c (compact_candidates classes) ≡ false
  unfolding compact_candidates
  has-candidates c [] e = refl
  has-candidates c ((d, state) ∷ classes) e = ground (arith, has-candidates c classes)

  candidates-Single : (classes : Classes) → Distinct classes → Single (compact_candidates classes)
  unfolding compact_candidates
  candidates-Single [] d = tt
  candidates-Single ((c, state) ∷ classes) d =
      ground (arith, has-candidates c classes d.0, candidates-Single classes d.1)

  candidates-Chosen :
      (classes : Classes) (r : FilesRepoInner)
      → Entries r.classes classes
      → Chosen r (compact_candidates classes)
  unfolding compact_candidates is_candidate Entries
  candidates-Chosen [] r e = tt
  candidates-Chosen ((c, state) ∷ classes) r e =
      let rest = candidates-Chosen classes r e.1 in
      elim (Bool-cases (is_candidate state)) [
        | inl candidate ↦ rw candidate ((state, e.0, ground arith), rest)
        | inr other ↦ rw other rest
      ]

  -- The vacuum goes through, whichever removals of files fail: the bookkeeping says what is on disk as before, and every key
  -- keeps its payload.
  pub vacuum-IsKept :
      (removes : ℕ → Bool) (r : FilesRepoInner)
      → IsConsistent hash no_stale r
      → (r' : FilesRepoInner) × (vacuum removes r ≡ returns r') × IsKept r r'
  unfolding vacuum
  vacuum-IsKept removes r h =
      let first =
        remove_empty-IsKept removes (empty_classes r.classes) r h
          (empty_classes-Vacant r.classes r h (entries r.classes h.distinct_classes)) in
      let r1 = remove_empty removes (empty_classes r.classes) r in
      let d = first.consistent.distinct_classes in
      let (r', done, then_kept) =
        compact_all-IsKept (compact_candidates r1.classes) r1 first.consistent
          (candidates-Chosen r1.classes r1 (entries r1.classes d))
          (candidates-Single r1.classes d) in
      (r', done, IsKept-trans r r1 r' first then_kept)
