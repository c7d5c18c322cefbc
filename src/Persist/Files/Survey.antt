-- ===== src/Persist/Files/Survey.antt =====
-- The scan of all the page-files, and the highest version that it meets.
use my_no_sql_server_grpc.Base.{
  ℕ, ◌≡◌, ◌≤◌, ◌<◌, refl, ap, arith, Bool, true, ◌&&◌, ◌||◌, inl, inr, List, [], ◌∷◌, ◌++◌, none,
  some, ◌==◌, ==_iff, ltb, if◌then◌else◌, length, nat_eq, Bool-cases,
}
use my_no_sql_server_grpc.Base.Assoc.{lookup, Distinct}
use my_no_sql_server_grpc.Base.Outcome.{returns}
use my_no_sql_server_grpc.Persist.Files.{
  SlotLocation, Classes, ClassState, PageFiles, ScannedSlot, location_same, location_same_iff,
  slots_of, state_of, scan_classes, highest,
}
use my_no_sql_server_grpc.Persist.Files.FreeList.{contains, Unique}
use my_no_sql_server_grpc.Persist.Files.Slots.{occupant_in, occupant}
use my_no_sql_server_grpc.Persist.Files.Scan.{
  picked, Apart, picked-append, Apart-append, as_scanned, present, is_clean, is_none, IsScanned,
  scan_slots-IsScanned,
}

module _ (hash : List ℕ → ℕ) where
  -- A class as the opening of the folder leaves it, its file readable.
  abbrev pub IsOpened : Bool → PageFiles → Classes → Type 0
  IsOpened skip files [] = Unit {0}
  IsOpened skip files ((c, state) ∷ classes) =
      ((state.free ≡ [])
        × (state.slot_count ≡ length (slots_of c files))
        × ((skip || is_clean hash (slots_of c files)) ≡ true))
      × IsOpened skip files classes

  -- What the scan of all the classes picks up, and what it leaves of them.
  pub record IsSurvey (files : PageFiles) (classes : Classes) (seen : List ScannedSlot × Classes)
      : Type 0 where
    pub found :
        (l : SlotLocation)
        → picked seen.0 l
          ≡ (if present l.size_class classes then as_scanned l (occupant hash files l) else none)
    pub counted : (d : ℕ) → (state_of d seen.1).slot_count ≡ (state_of d classes).slot_count
    pub free :
        (d k : ℕ)
        → contains k (state_of d seen.1).free ≡ (
            present d classes
            && (ltb k (length (slots_of d files))
                && is_none hash (occupant_in hash (slots_of d files) k)))
    pub apart : Apart seen.0
    pub distinct : Distinct seen.1
    pub absent : (d : ℕ) → lookup d classes ≡ none → lookup d seen.1 ≡ none
    pub once : (d : ℕ) → Unique (state_of d seen.1).free

  state_of-cons :
      (c d : ℕ) (state : ClassState) (classes : Classes)
      → state_of d ((c, state) ∷ classes) ≡ (if c == d then state else state_of d classes)
  state_of-cons c d state classes = ground arith

  module _ (files : PageFiles) (c : ℕ) (state : ClassState) (classes : Classes)
      (new : lookup c classes ≡ none) (opened : state.free ≡ []) where
    IsSurvey-cons :
        (seen : List ScannedSlot) (free : List ℕ) (more : List ScannedSlot) (after : Classes)
        → IsScanned hash c 0 (slots_of c files) (seen, free)
        → IsSurvey files classes (more, after)
        → IsSurvey files
            ((c, state) ∷ classes)
            (seen ++ more, (c, record state { free = state.free ++ free }) ∷ after)
    IsSurvey-cons seen free more after one rest =
        let after' =
          λ (d : ℕ). state_of-cons c d (record state { free = state.free ++ free }) after in
        record {
          found = λ l.
              ground (
                arith,
                picked-append seen more l,
                one.found l,
                rest.found l,
                ==_iff c l.size_class,
              );
          counted = λ d. ground (arith, after' d, state_of-cons c d state classes, rest.counted d);
          free = λ d k. ground (arith, after' d, one.free k, rest.free d k, opened, ==_iff c d);
          distinct = (rest.absent c new, rest.distinct);
          absent = λ d e. ground (arith, rest.absent d);
          apart =
              Apart-append seen more one.apart rest.apart
                (λ l slot h. ground (arith, one.found l, rest.found l));
          once = λ d. elim (Bool-cases (c == d)) [
            | inl same ↦ rw (after' d, same, opened) one.once
            | inr other ↦ rw (after' d, other) (rest.once d)
          ];
        }

  pub scan_classes-IsSurvey :
      (skip : Bool) (classes : Classes) (files : PageFiles)
      → Distinct classes
      → IsOpened skip files classes
      → (seen : List ScannedSlot × Classes) × (scan_classes hash skip classes files ≡ returns seen)
        × IsSurvey files classes seen
  unfolding scan_classes picked
  scan_classes-IsSurvey skip [] files d o = (
    ([], []),
    refl,
    record {
      found = λ l. refl;
      counted = λ d. refl;
      free = λ d k. refl;
      apart = tt;
      distinct = tt;
      absent = λ d e. refl;
      once = λ d. tt;
    },
  )
  scan_classes-IsSurvey skip ((c, state) ∷ classes) files d o =
      let ((seen, free), one, scanned) =
        scan_slots-IsScanned hash c 0 skip (slots_of c files) o.0.2 in
      let ((more, after), all, survey) = scan_classes-IsSurvey skip classes files d.1 o.1 in
      (
        (seen ++ more, (c, record state { free = state.free ++ free }) ∷ after),
        rw (o.0.1, one, all) refl,
        IsSurvey-cons files c state classes d.0 o.0.0 seen free more after scanned survey,
      )

pub highest-le : (m : ℕ) (slots : List ScannedSlot) → m ≤ highest m slots
unfolding highest
highest-le m [] = omega arith
highest-le m (slot ∷ slots) = ground (arith, highest-le m slots, highest-le slot.version slots)

pub version-le-highest :
    (m : ℕ) (slots : List ScannedSlot) (l : SlotLocation) {slot : ScannedSlot}
    → picked slots l ≡ some slot
    → slot.version ≤ highest m slots
unfolding picked highest
version-le-highest m [] l h = cc
version-le-highest m (x ∷ xs) l {slot} h = elim (Bool-cases (location_same x.location l)) [
  | inl same ↦ ground (arith, highest-le m xs, highest-le x.version xs)
  | inr other ↦
      version-le-highest (if ltb m x.version then x.version else m) xs l {slot = slot}
        (ground arith)
]

pub highest-lt :
    (b m : ℕ) (slots : List ScannedSlot)
    → m < b
    → Apart slots
    → ((l : SlotLocation) (slot : ScannedSlot) → picked slots l ≡ some slot → slot.version < b)
    → highest m slots < b
unfolding picked highest
highest-lt b m [] h apart below = h
highest-lt b m (x ∷ xs) h apart below =
    let first : x.version < b =
      below x.location x (rw ((location_same_iff x.location x.location).1 refl) refl) in
    highest-lt b (if ltb m x.version then x.version else m) xs (ground arith) apart.1 (λ l slot e.
      elim (Bool-cases (location_same x.location l)) [
        | inl same ↦
            absurd
              (ground (arith, apart.0, ap (picked xs) ((location_same_iff x.location l).0 same)))
        | inr other ↦ below l slot (rw other e)
      ])
