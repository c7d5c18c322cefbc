-- ===== src/Persist/Files/Load.antt =====
-- The recovery scan: `load_all_partitions` on the page-files of a folder that was just opened.
use native.Mathlib.Nat.{mod-eq_of_lt}
use my_no_sql_server_grpc.Base.{
  ℕ, ◌+◌, ◌-◌, ◌^◌, ◌≡◌, ◌≤◌, ◌<◌, refl, sym, ap, ◌∙◌, arith, Bool, true, inl, inr, List, [], none,
  some, length, nat_eq, pair_eq, Text, Option-cases,
}
use my_no_sql_server_grpc.Base.Assoc.{lookup}
use my_no_sql_server_grpc.Base.Outcome.{returns}
use my_no_sql_server_grpc.Persist.Slot.{OccupiedSlot}
use my_no_sql_server_grpc.Persist.Files.{
  SlotLocation, location_eq, Classes, PageFiles, ScannedSlot, FilesRepoInner, LoadedPartition,
  Winners, slots_of, state_of, discover_class_files, open_files, highest, dedup, index_all, loaded,
  recover, load_all_partitions,
}
use my_no_sql_server_grpc.Persist.Files.FreeList.{contains}
use my_no_sql_server_grpc.Persist.Files.Slots.{occupant, occupant_in-lt}
use my_no_sql_server_grpc.Persist.Files.Consistent.{key_of, saved, IsConsistent}
use my_no_sql_server_grpc.Persist.Files.Choose.{no_stale}
use my_no_sql_server_grpc.Persist.Files.Scan.{picked, as_scanned, present}
use my_no_sql_server_grpc.Persist.Files.Survey.{
  IsSurvey, scan_classes-IsSurvey, version-le-highest, highest-lt,
}
use my_no_sql_server_grpc.Persist.Files.Dedup.{IsDeduped, dedup-IsDeduped, Seen}
use my_no_sql_server_grpc.Persist.Files.Loaded.{
  payload_of, payload_of-loaded, OnePerKey, loaded-OnePerKey, lookup-index_all, index_all-Distinct,
}
use my_no_sql_server_grpc.Persist.Files.Release.{
  free_all-index, free_all-under, IsReleased, free_all-IsReleased,
}
use my_no_sql_server_grpc.Persist.Files.Intact.{free_all-IsFolder}
use my_no_sql_server_grpc.Persist.Files.Open.{
  IsFolder, discover-Distinct, discover-IsOpened, discover_counted,
}

module _ (hash : List ℕ → ℕ) where
  -- The repository that the scan of `files` leaves, and what it hands out.
  pub record IsRecovered (files : PageFiles) (partitions : List LoadedPartition)
      (r' : FilesRepoInner) : Type 0 where
    pub consistent : IsConsistent hash no_stale r'
    pub apart : OnePerKey partitions
    pub loads : (key : Text × Text) → payload_of key partitions ≡ saved hash r' key
    pub newest :
        (l : SlotLocation) (slot : OccupiedSlot)
        → occupant hash files l ≡ some slot
        → (m : SlotLocation) × (best : OccupiedSlot) × (occupant hash files m ≡ some best)
          × (key_of best ≡ key_of slot)
          × (slot.version ≤ best.version)
          × (saved hash r' (key_of slot) ≡ some best.payload)
    pub only :
        (key : Text × Text) (payload : List ℕ)
        → saved hash r' key ≡ some payload
        → (l : SlotLocation) × (slot : OccupiedSlot) × (occupant hash files l ≡ some slot)
          × (key_of slot ≡ key)
          × (slot.payload ≡ payload)
    -- The counter goes on behind the versions on disk.
    pub counts :
        (bound : ℕ)
        → 0 < bound
        → ((l : SlotLocation) (slot : OccupiedSlot)
            → occupant hash files l ≡ some slot
            → slot.version < bound)
        → r'.next_version ≤ bound
    pub folder : (skip : Bool) → IsFolder hash skip files → IsFolder hash skip r'.page_files

  -- Between the scan and the release of the losers.
  module _ (files : PageFiles) (classes after : Classes) (scanned : List ScannedSlot)
      (survey : IsSurvey hash files classes (scanned, after))
      (counted : (d : ℕ) → (state_of d classes).slot_count ≡ length (slots_of d files))
      (seen : Seen) (shows : (l : SlotLocation) → seen l ≡ picked scanned l) (winners : Winners)
      (losers : List SlotLocation) (h : IsDeduped seen winners losers) where
    abbrev scanned_repo : FilesRepoInner
    scanned_repo = record {
      classes = after;
      index = index_all winners [];
      next_version = highest 0 scanned + 1;
      page_files = files;
    }

    -- A slot was picked up where it is occupied, as what stands there.
    seen-stands :
        (l : SlotLocation) (slot : OccupiedSlot)
        → occupant hash files l ≡ some slot
        → seen l ≡ as_scanned l (some slot)
    seen-stands l slot at =
        let there : present l.size_class classes ≡ true = ground (
          arith,
          counted l.size_class,
          occupant_in-lt hash (slots_of l.size_class files) l.slot_index at,
        ) in
        shows l ∙ (survey.found l ∙ rw (there, at) refl)

    stands-seen :
        (l : SlotLocation) (s : ScannedSlot)
        → seen l ≡ some s
        → (slot : OccupiedSlot) × (occupant hash files l ≡ some slot)
          × (as_scanned l (some slot) ≡ some s)
    stands-seen l s e = elim (Option-cases (occupant hash files l)) [
      | inl nobody ↦ absurd (ground (arith, shows l, survey.found l))
      | inr (slot, at) ↦ (slot, at, sym (seen-stands l slot at) ∙ e)
    ]

    indexed_at :
        (key : Text × Text)
        → lookup key scanned_repo.index
          ≡ elim (lookup key winners) [ none ↦ none | some s ↦ some s.location ]
    indexed_at key = lookup-index_all winners [] key h.distinct

    scanned-IsConsistent : IsConsistent hash (λ l. contains l losers) scanned_repo
    scanned-IsConsistent = record {
      distinct = index_all-Distinct winners [] tt;
      distinct_classes = survey.distinct;
      indexed = λ key l e. elim (Option-cases (lookup key winners)) [
        | inl nobody ↦ absurd (ground (arith, indexed_at key))
        | inr (s, wins) ↦
            let (named, at, safe) = h.own key s wins in
            let place : s.location ≡ l = ground (arith, indexed_at key) in
            let (slot, stands', same) = stands-seen s.location s at in
            (
              ap (λ k. contains k losers) (sym place) ∙ safe,
              (slot, ap (occupant hash files) (sym place) ∙ stands', ground arith),
            )
      ];
      listed = λ l slot at.
          let (w, wins, _, fate) = h.decided l _ (seen-stands l slot at) in
          elim fate [
            | inl same ↦ inl (
                ground (arith, indexed_at (key_of slot), ap (λ (s : ScannedSlot). s.location) same))
            | inr gone ↦ inr gone
          ];
      versions = λ l slot at.
          omega (arith, version-le-highest 0 scanned l (sym (shows l) ∙ seen-stands l slot at));
      counted = λ d. ground (arith, survey.counted d, counted d);
      vacant = λ l e. (
        elim (Option-cases (occupant hash files l)) [
          | inl nobody ↦ nobody
          | inr (slot, at) ↦ absurd (ground (arith, survey.free l.size_class l.slot_index))
        ],
        ground (
          arith,
          survey.free l.size_class l.slot_index,
          survey.counted l.size_class,
          counted l.size_class,
        ),
      );
      occupied = λ l below e. elim (Option-cases (occupant hash files l)) [
        | inl nobody ↦ absurd (
            ground (
              arith,
              survey.free l.size_class l.slot_index,
              survey.counted l.size_class,
              counted l.size_class,
            ))
        | inr found ↦ found
      ];
      once = survey.once;
    }

    -- Released are slots that are there.
    lost-stands :
        (l : SlotLocation)
        → contains l losers ≡ true
        → (slot : OccupiedSlot) × (occupant hash files l ≡ some slot)
    lost-stands l e =
        let (s, at) = h.lost l e in let (slot, stands', _) = stands-seen l s at in (slot, stands')

    -- What the winners keep.
    saved-winner :
        (r' : FilesRepoInner)
        → IsReleased hash losers scanned_repo r'
        → (key : Text × Text)
        → saved hash r' key ≡ elim (lookup key winners) [ none ↦ none | some s ↦ some s.payload ]
    saved-winner r' done key = elim (Option-cases (lookup key winners)) [
      | inl nobody ↦ ground (arith, done.same_index, indexed_at key)
      | inr (s, wins) ↦
          let (named, at, safe) = h.own key s wins in
          let (slot, stands', same) = stands-seen s.location s at in
          ground (arith, done.same_index, indexed_at key, done.stood s.location)
    ]

    newest-winner :
        (r' : FilesRepoInner)
        → IsReleased hash losers scanned_repo r'
        → (l : SlotLocation) (slot : OccupiedSlot) → occupant hash files l ≡ some slot
        → (m : SlotLocation) × (best : OccupiedSlot) × (occupant hash files m ≡ some best)
          × (key_of best ≡ key_of slot)
          × (slot.version ≤ best.version)
          × (saved hash r' (key_of slot) ≡ some best.payload)
    newest-winner r' done l slot at =
        let (w, wins, newer, _) = h.decided l _ (seen-stands l slot at) in
        let (named, at', _) = h.own (key_of slot) w wins in
        let (best, stands', same) = stands-seen w.location w at' in
        (
          w.location,
          best,
          stands',
          ground arith,
          ground arith,
          saved-winner r' done (key_of slot) ∙ rw wins (ground arith),
        )

    only-winner :
        (r' : FilesRepoInner)
        → IsReleased hash losers scanned_repo r'
        → (key : Text × Text) (payload : List ℕ) → saved hash r' key ≡ some payload
        → (l : SlotLocation) × (slot : OccupiedSlot) × (occupant hash files l ≡ some slot)
          × (key_of slot ≡ key)
          × (slot.payload ≡ payload)
    only-winner r' done key payload e = elim (Option-cases (lookup key winners)) [
      | inl nobody ↦ absurd (ground (arith, saved-winner r' done key))
      | inr (s, wins) ↦
          let (named, at, _) = h.own key s wins in
          let (slot, stands', same) = stands-seen s.location s at in
          (s.location, slot, stands', ground arith, ground (arith, saved-winner r' done key))
    ]

    recovered :
        dedup scanned ([], []) ≡ (winners, losers)
        → highest 0 scanned + 1 < 2 ^ 64
        → (partitions : List LoadedPartition) × (r' : FilesRepoInner) × (recover
              (scanned, after)
              (open_files files)
            ≡ returns (partitions, r'))
          × IsRecovered files partitions r'
    unfolding recover open_files
    recovered split small =
        let opened : FilesRepoInner = record {
          classes = after;
          index = [];
          next_version = 0;
          page_files = files;
        } in
        let (r1, all, done) =
          free_all-IsReleased hash losers scanned_repo h.once lost-stands scanned-IsConsistent in
        let (q, went, same) =
          free_all-under (index_all winners []) (highest 0 scanned + 1) losers opened all in
        let none_indexed : q.index ≡ [] = free_all-index losers opened q went in
        (
          loaded winners,
          r1,
          rw (recover, split, went, mod-eq_of_lt small, none_indexed, same) refl,
          record {
            consistent = done.consistent;
            apart = loaded-OnePerKey winners h.distinct;
            loads = λ key. payload_of-loaded winners key ∙ sym (saved-winner r1 done key);
            newest = newest-winner r1 done;
            only = only-winner r1 done;
            counts = λ bound pos below.
                let top : highest 0 scanned < bound =
                  highest-lt bound 0 scanned pos survey.apart (λ l s e.
                    let (slot, at, same) = stands-seen l s (shows l ∙ e) in
                    ground (arith, below l slot at)) in
                omega (arith, done.same_version);
            folder = λ skip f. free_all-IsFolder hash skip losers scanned_repo r1 all f;
          },
        )

  nothing-IsDeduped : IsDeduped (λ l. none) [] []
  nothing-IsDeduped = record {
    distinct = tt;
    own = λ key s e. absurd (ground arith);
    decided = λ l s e. absurd (ground arith);
    lost = λ l e. absurd (ground arith);
    place = λ l s e. absurd (ground arith);
    once = tt;
  }

  -- The scan of a folder goes through if no slot is corrupt, or if corrupt ones are to be
  -- skipped, and no version is the last of the 64
  -- bits: whatever slots a crash left behind, the bookkeeping then says what is on disk, with each key in one slot; the
  -- partitions that are handed out are those that are kept; each key that a slot has is kept, with the payload of a slot of
  -- its that no other is newer than; and nothing else is kept.
  pub load_all_partitions-IsRecovered :
      (skip_errors : Bool) (files : PageFiles)
      → IsFolder hash skip_errors files
      → ((l : SlotLocation) (slot : OccupiedSlot)
          → occupant hash files l ≡ some slot
          → slot.version + 1 < 2 ^ 64)
      → (partitions : List LoadedPartition) × (r' : FilesRepoInner) × (load_all_partitions hash
            skip_errors
            (open_files files)
          ≡ returns (partitions, r'))
        × IsRecovered files partitions r'
  unfolding load_all_partitions open_files recover
  load_all_partitions-IsRecovered skip files folder small =
      let classes = discover_class_files files in
      let ((scanned, after), found, survey) =
        scan_classes-IsSurvey hash skip classes files
          (discover-Distinct hash skip files folder.distinct)
          (discover-IsOpened hash skip files folder) in
      let counted = discover_counted hash skip files folder in
      let (seen, shows, h) =
        dedup-IsDeduped scanned (λ l. none) ([], []) nothing-IsDeduped survey.apart
          (λ l s e. refl) in
      let seen_only : (l : SlotLocation) → seen l ≡ picked scanned l =
        λ l. ground (arith, shows l) in
      let (winners, losers) = dedup scanned ([], []) in
      let top : highest 0 scanned < 2 ^ 64 - 1 =
        highest-lt (2 ^ 64 - 1) 0 scanned (omega arith) survey.apart (λ l s e.
          let (slot, at, same) =
            stands-seen files classes after scanned survey counted seen seen_only winners losers h l
              s (seen_only l ∙ e) in
          ground (arith, small l slot at)) in
      let (partitions, r', done, all) =
        recovered files classes after scanned survey counted seen seen_only winners losers h refl
          (omega arith) in
      (partitions, r', rw found done, all)
