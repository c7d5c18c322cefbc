-- ===== src/Persist/Files/Intact.antt =====
-- The files stay those of a folder: no operation leaves a corrupt slot, or a file that is not a page-file.
use my_no_sql_server_grpc.Base.{
  ℕ, zero, suc, ◌≡◌, ◌≤◌, refl, arith, Bool, true, inl, inr, List, [], ◌∷◌, Option, none, some,
  length, drop, nat_eq, ==_iff, ◌==◌, All, Option-cases, Bool-cases,
}
use my_no_sql_server_grpc.Base.Assoc.{lookup, insert, insert-Distinct}
use my_no_sql_server_grpc.Base.Outcome.{Outcome-cases, returns}
use my_no_sql_server_grpc.Persist.SizeClass.{min_size_class}
use my_no_sql_server_grpc.Persist.Slot.{OccupiedSlot, occupied, decode_slot, slot_prefix_len}
use my_no_sql_server_grpc.Persist.Files.{
  SlotLocation, location_same, release, PageFiles, FilesRepoInner, slots_of, write_at, zero_at,
  write_slot, zero_slot, push_free, free_slot, free_all,
}
use my_no_sql_server_grpc.Persist.Files.Slots.{decode_slot-zeros}
use my_no_sql_server_grpc.Persist.Files.Scan.{is_clean}
use my_no_sql_server_grpc.Persist.Files.Open.{IsFolder, IsPageFile}

module _ (hash : List ℕ → ℕ) (skip : Bool) where
  pub All-lookup :
      (c : ℕ) (files : PageFiles) (slots : List (List ℕ))
      → All (IsPageFile hash skip) files
      → lookup c files ≡ some slots
      → IsPageFile hash skip (c, slots)
  All-lookup c [] slots h e = absurd (ground arith)
  All-lookup c ((d, w) ∷ files) slots h e = ground (arith, ==_iff d c, All-lookup c files slots h.1)

  pub All-insert :
      (c : ℕ) (files : PageFiles) (slots : List (List ℕ))
      → All (IsPageFile hash skip) files
      → IsPageFile hash skip (c, slots)
      → All (IsPageFile hash skip) (insert c slots files)
  All-insert c [] slots h p = (p, tt)
  All-insert c ((d, w) ∷ files) slots h p = elim (Bool-cases (d == c)) [
    | inl same ↦ rw same ((ground (arith, ==_iff d c), p.1), h.1)
    | inr other ↦ rw other (h.0, All-insert c files slots h.1 p)
  ]

  is_clean-zero_at :
      (i : ℕ) (slots : List (List ℕ))
      → is_clean hash slots ≡ true
      → is_clean hash (zero_at i slots) ≡ true
  unfolding zero_at
  is_clean-zero_at zero [] h = refl
  is_clean-zero_at (suc i) [] h = refl
  is_clean-zero_at zero (slot ∷ slots) h =
      ground (arith, decode_slot-zeros hash (drop slot_prefix_len slot))
  is_clean-zero_at (suc i) (slot ∷ slots) h = ground (arith, is_clean-zero_at i slots)

  pub is_clean-write_at :
      (c i : ℕ) (buf : List ℕ) (slots : List (List ℕ))
      → is_clean hash (buf ∷ []) ≡ true
      → i ≤ length slots
      → is_clean hash slots ≡ true
      → is_clean hash (write_at c i buf slots) ≡ true
  unfolding write_at
  is_clean-write_at c zero buf [] e below h = e
  is_clean-write_at c zero buf (slot ∷ slots) e below h = ground arith
  is_clean-write_at c (suc i) buf [] e below h = absurd (omega arith)
  is_clean-write_at c (suc i) buf (slot ∷ slots) e below h =
      ground (arith, is_clean-write_at c i buf slots e)

  pub write_slot-IsFolder :
      (l : SlotLocation) (buf : List ℕ) (files : PageFiles) (slot : OccupiedSlot)
      → decode_slot hash buf ≡ occupied slot
      → l.slot_index ≤ length (slots_of l.size_class files)
      → min_size_class ≤ l.size_class
      → IsFolder hash skip files
      → IsFolder hash skip (write_slot l buf files)
  unfolding write_slot
  write_slot-IsFolder l buf files slot e below big h = record {
    distinct = insert-Distinct l.size_class _ files h.distinct;
    page_files = All-insert l.size_class files _ h.page_files (
      big,
      elim (Option-cases (lookup l.size_class files)) [
        | inl new ↦
            ground
              (arith, is_clean-write_at l.size_class l.slot_index buf (slots_of l.size_class files))
        | inr (slots, found) ↦ ground (
          arith,
          All-lookup l.size_class files slots h.page_files found,
          is_clean-write_at l.size_class l.slot_index buf (slots_of l.size_class files),
        )
      ],
    );
  }

  pub free_slot-IsFolder :
      (l : SlotLocation) (r r' : FilesRepoInner)
      → free_slot l r ≡ returns r'
      → IsFolder hash skip r.page_files
      → IsFolder hash skip r'.page_files
  unfolding free_slot zero_slot
  free_slot-IsFolder l r r' e h = elim (Option-cases (lookup l.size_class r.page_files)) [
    | inl nothing ↦ absurd (ground arith)
    | inr (slots, found) ↦ elim (Outcome-cases (push_free l r.classes)) [
      | inl stops ↦ absurd (ground arith)
      | inr (classes, pushed) ↦
          let files : r'.page_files
              ≡ insert l.size_class (zero_at l.slot_index slots) r.page_files =
            ground arith in
          let old = All-lookup l.size_class r.page_files slots h.page_files found in
          rw files (record {
            distinct = insert-Distinct l.size_class _ r.page_files h.distinct;
            page_files =
                All-insert l.size_class r.page_files _ h.page_files
                  (old.0, ground (arith, old, is_clean-zero_at l.slot_index slots));
          })
    ]
  ]

  pub release-IsFolder :
      (existing : Option SlotLocation) (target : SlotLocation) (r r' : FilesRepoInner)
      → release existing target r ≡ returns r'
      → IsFolder hash skip r.page_files
      → IsFolder hash skip r'.page_files
  unfolding release
  release-IsFolder none target r r' e h = ground arith
  release-IsFolder (some old) target r r' e h = elim (Bool-cases (location_same old target)) [
    | inl same ↦ ground arith
    | inr moved ↦ free_slot-IsFolder old r r' (ground arith) h
  ]

  pub free_all-IsFolder :
      (ls : List SlotLocation) (r r' : FilesRepoInner)
      → free_all ls r ≡ returns r'
      → IsFolder hash skip r.page_files
      → IsFolder hash skip r'.page_files
  unfolding free_all
  free_all-IsFolder [] r r' e h = ground arith
  free_all-IsFolder (l ∷ ls) r r' e h = elim (Outcome-cases (free_slot l r)) [
    | inl stops ↦ absurd (ground arith)
    | inr (q, one) ↦ free_all-IsFolder ls q r' (ground arith) (free_slot-IsFolder l r q one h)
  ]
