-- ===== src/Persist/Files/Open.antt =====
-- What the opening of a folder says of its page-files, before the scan.
use my_no_sql_server_grpc.Base.{
  ℕ, ◌≡◌, ◌≤◌, refl, ap, arith, Bool, true, ◌||◌, inl, inr, List, [], ◌∷◌, none, some, length,
  nat_eq, ==_iff, All, ◌==◌, Bool-cases, le→ltb,
}
use my_no_sql_server_grpc.Base.Assoc.{lookup, Distinct}
use my_no_sql_server_grpc.Persist.SizeClass.{min_size_class}
use my_no_sql_server_grpc.Persist.Files.{PageFiles, slots_of, state_of, discover_class_files}
use my_no_sql_server_grpc.Persist.Files.Scan.{is_clean}
use my_no_sql_server_grpc.Persist.Files.Survey.{IsOpened}

-- The files of a folder whose names are numbers of size classes, each with its slots; without `skip_errors` none of the
-- slots is corrupt.
abbrev pub IsPageFile : (List ℕ → ℕ) → Bool → ℕ × List (List ℕ) → Type 0
IsPageFile hash skip file = (min_size_class ≤ file.0) × ((skip || is_clean hash file.1) ≡ true)

pub record IsFolder (hash : List ℕ → ℕ) (skip : Bool) (files : PageFiles) : Type 0 where
  pub distinct : Distinct files
  pub page_files : All (IsPageFile hash skip) files

pub All-weaken {ℓ κ} :
    {A : Type ℓ} {P Q : A → Type κ} (xs : List A) → ((x : A) → P x → Q x) → All P xs → All Q xs
All-weaken [] f h = tt
All-weaken (x ∷ xs) f h = (f x h.0, All-weaken xs f h.1)

-- Each entry is the one that its key finds.
abbrev Found : PageFiles → ℕ × List (List ℕ) → Type 0
Found files file = lookup file.0 files ≡ some file.1

All-Found : (files : PageFiles) → Distinct files → All (Found files) files
All-Found [] d = tt
All-Found ((c, slots) ∷ files) d = (
  ground (arith, ==_iff c c),
  All-weaken files
      (λ f h. elim (Bool-cases (c == f.0)) [
        | inl same ↦
            absurd (ground (arith, d.0, ap (λ (k : ℕ). lookup k files) ((==_iff c f.0).0 same)))
        | inr other ↦ ground arith
      ])
      (All-Found files d.1),
)

lookup-discover_none :
    (c : ℕ) (files : PageFiles)
    → lookup c files ≡ none
    → lookup c (discover_class_files files) ≡ none
unfolding discover_class_files
lookup-discover_none c [] h = refl
lookup-discover_none c ((d, slots) ∷ files) h = ground (arith, lookup-discover_none c files)

module _ (hash : List ℕ → ℕ) (skip : Bool) where
  pub discover-Distinct :
      (files : PageFiles) → Distinct files → Distinct (discover_class_files files)
  unfolding discover_class_files
  discover-Distinct [] d = tt
  discover-Distinct ((c, slots) ∷ files) d =
      ground (arith, lookup-discover_none c files, discover-Distinct files d.1)

  opened :
      (all files : PageFiles)
      → All (Found all) files
      → All (IsPageFile hash skip) files
      → IsOpened hash skip all (discover_class_files files)
  unfolding discover_class_files
  opened all [] found pages = tt
  opened all ((c, slots) ∷ files) found pages =
      let rest = opened all files found.1 pages.1 in
      rw (le→ltb c min_size_class pages.0.0) ((refl, ground arith, ground arith), rest)

  counted :
      (d : ℕ) (files : PageFiles)
      → All (IsPageFile hash skip) files
      → (state_of d (discover_class_files files)).slot_count ≡ length (slots_of d files)
  unfolding discover_class_files
  counted d [] pages = refl
  counted d ((c, slots) ∷ files) pages =
      rw (le→ltb c min_size_class pages.0.0) (elim (Bool-cases (c == d)) [
        | inl same ↦ ground arith
        | inr other ↦ ground (arith, counted d files pages.1)
      ])

  pub discover-IsOpened :
      (files : PageFiles)
      → IsFolder hash skip files
      → IsOpened hash skip files (discover_class_files files)
  discover-IsOpened files h = opened files files (All-Found files h.distinct) h.page_files

  pub discover_counted :
      (files : PageFiles)
      → IsFolder hash skip files
      → (d : ℕ) → (state_of d (discover_class_files files)).slot_count ≡ length (slots_of d files)
  discover_counted files h d = counted d files h.page_files
