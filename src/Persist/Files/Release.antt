-- ===== src/Persist/Files/Release.antt =====
-- The release of all the slots that lost.
use my_no_sql_server_grpc.Base.{
  ℕ, ◌≡◌, refl, ap, ◌∙◌, arith, true, false, not, ◌&&◌, inl, inr, List, [], ◌∷◌, none, some,
  if◌then◌else◌, Text, nat_eq, Bool-cases,
}
use my_no_sql_server_grpc.Base.Outcome.{Outcome, Outcome-cases, returns, panics}
use my_no_sql_server_grpc.Persist.Slot.{OccupiedSlot}
use my_no_sql_server_grpc.Persist.Files.{
  SlotLocation, location_same, location_same_iff, location_eq, FilesRepoInner, zero_slot, push_free,
  free_slot, free_all,
}
use my_no_sql_server_grpc.Persist.Files.FreeList.{contains, Unique}
use my_no_sql_server_grpc.Persist.Files.Consistent.{
  stands, IsConsistent, free_slot-IsFreed, IsConsistent-same,
}
use my_no_sql_server_grpc.Persist.Files.Choose.{no_stale}

-- The bookkeeping of the same files under another index and counter.
abbrev pub reindexed : List ((Text × Text) × SlotLocation) → ℕ → FilesRepoInner → FilesRepoInner
reindexed index next_version r = record r { index = index; next_version = next_version }

abbrev pub map_outcome :
    (FilesRepoInner → FilesRepoInner) → Outcome FilesRepoInner → Outcome FilesRepoInner
map_outcome f (returns r) = returns (f r)
map_outcome f panics = panics

module _ (index : List ((Text × Text) × SlotLocation)) (next_version : ℕ) where
  -- A release reads and writes neither.
  free_slot-reindexed :
      (l : SlotLocation) (r : FilesRepoInner)
      → free_slot l (reindexed index next_version r)
        ≡ map_outcome (reindexed index next_version) (free_slot l r)
  unfolding free_slot zero_slot push_free
  free_slot-reindexed l r = ground arith

  free_all-reindexed :
      (ls : List SlotLocation) (r : FilesRepoInner)
      → free_all ls (reindexed index next_version r)
        ≡ map_outcome (reindexed index next_version) (free_all ls r)
  unfolding free_all
  free_all-reindexed [] r = refl
  free_all-reindexed (l ∷ ls) r = elim (Outcome-cases (free_slot l r)) [
    | inl e ↦ rw (free_slot-reindexed l r, e) refl
    | inr (r', e) ↦ rw (free_slot-reindexed l r, e) (free_all-reindexed ls r')
  ]

  pub free_all-under :
      (ls : List SlotLocation) (r : FilesRepoInner) {r' : FilesRepoInner}
      → free_all ls (reindexed index next_version r) ≡ returns r'
      → (q : FilesRepoInner) × (free_all ls r ≡ returns q) × (reindexed index next_version q ≡ r')
  free_all-under ls r e = elim (Outcome-cases (free_all ls r)) [
    | inl stops ↦ absurd (ground (arith, free_all-reindexed ls r))
    | inr (q, done) ↦ (q, done, ground (arith, free_all-reindexed ls r))
  ]

free_slot-index :
    (l : SlotLocation) (r r' : FilesRepoInner) → free_slot l r ≡ returns r' → r'.index ≡ r.index
unfolding free_slot zero_slot push_free
free_slot-index l r r' e = ground arith

pub free_all-index :
    (ls : List SlotLocation) (r r' : FilesRepoInner)
    → free_all ls r ≡ returns r'
    → r'.index ≡ r.index
unfolding free_all
free_all-index [] r r' e = ground arith
free_all-index (l ∷ ls) r r' e = elim (Outcome-cases (free_slot l r)) [
  | inl stops ↦ absurd (ground arith)
  | inr (q, one) ↦ free_all-index ls q r' (ground arith) ∙ free_slot-index l r q one
]

module _ (hash : List ℕ → ℕ) where
  -- The repository once the places `ls` are released.
  pub record IsReleased (ls : List SlotLocation) (r r' : FilesRepoInner) : Type 0 where
    pub consistent : IsConsistent hash no_stale r'
    pub same_index : r'.index ≡ r.index
    pub same_version : r'.next_version ≡ r.next_version
    pub stood :
        (l : SlotLocation) → stands hash r' l ≡ (if contains l ls then none else stands hash r l)

  pub free_all-IsReleased :
      (ls : List SlotLocation) (r : FilesRepoInner)
      → Unique ls
      → ((l : SlotLocation)
          → contains l ls ≡ true
          → (slot : OccupiedSlot) × (stands hash r l ≡ some slot))
      → IsConsistent hash (λ l. contains l ls) r
      → (r' : FilesRepoInner) × (free_all ls r ≡ returns r') × IsReleased ls r r'
  unfolding free_all
  free_all-IsReleased [] r u there h = (
    r,
    refl,
    record { consistent = h; same_index = refl; same_version = refl; stood = λ l. refl },
  )
  free_all-IsReleased (x ∷ xs) r u there h =
      let first : contains x (x ∷ xs) ≡ true = rw ((location_same_iff x x).1 refl) refl in
      let (slot, at) = there x first in
      let (r1, one, freed) = free_slot-IsFreed hash (λ l. contains l (x ∷ xs)) x r h at first in
      let left : (l : SlotLocation) → contains l xs ≡ true → location_same x l ≡ false = λ l e.
        elim (Bool-cases (location_same x l)) [
          | inl same ↦ absurd (
              ground
                (arith, ap (λ (k : SlotLocation). contains k xs) ((location_same_iff x l).0 same)))
          | inr other ↦ other
        ] in
      let remain : IsConsistent hash (λ l. contains l xs) r1 =
        IsConsistent-same hash (λ l. contains l (x ∷ xs) && not (location_same x l))
          (λ l. contains l xs) r1 (λ l. ground (arith, left l)) freed.consistent in
      let (r', all, done) =
        free_all-IsReleased xs r1 u.1
          (λ l e.
            let (s, found) = there l (ground (arith, e)) in
            (s, freed.stood l ∙ rw (left l e) found))
          remain in
      (
        r',
        rw one all,
        record {
          consistent = done.consistent;
          same_index = done.same_index ∙ freed.same_index;
          same_version = done.same_version ∙ freed.same_version;
          stood = λ l. ground (arith, done.stood l, freed.stood l);
        },
      )
