-- ===== src/Persist/Files/Delete.antt =====
-- `delete_partition` on what the repository keeps.
use my_no_sql_server_grpc.Base.{
  ℕ, ◌≡◌, refl, arith, Bool, true, false, not, ◌&&◌, ◌⊎◌, inl, inr, List, none, some, ap, ◌∙◌,
  if◌then◌else◌, Text, nat_eq, pair_eq, pair_same, pair_same_iff, Option-cases, Bool-cases,
}
use my_no_sql_server_grpc.Base.Assoc.{lookup, remove, remove-Distinct, lookup-remove}
use my_no_sql_server_grpc.Base.Outcome.{returns}
use my_no_sql_server_grpc.Persist.Slot.{OccupiedSlot}
use my_no_sql_server_grpc.Persist.Files.{
  SlotLocation, location_same, location_same_iff, FilesRepoInner, free_slot, delete_partition,
}
use my_no_sql_server_grpc.Persist.Files.Consistent.{
  key_of, stands, saved, IsConsistent, IsFreed, free_slot-IsFreed, saved-freed, IsConsistent-same,
}
use my_no_sql_server_grpc.Persist.Files.Choose.{no_stale}
use my_no_sql_server_grpc.Persist.Files.Open.{IsFolder}
use my_no_sql_server_grpc.Persist.Files.Intact.{free_slot-IsFolder}
use my_no_sql_server_grpc.Persist.Files.Put.{one_key}

module _ (hash : List ℕ → ℕ) where
  -- The repository after the partition `key` was deleted.
  pub record IsDeleted (key : Text × Text) (r r' : FilesRepoInner) : Type 0 where
    pub consistent : IsConsistent hash no_stale r'
    pub next : r'.next_version ≡ r.next_version
    pub kept :
        (k : Text × Text) → saved hash r' k ≡ (if pair_same key k then none else saved hash r k)
    pub folder : (skip : Bool) → IsFolder hash skip r.page_files → IsFolder hash skip r'.page_files

  -- The entry of the index is gone, and the slot is not released yet.
  module _ (key : Text × Text) (location : SlotLocation) (r : FilesRepoInner)
      (h : IsConsistent hash no_stale r) (e : lookup key r.index ≡ some location) where
    abbrev unlisted : FilesRepoInner
    unlisted = record r { index = remove key r.index }

    indexed-unlisted :
        (k : Text × Text) (l : SlotLocation)
        → lookup k unlisted.index ≡ some l
        → (location_same location l ≡ false)
          × ((slot : OccupiedSlot) × (stands hash r l ≡ some slot) × (key_of slot ≡ k))
    indexed-unlisted k l there = elim (Bool-cases (pair_same key k)) [
      | inl same ↦ absurd (ground (arith, lookup-remove key k r.index))
      | inr other ↦
          let kept : lookup k r.index ≡ some l = ground (arith, lookup-remove key k r.index) in
          (
            elim (Bool-cases (location_same location l)) [
              | inl same ↦
                  let eq : key ≡ k =
                    one_key hash r h key k l (e ∙ ap some ((location_same_iff location l).0 same))
                      kept in
                  absurd (ground (arith, (pair_same_iff key k).1 eq))
              | inr different ↦ different
            ],
            (h.indexed k l kept).1,
          )
    ]

    listed-unlisted :
        (l : SlotLocation) (slot : OccupiedSlot)
        → stands hash r l ≡ some slot
        → (lookup (key_of slot) unlisted.index ≡ some l) ⊎ (location_same location l ≡ true)
    listed-unlisted l slot there =
        let own : lookup (key_of slot) r.index ≡ some l = ground (arith, h.listed l slot there) in
        elim (Bool-cases (pair_same key (key_of slot))) [
          | inl same ↦
              let found : lookup key r.index ≡ some l =
                ap (λ (k : Text × Text). lookup k r.index)
                  ((pair_same_iff key (key_of slot)).0 same)
                ∙ own in
              inr (ground (arith, location_same_iff location l))
          | inr other ↦ inl (lookup-remove key (key_of slot) r.index ∙ rw other own)
        ]

    unlisted-IsConsistent : IsConsistent hash (location_same location) unlisted
    unlisted-IsConsistent = record {
      distinct = remove-Distinct key r.index h.distinct;
      distinct_classes = h.distinct_classes;
      indexed = indexed-unlisted;
      listed = listed-unlisted;
      versions = h.versions;
      counted = h.counted;
      vacant = h.vacant;
      occupied = h.occupied;
      once = h.once;
    }

    saved-unlisted :
        (k : Text × Text)
        → saved hash unlisted k ≡ (if pair_same key k then none else saved hash r k)
    saved-unlisted k = ground (arith, lookup-remove key k r.index)

    freed-IsDeleted :
        (r' : FilesRepoInner)
        → free_slot location unlisted ≡ returns r'
        → IsFreed hash (location_same location) location unlisted r'
        → IsDeleted key r r'
    freed-IsDeleted r' done freed = record {
      consistent =
          IsConsistent-same hash (λ l. location_same location l && not (location_same location l))
            no_stale r' (λ l. ground arith) freed.consistent;
      next = freed.same_version;
      kept = λ k.
          saved-freed hash (location_same location) location unlisted r' unlisted-IsConsistent
            ((location_same_iff location location).1 refl) freed k
          ∙ saved-unlisted k;
      folder = λ skip f. free_slot-IsFolder hash skip location unlisted r' done f;
    }

  -- A deletion always goes through, the bookkeeping says what is on disk as before, and what is kept is the same but for
  -- this key, under which nothing stands.
  pub delete_partition-IsDeleted :
      (table_name partition_key : Text) (r : FilesRepoInner)
      → IsConsistent hash no_stale r
      → (r' : FilesRepoInner) × (delete_partition table_name partition_key r ≡ returns r')
        × IsDeleted (table_name, partition_key) r r'
  unfolding delete_partition
  delete_partition-IsDeleted t p r h = elim (Option-cases (lookup (t, p) r.index)) [
    | inl nothing ↦ (
      r,
      rw (delete_partition, nothing) refl,
      record {
        consistent = h;
        next = refl;
        kept = λ k. ground (arith, pair_same_iff (t, p) k);
        folder = λ skip f. f;
      },
    )
    | inr (location, e) ↦
        let key : Text × Text = (t, p) in
        let (slot, at, name) = (h.indexed key location e).1 in
        let (r', done, freed) =
          free_slot-IsFreed hash (location_same location) location (unlisted key location r h e)
            (unlisted-IsConsistent key location r h e) at
            ((location_same_iff location location).1 refl) in
        (r', rw (delete_partition, e) done, freed-IsDeleted key location r h e r' done freed)
  ]
