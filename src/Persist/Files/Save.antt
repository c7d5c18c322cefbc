-- ===== src/Persist/Files/Save.antt =====
-- `save_partition` on what the repository keeps.
use my_no_sql_server_grpc.Base.{
  ℕ, ◌+◌, ◌^◌, ◌≡◌, ◌≤◌, ◌<◌, refl, arith, Bool, true, inl, inr, List, Option, none, some, ◌∙◌,
  le→leb, if◌then◌else◌, length, Text, nat_eq, pair_eq, pair_same, Bool-cases,
}
use my_no_sql_server_grpc.Base.Assoc.{lookup}
use my_no_sql_server_grpc.Base.Outcome.{returns}
use my_no_sql_server_grpc.Base.Utf8.{is_utf8}
use my_no_sql_server_grpc.Persist.SizeClass.Bounds.{size_class_for-IsClassFor}
use my_no_sql_server_grpc.Persist.Slot.{OccupiedSlot, slot_bytes_needed, max_key_len, slot_overhead}
use my_no_sql_server_grpc.Persist.Slot.RoundTrip.{slot_of, IsSlot, decode_slot-encode_slot}
use my_no_sql_server_grpc.Persist.Files.{
  SlotLocation, location_same, location_same_iff, FilesRepoInner, choose_slot, release, store,
  save_partition,
}
use my_no_sql_server_grpc.Persist.Files.Slots.{content}
use my_no_sql_server_grpc.Persist.Files.Consistent.{
  stands, saved, IsConsistent, free_slot-IsFreed, saved-freed, IsConsistent-same,
}
use my_no_sql_server_grpc.Persist.Files.Choose.{no_stale, choose_slot-IsChosen}
use native.Mathlib.Nat.{mod-eq_of_lt, pow-le-pow_right}
use my_no_sql_server_grpc.Persist.SizeClass.{min_size_class}
use my_no_sql_server_grpc.Persist.SizeClass.Bounds.{IsClassFor}
use my_no_sql_server_grpc.Persist.Files.Open.{IsFolder}
use my_no_sql_server_grpc.Persist.Files.Intact.{write_slot-IsFolder, release-IsFolder}
use my_no_sql_server_grpc.Persist.Files.Put.{left, put, put-IsConsistent, saved-put, stands-put}

module _ (hash : List ℕ → ℕ) where
  -- The repository after `payload` was saved under `key`.
  pub record IsSaved (key : Text × Text) (payload : List ℕ) (r r' : FilesRepoInner) : Type 0 where
    pub consistent : IsConsistent hash no_stale r'
    pub next : r'.next_version ≡ r.next_version + 1
    pub kept :
        (k : Text × Text)
        → saved hash r' k ≡ (if pair_same key k then some payload else saved hash r k)
    pub folder : (skip : Bool) → IsFolder hash skip r.page_files → IsFolder hash skip r'.page_files

  release-kept :
      (existing : Option SlotLocation) (target : SlotLocation) (r : FilesRepoInner)
      → ((old : SlotLocation)
          → existing ≡ some old
          → (slot : OccupiedSlot) × (stands hash r old ≡ some slot))
      → IsConsistent hash (left hash existing target) r
      → (r' : FilesRepoInner) × (release existing target r ≡ returns r')
        × IsConsistent hash no_stale r'
        × (r'.next_version ≡ r.next_version)
        × ((k : Text × Text) → saved hash r' k ≡ saved hash r k)
  unfolding release
  release-kept none target r there h = (r, refl, h, refl, λ k. refl)
  release-kept (some old) target r there h = elim (Bool-cases (location_same old target)) [
    | inl same ↦ (
      r,
      rw same refl,
      IsConsistent-same hash (left hash (some old) target) no_stale r (λ l. ground arith) h,
      refl,
      λ k. refl,
    )
    | inr moved ↦
        let (slot, at) = there old refl in
        let stale : left hash (some old) target old ≡ true =
          ground (arith, location_same_iff old old) in
        let (r', done, freed) =
          free_slot-IsFreed hash (left hash (some old) target) old r h at stale in
        (
          r',
          rw moved done,
          IsConsistent-same hash _ no_stale r' (λ l. ground arith) freed.consistent,
          freed.same_version,
          saved-freed hash (left hash (some old) target) old r r' h stale freed,
        )
  ]

  store-IsSaved :
      (key : Text × Text) (payload : List ℕ) (c : ℕ) (r : FilesRepoInner)
      → ((bytes : List ℕ) → hash bytes < 2 ^ 32)
      → IsConsistent hash no_stale r
      → r.next_version + 1 < 2 ^ 64
      → IsSlot c r.next_version key.0 key.1 payload
      → min_size_class ≤ c
      → (r' : FilesRepoInner) × (store hash key payload c
            (choose_slot (lookup key r.index) c r.classes)
            r
          ≡ returns r')
        × IsSaved key payload r r'
  unfolding store content
  store-IsSaved key payload c r law h room fits big =
      let (target, classes) = choose_slot (lookup key r.index) c r.classes in
      let chosen = choose_slot-IsChosen hash key c r h in
      let (buf, encoded, _, decoded) =
        decode_slot-encode_slot hash c r.next_version key.0 key.1 payload law fits in
      let slot = slot_of r.next_version key.0 key.1 payload in
      let says : content hash buf ≡ some slot = rw (content, decoded) refl in
      let r1 = put hash key c r target classes buf slot h chosen says refl refl in
      let stood = stands-put hash key c r target classes buf slot h chosen says refl refl in
      let there : (old : SlotLocation)
          → lookup key r.index ≡ some old
          → (s : OccupiedSlot) × (stands hash r1 old ≡ some s) =
        λ old e. elim (Bool-cases (location_same target old)) [
          | inl same ↦ (slot, stood old ∙ rw same refl)
          | inr other ↦ let (s, at, _) = (h.indexed key old e).1 in (s, stood old ∙ rw other at)
        ] in
      let (r', done, consistent, next, kept) =
        release-kept (lookup key r.index) target r1 there
          (put-IsConsistent hash key c r target classes buf slot h chosen says refl refl) in
      (
        r',
        rw (store, encoded, mod-eq_of_lt room) done,
        record {
          consistent = consistent;
          next = next;
          kept = λ k.
              kept k ∙ saved-put hash key c r target classes buf slot h chosen says refl refl k;
          folder = λ skip f. release-IsFolder hash skip (lookup key r.index) target r1 r' done (
              write_slot-IsFolder hash skip target buf r.page_files slot decoded chosen.fits
                (omega (arith, chosen.size)) f);
        },
      )

  class-le : {needed c : ℕ} → IsClassFor needed c → min_size_class ≤ c
  class-le {needed} {c} class = omega (
    arith,
    class.is_power,
    pow-le-pow_right {n = 2} (omega arith) {i = 0} {j = class.exponent} (omega arith),
  )

  -- A partition whose keys are texts of at most 65,535 bytes and whose slot needs at most 2 ^ 31 bytes is saved: the call does not
  -- panic, the bookkeeping says what is on disk as before, and what is kept is the same but for this key, under which
  -- the new payload stands. The crc is taken to be a `u32`, and the 64-bit counter not to have run out.
  pub save_partition-IsSaved :
      (table_name partition_key : Text) (payload : List ℕ) (r : FilesRepoInner)
      → ((bytes : List ℕ) → hash bytes < 2 ^ 32)
      → IsConsistent hash no_stale r
      → r.next_version + 1 < 2 ^ 64
      → length table_name ≤ max_key_len
      → length partition_key ≤ max_key_len
      → is_utf8 table_name ≡ true
      → is_utf8 partition_key ≡ true
      → slot_overhead + length table_name + length partition_key + length payload ≤ 2 ^ 31
      → (r' : FilesRepoInner) × (save_partition hash table_name partition_key payload r
          ≡ returns r')
        × IsSaved (table_name, partition_key) payload r r'
  unfolding save_partition slot_bytes_needed
  save_partition-IsSaved t p payload r law h room ft fp ut up small =
      let needed = slot_overhead + length t + length p + length payload in
      let (c, picked, class) = size_class_for-IsClassFor needed small in
      let (r', done, ready) =
        store-IsSaved (t, p) payload c r law h room
          (record {
            encodable = record {
              table_fits = ft;
              key_fits = fp;
              slot_fits = class.fits;
              size_fits = class.is_u32;
            };
            version_fits = omega arith;
            table_is_utf8 = ut;
            key_is_utf8 = up;
          })
          (class-le class) in
      (
        r',
        rw
            (
              save_partition,
              slot_bytes_needed,
              le→leb (length t) max_key_len ft,
              le→leb (length p) max_key_len fp,
              picked,
            )
            done,
        ready,
      )
