-- ===== src/Registry.antt =====
-- server/src/reader/reader_sessions.rs and server/src/transactions/registry.rs hold what they hold in the
-- same way: a copy-on-write map by id, with a counter for the ids. A change is made under the write lock
-- and stored whole, so an operation is a function of the map.
pub mod Gc
pub mod Create
mod Tests
use my_no_sql_server_grpc.Base.{
  ℕ, zero, suc, ◌+◌, ◌*◌, ◌%◌, ◌≡◌, Bool, true, false, List, [], ◌∷◌, ◌++◌, Option, none, some, ltb,
  if◌then◌else◌, Text, text_eq,
}
use my_no_sql_server_grpc.Base.Assoc.{lookup, insert, remove}
use my_no_sql_server_grpc.Base.Decimal.{decimal}

-- `AtomicU64::fetch_add`: the counter is a `u64`, and wraps around.
abbrev pub u64_range : ℕ
u64_range = 18446744073709551616

-- `format!("{}-{}", now, next_id)`
unfoldable pub new_id : ℕ → ℕ → Text
new_id now n = decimal now ++ (45 ∷ decimal n)

pub record Registry (V : Type 0) : Type 0 where
  pub inner : List (Text × V)
  pub next_id : ℕ

-- `now - last_incoming > ttl_secs * 1_000_000`
abbrev pub is_expired : ℕ → ℕ → ℕ → Bool
is_expired now ttl_secs last_incoming = ltb (last_incoming + ttl_secs * 1000000) now

module _ {V : Type 0} where
  abbrev pub no_entries : Registry V
  no_entries = record { inner = []; next_id = 0 }

  -- `make` builds the value of an id.
  unfoldable pub create : ℕ → (Text → V) → Registry V → V × Registry V
  create now make r =
      let id = new_id now r.next_id in
      let value = make id in
      (value, record { inner = insert id value r.inner; next_id = (r.next_id + 1) % u64_range })

  unfoldable pub get : Text → Registry V → Option V
  get id r = lookup id r.inner

  abbrev values_of : List (Text × V) → List V
  values_of [] = []
  values_of ((_, v) ∷ m) = v ∷ values_of m

  unfoldable pub get_all : Registry V → List V
  get_all r = values_of r.inner

  -- What was removed, and the registry without it: an id that is not there changes nothing.
  unfoldable pub remove_id : Text → Registry V → Option V × Registry V
  remove_id id r = elim (lookup id r.inner) [
    | none ↦ (none, r)
    | some value ↦ (some value, record r { inner = remove id r.inner })
  ]

  module _ (id_of : V → Text) (last_incoming_of : V → ℕ) where
    abbrev pub expired_ids : ℕ → ℕ → List (Text × V) → List Text
    expired_ids now ttl_secs [] = []
    expired_ids now ttl_secs ((_, v) ∷ m) =
        let rest = expired_ids now ttl_secs m in
        if is_expired now ttl_secs (last_incoming_of v) then id_of v ∷ rest else rest

    abbrev pub remove_all : List Text → Registry V → Registry V
    remove_all [] r = r
    remove_all (id ∷ ids) r = remove_all ids (remove_id id r).1

    unfoldable pub gc : ℕ → ℕ → Registry V → List Text × Registry V
    gc now ttl_secs r =
        let expired = expired_ids now ttl_secs r.inner in (expired, remove_all expired r)
