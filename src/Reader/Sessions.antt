-- ===== src/Reader/Sessions.antt =====
-- server/src/reader/reader_sessions.rs: every live session, by its id. An `Arc<ReaderSession>` is the id of
-- a session: what is done through it is done to the session that is registered under it.
pub mod Told
use my_no_sql_server_grpc.Base.{
  ℕ, ◌≡◌, Bool, ◌&&◌, List, [], ◌∷◌, Option, none, some, if◌then◌else◌, Text, text_eq, text_same,
}
use my_no_sql_server_grpc.Base.Assoc.{lookup, insert}
use my_no_sql_server_grpc.Registry
use my_no_sql_server_grpc.Registry.{Registry, no_entries}
use my_no_sql_server_grpc.Reader.Session
use my_no_sql_server_grpc.Reader.Session.{ReaderSession, is_subscribed}

abbrev pub session_ttl_secs : ℕ
session_ttl_secs = 30

abbrev pub ReaderSessions : Type 0 → Type 0
ReaderSessions C = Registry (ReaderSession C)

module _ {C : Type 0} where
  unfoldable pub new : ReaderSessions C
  new = no_entries

  abbrev pub id_of : ReaderSession C → Text
  id_of s = s.id

  abbrev pub last_incoming_of : ReaderSession C → ℕ
  last_incoming_of s = s.last_incoming

  -- `now` is the clock's reading for the id, `connected` the one that the session takes.
  unfoldable pub create :
      ℕ → ℕ → Text → Text → Text → Text → ReaderSessions C → ReaderSession C × ReaderSessions C
  create now connected app_name version namespace ip r =
      Registry.create now (λ id. Session.new connected id app_name version namespace ip) r

  unfoldable pub get : Text → ReaderSessions C → Option (ReaderSession C)
  get session_id r = Registry.get session_id r

  unfoldable pub get_all : ReaderSessions C → List (ReaderSession C)
  get_all r = Registry.get_all r

  unfoldable pub remove : Text → ReaderSessions C → Option (ReaderSession C) × ReaderSessions C
  remove session_id r = Registry.remove_id session_id r

  abbrev pub follows : Text → Text → ReaderSession C → Bool
  follows namespace table_name s = text_same s.namespace namespace && is_subscribed s table_name

  abbrev pub subscribed_of : Text → Text → List (Text × ReaderSession C) → List (ReaderSession C)
  subscribed_of namespace table_name [] = []
  subscribed_of namespace table_name ((_, s) ∷ m) =
      let rest = subscribed_of namespace table_name m in
      if follows namespace table_name s then s ∷ rest else rest

  unfoldable pub get_subscribed : Text → Text → ReaderSessions C → List (ReaderSession C)
  get_subscribed namespace table_name r = subscribed_of namespace table_name r.inner

  unfoldable pub gc : ℕ → ℕ → ReaderSessions C → List Text × ReaderSessions C
  gc now ttl_secs r = Registry.gc id_of last_incoming_of now ttl_secs r

  -- A call on the session behind an `Arc`.
  unfoldable pub update :
      Text → (ReaderSession C → ReaderSession C) → ReaderSessions C → ReaderSessions C
  update session_id f r = elim (lookup session_id r.inner) [
    | none ↦ r
    | some s ↦ record r { inner = insert session_id (f s) r.inner }
  ]
