-- ===== src/Reader/Session.antt =====
-- server/src/reader/reader_session.rs: the queue of one reader. The set of tables is a list without
-- repetitions; what stands behind the mutex and the permit of `Notify` are fields of the state, and a
-- call under the lock is one function of it. `C` is the type of a chunk, which no operation looks into.
pub mod History
mod Tests
use my_no_sql_server_grpc.Base.{
  ℕ, ◌+◌, ◌<◌, ◌≡◌, Bool, true, false, ◌&&◌, ◌||◌, List, [], ◌∷◌, ◌++◌, Option, none, some, ltb,
  ◌==◌, if◌then◌else◌, length, Text, text_same,
}

abbrev pub max_queued_chunks : ℕ
max_queued_chunks = 1000

pub record ReaderSession (C : Type 0) : Type 0 where
  pub id : Text
  pub app_name : Text
  pub version : Text
  pub namespace : Text
  pub ip : Text
  pub connected : ℕ
  pub last_incoming : ℕ
  pub tables : List Text
  pub queue : List C
  pub overflowed : Bool
  pub has_data : Bool

abbrev contains : Text → List Text → Bool
contains name [] = false
contains name (t ∷ ts) = text_same t name || contains name ts

-- `a <= b` of two texts, by their bytes.
abbrev text_leb : Text → Text → Bool
text_leb [] ys = true
text_leb (x ∷ xs) [] = false
text_leb (x ∷ xs) (y ∷ ys) = ltb x y || ((x == y) && text_leb xs ys)

abbrev insert_sorted : Text → List Text → List Text
insert_sorted t [] = t ∷ []
insert_sorted t (u ∷ us) = if text_leb t u then t ∷ u ∷ us else u ∷ insert_sorted t us

-- `sort_unstable`: texts that are equal cannot be told apart, so the sort is a function.
abbrev pub sort : List Text → List Text
sort [] = []
sort (t ∷ ts) = insert_sorted t (sort ts)

module _ {C : Type 0} where
  -- `now` is the clock's reading.
  unfoldable pub new : ℕ → Text → Text → Text → Text → Text → ReaderSession C
  new now id app_name version namespace ip = record {
    id = id;
    app_name = app_name;
    version = version;
    namespace = namespace;
    ip = ip;
    connected = now;
    last_incoming = now;
    tables = [];
    queue = [];
    overflowed = false;
    has_data = false;
  }

  unfoldable pub touch : ℕ → ReaderSession C → ReaderSession C
  touch now s = record s { last_incoming = now }

  unfoldable pub subscribe : Text → ReaderSession C → ReaderSession C
  subscribe table_name s = record s {
    tables = if contains table_name s.tables then s.tables else s.tables ++ (table_name ∷ []);
  }

  unfoldable pub is_subscribed : ReaderSession C → Text → Bool
  is_subscribed s table_name = contains table_name s.tables

  unfoldable pub get_monitoring_snapshot : ReaderSession C → List Text × ℕ
  get_monitoring_snapshot s = (sort s.tables, length s.queue)

  -- Whether the loop over the chunks pushed one.
  abbrev queued : List C → Bool
  queued [] = false
  queued (c ∷ cs) = true

  unfoldable pub enqueue : List C → ReaderSession C → ReaderSession C
  enqueue chunks s =
      let queue = s.queue ++ chunks in
      let has_data = s.has_data || queued chunks in
      if s.overflowed
      then s
      else if ltb max_queued_chunks (length queue)
      then record s { queue = []; overflowed = true; has_data = has_data }
      else record s { queue = queue; has_data = has_data }

  unfoldable pub has_overflowed : ReaderSession C → Bool
  has_overflowed s = s.overflowed

  abbrev first : List C → Option C
  first [] = none
  first (c ∷ cs) = some c

  abbrev others : List C → List C
  others [] = []
  others (c ∷ cs) = cs

  unfoldable pub pop : ReaderSession C → Option C × ReaderSession C
  pop s = (first s.queue, record s { queue = others s.queue })

  -- `meanwhile` is what happens to the session between the first look and the second, at the end of the
  -- wait; the permit is taken when the wait ends by it.
  unfoldable pub get_next_chunk :
      (ReaderSession C → ReaderSession C) → ReaderSession C → Option C × ReaderSession C
  unfolding pop
  get_next_chunk meanwhile s =
      let s' = meanwhile (pop s).1 in
      elim (pop s).0 [
        | some chunk ↦ (some chunk, (pop s).1)
        | none ↦ pop (record s' { has_data = false })
      ]
