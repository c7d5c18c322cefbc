-- ===== src/Reader/Sessions/Told.antt =====
-- Who is told when all the subscribers of a table are.
use my_no_sql_server_grpc.Base.{
  ◌≡◌, refl, arith, List, [], ◌∷◌, inl, inr, Option, none, some, if◌then◌else◌, Bool-cases,
  Option-cases, Text, text_eq, text_same, text_same_iff,
}
use my_no_sql_server_grpc.Base.Assoc.{lookup, Distinct, lookup-insert, insert-Distinct}
use my_no_sql_server_grpc.Registry.Create.{IsValid}
use my_no_sql_server_grpc.Reader.Session.{ReaderSession, enqueue}
use my_no_sql_server_grpc.Reader.Sessions.{ReaderSessions, id_of, follows, subscribed_of, update}

module _ {C : Type 0} where
  -- `for session in sessions { session.enqueue(chunks.iter().cloned()) }`
  abbrev pub enqueue_to : List C → List (ReaderSession C) → ReaderSessions C → ReaderSessions C
  enqueue_to chunks [] r = r
  enqueue_to chunks (s ∷ sessions) r = enqueue_to chunks sessions (update s.id (enqueue chunks) r)

  abbrev pub with_session :
      (ReaderSession C → ReaderSession C) → Option (ReaderSession C) → Option (ReaderSession C)
  with_session f none = none
  with_session f (some s) = some (f s)

  update-lookup :
      (session_id : Text) (f : ReaderSession C → ReaderSession C) (r : ReaderSessions C) (id : Text)
      → lookup id (update session_id f r).inner ≡ (
          if text_same session_id id then with_session f (lookup id r.inner) else lookup id r.inner)
  unfolding update
  update-lookup session_id f r id = elim (Option-cases (lookup session_id r.inner)) [
    | inl absent ↦ ground (arith, text_same_iff session_id id)
    | inr (s, present) ↦
        ground (arith, text_same_iff session_id id, lookup-insert session_id id (f s) r.inner)
  ]

  pub enqueue_to-lookup :
      (chunks : List C) (namespace table_name : Text) (m : List (Text × ReaderSession C))
      (r : ReaderSessions C) (id : Text)
      → Distinct m
      → ((j : Text) (s : ReaderSession C) → lookup j m ≡ some s → s.id ≡ j)
      → lookup id (enqueue_to chunks (subscribed_of namespace table_name m) r).inner
        ≡ elim (lookup id m) [
          | none ↦ lookup id r.inner
          | some s ↦
              if follows namespace table_name s
              then with_session (enqueue chunks) (lookup id r.inner)
              else lookup id r.inner
        ]
  enqueue_to-lookup chunks namespace table_name [] r id d own = refl
  enqueue_to-lookup chunks namespace table_name ((j, s) ∷ m) r id d own =
      let e : s.id ≡ j = own j s (ground (arith, text_same_iff j j)) in
      let own' : (i : Text) (t : ReaderSession C) → lookup i m ≡ some t → t.id ≡ i =
        λ i t found. own i t (ground (arith, text_same_iff j i, d.0)) in
      elim (Bool-cases (follows namespace table_name s)) [
        | inl told ↦
            let r' = update s.id (enqueue chunks) r in
            let rest = enqueue_to-lookup chunks namespace table_name m r' id d.1 own' in
            rw told (ground (arith, text_same_iff j id, update-lookup s.id (enqueue chunks) r id))
        | inr other ↦ rw other (
            ground (
              arith,
              text_same_iff j id,
              enqueue_to-lookup chunks namespace table_name m r id d.1 own',
            ))
      ]

  pub update-IsValid :
      (session_id : Text) (f : ReaderSession C → ReaderSession C) (r : ReaderSessions C)
      → ((s : ReaderSession C) → (f s).id ≡ s.id)
      → IsValid id_of r
      → IsValid id_of (update session_id f r)
  unfolding update
  update-IsValid session_id f r same h = elim (Option-cases (lookup session_id r.inner)) [
    | inl absent ↦ rw (absent, update) h
    | inr (s, present) ↦
        rw (present, update)
          (record {
            distinct = insert-Distinct session_id (f s) r.inner h.distinct;
            own_id = λ j t found. ground (
              arith,
              text_same_iff session_id j,
              lookup-insert session_id j (f s) r.inner,
              h.own_id j t,
              h.own_id session_id s present,
              same s,
            );
            given = λ j t found. ground (
              arith,
              text_same_iff session_id j,
              lookup-insert session_id j (f s) r.inner,
              h.given j t,
              h.given session_id s present,
            );
          })
  ]

  enqueue-id : (chunks : List C) (s : ReaderSession C) → (enqueue chunks s).id ≡ s.id
  unfolding enqueue
  enqueue-id chunks s = ground arith

  pub enqueue_to-IsValid :
      (chunks : List C) (sessions : List (ReaderSession C)) (r : ReaderSessions C)
      → IsValid id_of r
      → IsValid id_of (enqueue_to chunks sessions r)
  enqueue_to-IsValid chunks [] r h = h
  enqueue_to-IsValid chunks (s ∷ sessions) r h =
      enqueue_to-IsValid chunks sessions (update s.id (enqueue chunks) r)
        (update-IsValid s.id (enqueue chunks) r (enqueue-id chunks) h)
