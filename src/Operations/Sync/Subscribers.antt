-- ===== src/Operations/Sync/Subscribers.antt =====
-- A write tells every subscriber of its table once, and nobody else.
use my_no_sql_server_grpc.Base.{
  ℕ, ◌≡◌, refl, sym, ◌∙◌, arith, false, List, [], ◌∷◌, ◌++◌, append-nil, inl, inr, Option, none,
  some, if◌then◌else◌, Option-cases, Text, text_eq,
}
use my_no_sql_server_grpc.Base.Assoc.{lookup}
use my_no_sql_server_grpc.Registry
use my_no_sql_server_grpc.Registry.Create.{IsValid}
use my_no_sql_server_grpc.Reader.SyncChunk.{SyncChunk}
use my_no_sql_server_grpc.Reader.Session
use my_no_sql_server_grpc.Reader.Session.{ReaderSession}
use my_no_sql_server_grpc.Reader.Sessions.{ReaderSessions, id_of, follows, get, get_subscribed}
use my_no_sql_server_grpc.Reader.Sessions.Told.{enqueue_to, enqueue_to-lookup, enqueue_to-IsValid}
use my_no_sql_server_grpc.Operations.Sync.{enqueue, enqueue_each}

-- A session after one `enqueue` of `chunks`, which is no call at all when there are none.
abbrev pub told : {C : Type 0} → List C → ReaderSession C → ReaderSession C
told [] s = s
told (c ∷ chunks) s = Session.enqueue (c ∷ chunks) s

module _ {R A : Type 0} (get_partition_key : R → Text) (get_content_size : R → ℕ)
    (namespace table_name : Text) where
  -- What a session is after the subscribers were told.
  abbrev pub after_told :
      List (SyncChunk R A)
      → Option (ReaderSession (SyncChunk R A))
      → Option (ReaderSession (SyncChunk R A))
  after_told chunks none = none
  after_told chunks (some s) = some (if follows namespace table_name s then told chunks s else s)

  enqueue_each-found :
      (chunks : List (SyncChunk R A)) (sessions : List (ReaderSession (SyncChunk R A)))
      (r : ReaderSessions (SyncChunk R A))
      → enqueue_each get_partition_key get_content_size chunks sessions r
        ≡ elim chunks [ [] ↦ r | c ∷ cs ↦ enqueue_to (c ∷ cs) sessions r ]
  enqueue_each-found [] [] r = refl
  enqueue_each-found [] (s ∷ sessions) r = refl
  enqueue_each-found (c ∷ chunks) [] r = refl
  enqueue_each-found (c ∷ chunks) (s ∷ sessions) r = refl

  -- In a registry that is well formed, `enqueue` queues the chunks once, in one call, for every session of the
  -- namespace that is subscribed to the table, changes no other session, and keeps the registry well formed.
  pub enqueue-told :
      (chunks : List (SyncChunk R A)) (sessions : ReaderSessions (SyncChunk R A))
      → IsValid id_of sessions
      → IsValid id_of
          (enqueue get_partition_key get_content_size namespace table_name chunks sessions)
        × ((id : Text)
            → get id
                (enqueue get_partition_key get_content_size namespace table_name chunks sessions)
              ≡ after_told chunks (get id sessions))
  unfolding enqueue get get_subscribed Registry.get
  enqueue-told [] sessions h =
      let e = enqueue_each-found [] (get_subscribed namespace table_name sessions) sessions in
      rw e (
        h,
        λ id. elim (Option-cases (lookup id sessions.inner)) [
          | inl absent ↦ rw absent refl
          | inr (s, present) ↦ ground arith
        ],
      )
  enqueue-told (c ∷ chunks) sessions h =
      let e =
        enqueue_each-found (c ∷ chunks) (get_subscribed namespace table_name sessions) sessions in
      rw e (
        enqueue_to-IsValid (c ∷ chunks) (get_subscribed namespace table_name sessions) sessions h,
        λ id.
            enqueue_to-lookup (c ∷ chunks) namespace table_name sessions.inner sessions id
              h.distinct h.own_id
            ∙ elim (Option-cases (lookup id sessions.inner)) [
              | inl absent ↦ ground arith
              | inr (s, present) ↦ ground arith
            ],
      )

module _ {C : Type 0} where
  pub told-follows :
      (namespace table_name : Text) (chunks : List C) (s : ReaderSession C)
      → follows namespace table_name (told chunks s) ≡ follows namespace table_name s
  unfolding Session.enqueue Session.is_subscribed
  told-follows namespace table_name [] s = refl
  told-follows namespace table_name (c ∷ chunks) s = ground arith

  -- A session that is alive after it was told was alive before, and has the chunks at the end of its queue.
  pub told-queue :
      (chunks : List C) (s : ReaderSession C)
      → (told chunks s).overflowed ≡ false
      → (s.overflowed ≡ false) × ((told chunks s).queue ≡ s.queue ++ chunks)
  unfolding Session.enqueue
  told-queue [] s h = (h, sym (append-nil s.queue))
  told-queue (c ∷ chunks) s h = ground arith
