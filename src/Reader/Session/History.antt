-- ===== src/Reader/Session/History.antt =====
-- What a reader is given, against all that its session was told.
use my_no_sql_server_grpc.Base.{
  ℕ, ◌≤◌, ◌≡◌, ◌+◌, ◌||◌, Bool, refl, sym, ap, ◌∙◌, arith, true, false, List, [], ◌∷◌, ◌++◌, inl,
  inr, Option, none, some, ltb, length, length-append, append_assoc, append-nil, Bool-cases,
  List-cases, Text,
}
use my_no_sql_server_grpc.Reader.Session.{
  ReaderSession, max_queued_chunks, new, touch, subscribe, enqueue, has_overflowed, pop,
}

abbrev pub answer : {C : Type 0} → Option C → List C
answer none = []
answer (some chunk) = chunk ∷ []

-- One thing that happens to a session: the chunks that it is told, and those that it gives out.
pub data Step {C : Type 0} : ReaderSession C → List C → List C → ReaderSession C → Type 0 where
  enqueued : (s : ReaderSession C) (chunks : List C) → Step s chunks [] (enqueue chunks s)
  popped : (s : ReaderSession C) → Step s [] (answer (pop s).0) (pop s).1
  woken : (s : ReaderSession C) → Step s [] [] (record s { has_data = false })
  subscribed : (s : ReaderSession C) (table_name : Text) → Step s [] [] (subscribe table_name s)
  touched : (s : ReaderSession C) (now : ℕ) → Step s [] [] (touch now s)

-- Any number of them, in the order in which the lock was taken.
pub data History {C : Type 0} (start : ReaderSession C)
    : List C → List C → ReaderSession C → Type 0 where
  here : History start [] [] start
  next :
      {told given more out : List C} {s t : ReaderSession C}
      → History start told given s
      → Step s more out t
      → History start (told ++ more) (given ++ out) t

-- Whether the chunks that were told and not given out were ever more than a thousand.
abbrev pub backlog_passed :
    {C : Type 0} {start s : ReaderSession C} {told given : List C}
    → History start told given s
    → Bool
backlog_passed here = false
backlog_passed (next {told} {given} {more} {out} before step) =
    backlog_passed before || ltb (length (given ++ out) + 1000) (length (told ++ more))

module _ {C : Type 0} where
  -- What was given out is the head of what was told, without a gap, and as long as the session is alive the
  -- queue is the rest of it; the queue never holds more than the ceiling, and a session that was thrown away
  -- holds nothing.
  pub record IsFed (told given : List C) (s : ReaderSession C) : Type 0 where
    pub bounded : length s.queue ≤ max_queued_chunks
    pub rest : List C
    pub head : given ++ rest ≡ told
    pub alive : has_overflowed s ≡ false → s.queue ≡ rest
    pub thrown : has_overflowed s ≡ true → s.queue ≡ []

  enqueue-IsFed :
      (told given chunks : List C) (s : ReaderSession C)
      → IsFed told given s
      → IsFed (told ++ chunks) given (enqueue chunks s)
  unfolding enqueue has_overflowed
  enqueue-IsFed told given chunks s h =
      let head : given ++ (h.rest ++ chunks) ≡ told ++ chunks =
        sym (append_assoc given h.rest chunks) ∙ ap (λ (t : List C). t ++ chunks) h.head in
      elim (Bool-cases s.overflowed) [
        | inl over ↦
            rw (over, enqueue)
              (record {
                bounded = h.bounded;
                rest = h.rest ++ chunks;
                head = head;
                alive = ground arith;
                thrown = λ e. h.thrown over;
              })
        | inr live ↦ elim (Bool-cases (ltb max_queued_chunks (length (s.queue ++ chunks)))) [
          | inl full ↦
              rw (live, enqueue, full)
                (record {
                  bounded = omega arith;
                  rest = h.rest ++ chunks;
                  head = head;
                  alive = ground arith;
                  thrown = λ e. refl;
                })
          | inr room ↦
              rw (live, enqueue, room)
                (record {
                  bounded = ground arith;
                  rest = h.rest ++ chunks;
                  head = head;
                  alive = λ e. ap (λ (t : List C). t ++ chunks) (h.alive live);
                  thrown = ground arith;
                })
        ]
      ]

  popped_rest :
      (told given : List C) (s : ReaderSession C)
      → IsFed told given s
      → IsFed (told ++ []) (given ++ answer (pop s).0) (pop s).1
  unfolding pop has_overflowed
  popped_rest told given s h = elim (List-cases s.queue) [
    | inl nothing ↦
        rw (pop, nothing, append-nil told, append-nil given)
          (record {
            bounded = omega arith;
            rest = h.rest;
            head = h.head;
            alive = λ e. sym nothing ∙ h.alive e;
            thrown = λ e. refl;
          })
    | inr (c, cs, some_left) ↦ elim (Bool-cases s.overflowed) [
      | inl over ↦ absurd (ground (arith, h.thrown over))
      | inr live ↦
          let whole : c ∷ cs ≡ h.rest = sym some_left ∙ h.alive live in
          rw (pop, some_left, append-nil told)
            (record {
              bounded = ground (arith, h.bounded);
              rest = cs;
              head =
                  append_assoc given (c ∷ []) cs ∙ ap (λ (t : List C). given ++ t) whole ∙ h.head;
              alive = λ e. refl;
              thrown = ground arith;
            })
    ]
  ]

  Step-IsFed :
      {told given : List C} {s : ReaderSession C} {more out : List C} {t : ReaderSession C}
      → Step s more out t
      → IsFed told given s
      → IsFed (told ++ more) (given ++ out) t
  unfolding subscribe touch has_overflowed
  Step-IsFed {told} {given} (enqueued s chunks) h =
      rw (append-nil given) (enqueue-IsFed told given chunks s h)
  Step-IsFed {told} {given} (popped s) h = popped_rest told given s h
  Step-IsFed {told} {given} (woken s) h =
      rw (append-nil given, append-nil told)
        (record {
          bounded = h.bounded;
          rest = h.rest;
          head = h.head;
          alive = h.alive;
          thrown = h.thrown;
        })
  Step-IsFed {told} {given} (subscribed s table_name) h =
      rw (append-nil given, append-nil told)
        (record {
          bounded = h.bounded;
          rest = h.rest;
          head = h.head;
          alive = h.alive;
          thrown = h.thrown;
        })
  Step-IsFed {told} {given} (touched s now) h =
      rw (append-nil given, append-nil told)
        (record {
          bounded = h.bounded;
          rest = h.rest;
          head = h.head;
          alive = h.alive;
          thrown = h.thrown;
        })

  -- How much of what was told is still to be given out, as long as nothing was thrown away.
  backlog :
      (told given : List C) (s : ReaderSession C)
      → IsFed told given s
      → s.overflowed ≡ false
      → length told ≡ length given + length s.queue
  unfolding has_overflowed
  backlog told given s h live =
      sym (ap length h.head)
      ∙ (length-append given h.rest
          ∙ ap (λ (q : List C). length given + length q) (sym (h.alive live)))

  -- A step that tells nothing leaves the flag, and the backlog within the ceiling.
  quiet :
      (told given out : List C) (s : ReaderSession C)
      → IsFed told given s
      → s.overflowed ≡ s.overflowed || ltb (length (given ++ out) + 1000) (length (told ++ []))
  quiet told given out s h = elim (Bool-cases s.overflowed) [
    | inl over ↦ ground arith
    | inr live ↦ ground (
      arith,
      h.bounded,
      backlog told given s h live,
      length-append given out,
      ap length (append-nil told),
    )
  ]

  -- What a step makes of the flag.
  Step-overflowed :
      {told given : List C} {s : ReaderSession C} {more out : List C} {t : ReaderSession C}
      → Step s more out t
      → IsFed told given s
      → has_overflowed t
        ≡ has_overflowed s || ltb (length (given ++ out) + 1000) (length (told ++ more))
  unfolding enqueue pop subscribe touch has_overflowed
  Step-overflowed {told} {given} (enqueued s chunks) h = elim (Bool-cases s.overflowed) [
    | inl over ↦ ground arith
    | inr live ↦ ground (
      arith,
      backlog told given s h live,
      length-append told chunks,
      length-append s.queue chunks,
      ap length (append-nil given),
    )
  ]
  Step-overflowed {told} {given} (popped s) h = quiet told given (answer (pop s).0) s h
  Step-overflowed {told} {given} (woken s) h = quiet told given [] s h
  Step-overflowed {told} {given} (subscribed s table_name) h = quiet told given [] s h
  Step-overflowed {told} {given} (touched s now) h = quiet told given [] s h

  History-IsFed :
      {start : ReaderSession C} {told given : List C} {s : ReaderSession C}
      → IsFed [] [] start
      → History start told given s
      → IsFed told given s
  History-IsFed h here = h
  History-IsFed h (next before step) = Step-IsFed step (History-IsFed h before)

  History-overflowed :
      {start : ReaderSession C} {told given : List C} {s : ReaderSession C}
      → has_overflowed start ≡ false
      → IsFed [] [] start
      → (history : History start told given s) → has_overflowed s ≡ backlog_passed history
  History-overflowed new h here = new
  History-overflowed new h (next {told} {given} {more} {out} before step) =
      Step-overflowed step (History-IsFed h before)
      ∙ ap (λ (b : Bool). b || ltb (length (given ++ out) + 1000) (length (told ++ more)))
          (History-overflowed new h before)

  -- In every state that a new session can come to, in whatever order writers, readers and subscriptions take its
  -- lock, what its reader was given is a prefix of what the session was told. The session was thrown away exactly if at some
  -- moment more than a thousand of the chunks that it was told were not given out; its queue is then empty, and otherwise it is
  -- the rest of what was told. It never holds more than a thousand.
  pub new-IsFed :
      {told given : List C} {s : ReaderSession C} (now : ℕ)
      (id app_name version namespace ip : Text)
      → (history : History (new now id app_name version namespace ip) told given s)
      → IsFed told given s × (has_overflowed s ≡ backlog_passed history)
  unfolding new has_overflowed
  new-IsFed now id app_name version namespace ip history =
      let fresh : IsFed [] [] (new now id app_name version namespace ip) = record {
        bounded = omega arith;
        rest = [];
        head = refl;
        alive = λ e. refl;
        thrown = λ e. refl;
      } in
      (History-IsFed fresh history, History-overflowed refl fresh history)
