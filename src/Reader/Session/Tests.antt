-- ===== src/Reader/Session/Tests.antt =====
-- A reader that is told two chunks and asks once.
use my_no_sql_server_grpc.Base.{ℕ, ◌≡◌, refl, arith, true, List, [], ◌∷◌, replicate}
use my_no_sql_server_grpc.Reader.Session.{ReaderSession, new, enqueue, pop, has_overflowed}
use my_no_sql_server_grpc.Reader.Session.History.{
  History, here, next, answer, backlog_passed, enqueued, popped, IsFed, new-IsFed,
}

abbrev session : ReaderSession ℕ
session = new 7 (49 ∷ []) [] [] (100 ∷ []) []

abbrev told : ReaderSession ℕ
told = enqueue (8 ∷ 9 ∷ []) session

abbrev history : History session (8 ∷ 9 ∷ []) (answer (pop told).0) (pop told).1
history = next (next here (enqueued session (8 ∷ 9 ∷ []))) (popped told)

first_given : answer (pop told).0 ≡ 8 ∷ []
unfolding enqueue pop new
first_given = refl

new-IsFed_example :
    IsFed (8 ∷ 9 ∷ []) (answer (pop told).0) (pop told).1
    × (has_overflowed (pop told).1 ≡ backlog_passed history)
new-IsFed_example = new-IsFed 7 (49 ∷ []) [] [] (100 ∷ []) [] history

abbrev many : List ℕ
many = replicate 1001 8

-- One chunk too many throws the backlog away.
thrown_away : has_overflowed (enqueue many session) ≡ true
unfolding enqueue has_overflowed new
thrown_away = ground arith
