-- ===== src/App/WriteWindow.antt =====
-- server/src/app/write_window.rs. A moment is a count of microseconds since 1970, and `open_until` is the state.
use my_no_sql_server_grpc.Base.{
  ℕ, ◌+◌, ◌-◌, ◌*◌, ◌/◌, ◌%◌, ◌≤◌, ◌<◌, ◌≡◌, arith, Bool, true, false, inl, inr, ◌↔◌, Option, none,
  some, leb, ◌==◌, if◌then◌else◌, Bool-cases,
}

abbrev pub write_window_secs : ℕ
write_window_secs = 600

pub record WriteWindow : Type 0 where
  pub open_until : ℕ

unfoldable pub new : WriteWindow
new = record { open_until = 0 }

unfoldable pub open_window : ℕ → WriteWindow → ℕ × WriteWindow
open_window now w = (write_window_secs, record { open_until = now + write_window_secs * 1000000 })

unfoldable pub close_window : WriteWindow → WriteWindow
close_window w = record { open_until = 0 }

unfoldable pub remaining_secs : ℕ → WriteWindow → Option ℕ
remaining_secs now w =
    let left = w.open_until - now in
    let secs = left / 1000000 in
    if leb w.open_until now then none else some (if (left % 1000000) == 0 then secs else secs + 1)

abbrev is_some : Option ℕ → Bool
is_some none = false
is_some (some secs) = true

unfoldable pub is_open : ℕ → WriteWindow → Bool
is_open now w = is_some (remaining_secs now w)

-- What is left of the window at `now`, rounded up to whole seconds; a window that is open has at least one.
abbrev pub IsRemaining : ℕ → ℕ → Option ℕ → Type 0
IsRemaining until now none = until ≤ now
IsRemaining until now (some secs) =
    (0 < secs) × (until ≤ now + secs * 1000000) × (now + (secs - 1) * 1000000 < until)

-- `remaining_secs` is the rounded up rest of the window, and `none` exactly from its end on.
pub remaining_secs-IsRemaining :
    (now : ℕ) (w : WriteWindow) → IsRemaining w.open_until now (remaining_secs now w)
unfolding remaining_secs
remaining_secs-IsRemaining now w = elim (Bool-cases (leb w.open_until now)) [
  | inl shut ↦ rw (remaining_secs, shut) (ground arith)
  | inr still ↦ elim (Bool-cases (((w.open_until - now) % 1000000) == 0)) [
    | inl whole ↦ rw (remaining_secs, still, whole) (ground arith, ground arith, ground arith)
    | inr part ↦ rw (remaining_secs, still, part) (ground arith, ground arith, ground arith)
  ]
]

-- Whatever the window was, once opened it is open for the next ten minutes and not longer, and once closed it
-- is shut at every moment: opening it again moves its end and adds nothing.
pub is_open-open_window :
    (w : WriteWindow) (now later : ℕ)
    → now ≤ later
    → ((is_open later (open_window now w).1 ≡ true) ↔ (later < now + write_window_secs * 1000000))
      × (is_open later (close_window w) ≡ false)
unfolding is_open open_window close_window remaining_secs
is_open-open_window w now later h = (ground arith, ground arith)
