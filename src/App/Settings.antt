-- ===== src/App/Settings.antt =====
-- server/src/app/ui_settings.rs: the two thresholds that the UI keeps on the server.
use my_no_sql_server_grpc.Base.{ℕ, ◌+◌, ◌≤◌, ◌≡◌, arith, min, ltb, if◌then◌else◌}

pub record UiSettings : Type 0 where
  pub warn_ms : ℕ
  pub bad_ms : ℕ

unfoldable pub sanitized : UiSettings → UiSettings
sanitized s =
    if ltb s.bad_ms s.warn_ms then record { warn_ms = s.bad_ms; bad_ms = s.warn_ms } else s

-- Whatever was asked for, the warning comes no later than the alarm, and the numbers are the two that were given; a
-- pair in order is kept.
pub sanitized-order :
    (s : UiSettings)
    → ((sanitized s).warn_ms ≡ min s.warn_ms s.bad_ms)
      × ((sanitized s).bad_ms + min s.warn_ms s.bad_ms ≡ s.warn_ms + s.bad_ms)
      × (s.warn_ms ≤ s.bad_ms → sanitized s ≡ s)
unfolding sanitized
sanitized-order s = (ground arith, ground arith, ground arith)
