-- ===== src/App/Periods.antt =====
-- server/src/data_sync_period.rs: how long a write may wait in memory.
use my_no_sql_server_grpc.Base.{ℕ, ◌+◌, ◌*◌, ◌≤◌, arith}

pub data DataSyncPeriod : Type 0 where
  immediately : DataSyncPeriod
  sec1 : DataSyncPeriod
  sec5 : DataSyncPeriod
  sec15 : DataSyncPeriod
  sec30 : DataSyncPeriod
  min1 : DataSyncPeriod
  asap : DataSyncPeriod

unfoldable pub get_sync_moment : DataSyncPeriod → ℕ → ℕ
get_sync_moment immediately now = now
get_sync_moment asap now = now
get_sync_moment sec1 now = now + 1 * 1000000
get_sync_moment sec5 now = now + 5 * 1000000
get_sync_moment sec15 now = now + 15 * 1000000
get_sync_moment sec30 now = now + 30 * 1000000
get_sync_moment min1 now = now + 60 * 1000000

-- A write is never due before it was made, and waits no longer than a minute.
pub get_sync_moment-within :
    (period : DataSyncPeriod) (now : ℕ)
    → (now ≤ get_sync_moment period now) × (get_sync_moment period now ≤ now + 60 * 1000000)
unfolding get_sync_moment
get_sync_moment-within immediately now = (omega arith, omega arith)
get_sync_moment-within asap now = (omega arith, omega arith)
get_sync_moment-within sec1 now = (omega arith, omega arith)
get_sync_moment-within sec5 now = (omega arith, omega arith)
get_sync_moment-within sec15 now = (omega arith, omega arith)
get_sync_moment-within sec30 now = (omega arith, omega arith)
get_sync_moment-within min1 now = (omega arith, omega arith)
