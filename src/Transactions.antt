-- ===== src/Transactions.antt =====
-- server/src/transactions: the transactions that are being built, by their ids.
pub mod Posts
mod Tests
use my_no_sql_server_grpc.Base.{ℕ, List, [], ◌∷◌, ◌++◌, Option, none, some, length, Text, text_eq}
use my_no_sql_server_grpc.Base.Assoc.{lookup, insert}
use my_no_sql_server_grpc.Registry
use my_no_sql_server_grpc.Registry.{Registry, no_entries}
use my_no_sql_server_grpc.App.Periods.{DataSyncPeriod}

abbrev pub transaction_ttl_secs : ℕ
transaction_ttl_secs = 60

-- `Act` is a `TransactionAction`.
pub record Transaction (Act : Type 0) : Type 0 where
  pub id : Text
  pub namespace : Text
  pub table_name : Text
  pub sync_period : DataSyncPeriod
  pub started : ℕ
  pub last_incoming : ℕ
  pub actions : List Act

abbrev pub Transactions : Type 0 → Type 0
Transactions Act = Registry (Transaction Act)

module _ {Act : Type 0} where
  unfoldable pub new_transaction : ℕ → Text → Text → Text → DataSyncPeriod → Transaction Act
  new_transaction now id namespace table_name sync_period = record {
    id = id;
    namespace = namespace;
    table_name = table_name;
    sync_period = sync_period;
    started = now;
    last_incoming = now;
    actions = [];
  }

  unfoldable pub touch : ℕ → Transaction Act → Transaction Act
  touch now t = record t { last_incoming = now }

  unfoldable pub append : List Act → Transaction Act → Transaction Act
  append actions t = record t { actions = t.actions ++ actions }

  unfoldable pub get_actions_amount : Transaction Act → ℕ
  get_actions_amount t = length t.actions

  unfoldable pub take_actions : Transaction Act → List Act × Transaction Act
  take_actions t = (t.actions, record t { actions = [] })

  unfoldable pub new : Transactions Act
  new = no_entries

  abbrev pub id_of : Transaction Act → Text
  id_of t = t.id

  abbrev pub last_incoming_of : Transaction Act → ℕ
  last_incoming_of t = t.last_incoming

  unfoldable pub create :
      ℕ → ℕ → Text → Text → DataSyncPeriod → Transactions Act → Transaction Act × Transactions Act
  create now started namespace table_name sync_period r =
      Registry.create now (λ id. new_transaction started id namespace table_name sync_period) r

  unfoldable pub get : Text → Transactions Act → Option (Transaction Act)
  get transaction_id r = Registry.get transaction_id r

  unfoldable pub get_all : Transactions Act → List (Transaction Act)
  get_all r = Registry.get_all r

  unfoldable pub remove : Text → Transactions Act → Option (Transaction Act) × Transactions Act
  remove transaction_id r = Registry.remove_id transaction_id r

  unfoldable pub gc : ℕ → ℕ → Transactions Act → List Text × Transactions Act
  gc now ttl_secs r = Registry.gc id_of last_incoming_of now ttl_secs r
