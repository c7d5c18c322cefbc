-- ===== src/Transactions/Tests.antt =====
-- Two posts, and what is committed.
use my_no_sql_server_grpc.Base.{ℕ, ◌≡◌, List, [], ◌∷◌, length}
use my_no_sql_server_grpc.App.Periods.{sec5}
use my_no_sql_server_grpc.Transactions.{
  Transaction, new_transaction, take_actions, get_actions_amount,
}
use my_no_sql_server_grpc.Transactions.Posts.{post_all, posted, take_actions-post_all}

abbrev posts : List (ℕ × List ℕ)
posts = (8, 1 ∷ 2 ∷ []) ∷ (9, 3 ∷ []) ∷ []

abbrev transaction : Transaction ℕ
transaction = new_transaction 7 (49 ∷ []) (100 ∷ []) (116 ∷ []) sec5

take_actions-post_all_example :
    ((take_actions (post_all posts transaction)).0 ≡ posted posts)
    × (get_actions_amount (post_all posts transaction) ≡ length (posted posts))
    × ((take_actions (take_actions (post_all posts transaction)).1).0 ≡ [])
take_actions-post_all_example = take_actions-post_all posts 7 (49 ∷ []) (100 ∷ []) (116 ∷ []) sec5
