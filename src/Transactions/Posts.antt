-- ===== src/Transactions/Posts.antt =====
-- What is committed is what was posted.
use my_no_sql_server_grpc.Base.{
  ℕ, ◌≡◌, refl, sym, ap, ◌∙◌, List, [], ◌∷◌, ◌++◌, length, append_assoc, append-nil, Text,
}
use my_no_sql_server_grpc.App.Periods.{DataSyncPeriod}
use my_no_sql_server_grpc.Transactions.{
  Transaction, new_transaction, append, touch, take_actions, get_actions_amount,
}

module _ {Act : Type 0} where
  -- Every post appends a whole list of actions, and touches the transaction.
  abbrev pub post_all : List (ℕ × List Act) → Transaction Act → Transaction Act
  post_all [] t = t
  post_all ((now, actions) ∷ posts) t = post_all posts (append actions (touch now t))

  abbrev pub posted : List (ℕ × List Act) → List Act
  posted [] = []
  posted ((_, actions) ∷ posts) = actions ++ posted posts

  posted_onto :
      (posts : List (ℕ × List Act)) (t : Transaction Act)
      → (take_actions (post_all posts t)).0 ≡ t.actions ++ posted posts
  unfolding take_actions append touch
  posted_onto [] t = sym (append-nil t.actions)
  posted_onto ((now, actions) ∷ posts) t =
      posted_onto posts (append actions (touch now t))
      ∙ append_assoc t.actions actions (posted posts)

  -- What is taken out of a transaction are the actions of all its posts, in the order in which they were posted;
  -- the amount that it reports before is how many there are, and a second take finds nothing.
  pub take_actions-post_all :
      (posts : List (ℕ × List Act)) (now : ℕ) (id namespace table_name : Text)
      (period : DataSyncPeriod)
      → ((take_actions (post_all posts (new_transaction now id namespace table_name period))).0
          ≡ posted posts)
        × (get_actions_amount (post_all posts (new_transaction now id namespace table_name period))
            ≡ length (posted posts))
        × ((take_actions
              (take_actions
                (post_all posts (new_transaction now id namespace table_name period))).1).0
            ≡ [])
  unfolding take_actions get_actions_amount new_transaction
  take_actions-post_all posts now id namespace table_name period =
      let t = new_transaction now id namespace table_name period in
      let e = posted_onto posts t in (e, ap length e, refl)
