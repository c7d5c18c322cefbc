-- ===== src/Registry/Create.antt =====
-- What the operations of the registry do to what is registered under an id.
use my_no_sql_server_grpc.Base.{
  ℕ, ◌+◌, ◌<◌, ◌≡◌, sym, ap, ◌∙◌, arith, inl, inr, Option, none, some, if◌then◌else◌, Option-cases,
  Text, text_eq, text_same, text_same_iff,
}
use my_no_sql_server_grpc.Base.Assoc.{
  lookup, Distinct, lookup-insert, lookup-remove, insert-Distinct, remove-Distinct,
}
use my_no_sql_server_grpc.Base.Decimal.{
  decimal, decimal-IsDigit, read_from, read_from-decimal, after_dash, after_dash-digits,
}
use my_no_sql_server_grpc.Registry.{Registry, new_id, u64_range, create, get, remove_id}

-- The counter that an id was made of.
abbrev pub counter_of : Text → ℕ
counter_of id = read_from 0 (after_dash id)

pub counter_of-new_id : (now n : ℕ) → counter_of (new_id now n) ≡ n
unfolding new_id
counter_of-new_id now n =
    ap (read_from 0) (after_dash-digits (decimal now) (decimal n) (decimal-IsDigit now))
    ∙ read_from-decimal n

module _ {V : Type 0} (id_of : V → Text) where
  -- Every value stands once, under its own id, and no id is one that the counter has still to give.
  pub record IsValid (r : Registry V) : Type 0 where
    pub distinct : Distinct r.inner
    pub own_id : (id : Text) (v : V) → lookup id r.inner ≡ some v → id_of v ≡ id
    pub given : (id : Text) (v : V) → lookup id r.inner ≡ some v → counter_of id < r.next_id

  new_id-unused :
      (now : ℕ) (r : Registry V) → IsValid r → lookup (new_id now r.next_id) r.inner ≡ none
  new_id-unused now r h = elim (Option-cases (lookup (new_id now r.next_id) r.inner)) [
    | inl e ↦ e
    | inr (v, e) ↦
        absurd (omega (arith, h.given (new_id now r.next_id) v e, counter_of-new_id now r.next_id))
  ]

  -- What `create` made: its id was not in use, it is found under it, and nothing else moved.
  pub record IsCreated (r r' : Registry V) (v : V) : Type 0 where
    pub unused : get (id_of v) r ≡ none
    pub found : (id : Text) → get id r' ≡ (if text_same (id_of v) id then some v else get id r)
    pub valid : IsValid r'

  -- As long as the 64-bit counter has not run out, `create` gives out an id that is not in use, registers the
  -- value under it, leaves every other id alone and keeps the registry well formed.
  pub create-IsCreated :
      (now : ℕ) (make : Text → V) (r : Registry V)
      → ((id : Text) → id_of (make id) ≡ id)
      → r.next_id + 1 < u64_range
      → IsValid r
      → IsCreated r (create now make r).1 (create now make r).0
  unfolding create get
  create-IsCreated now make r named room h =
      let id = new_id now r.next_id in
      let e : id_of (make id) ≡ id = named id in
      let counted = counter_of-new_id now r.next_id in
      let at = λ (j : Text). lookup-insert id j (make id) r.inner in
      record {
        unused = ap (λ j. lookup j r.inner) e ∙ new_id-unused now r h;
        found = λ j.
            at j
            ∙ ap (λ (t : Text). if text_same t j then some (make id) else lookup j r.inner) (sym e);
        valid = record {
          distinct = insert-Distinct id (make id) r.inner h.distinct;
          own_id = λ j v found. ground (arith, at j, h.own_id j v, text_same_iff id j);
          given = λ j v found. ground (arith, at j, h.given j v, text_same_iff id j);
        };
      }

  -- An id that was removed is not found any more, every other one is as before, and what comes back is what
  -- stood there.
  pub record IsRemoved (id : Text) (r : Registry V) (removed : Option V) (r' : Registry V)
      : Type 0 where
    pub was : removed ≡ get id r
    pub found : (j : Text) → get j r' ≡ (if text_same id j then none else get j r)
    pub valid : IsValid r'

  pub remove_id-IsRemoved :
      (id : Text) (r : Registry V)
      → IsValid r
      → IsRemoved id r (remove_id id r).0 (remove_id id r).1
  unfolding remove_id get
  remove_id-IsRemoved id r h = elim (Option-cases (lookup id r.inner)) [
    | inl absent ↦
        rw (absent, remove_id)
          (record { was = sym absent; found = λ j. ground (arith, text_same_iff id j); valid = h })
    | inr (v, present) ↦
        rw (present, remove_id)
          (record {
            was = sym present;
            found = λ j. lookup-remove id j r.inner;
            valid = record {
              distinct = remove-Distinct id r.inner h.distinct;
              own_id = λ j w found. ground (arith, lookup-remove id j r.inner, h.own_id j w);
              given = λ j w found. ground (arith, lookup-remove id j r.inner, h.given j w);
            };
          })
  ]
