-- ===== src/Registry/Tests.antt =====
-- The registry of texts that are their own ids, and its theorems at concrete inputs.
use my_no_sql_server_grpc.Base.{ℕ, ◌≡◌, refl, arith, false, none, some, if◌then◌else◌, Text}
use my_no_sql_server_grpc.Registry.{Registry, no_entries, create, get, gc, is_expired}
use my_no_sql_server_grpc.Registry.Create.{IsValid, IsCreated, create-IsCreated}
use my_no_sql_server_grpc.Registry.Gc.{is_in, gc-found}

abbrev Entry : Type 0
Entry = Text × ℕ

abbrev id_of : Entry → Text
id_of e = e.0

abbrev last_incoming_of : Entry → ℕ
last_incoming_of e = e.1

abbrev make : ℕ → Text → Entry
make moment id = (id, moment)

no_entries-IsValid : IsValid id_of no_entries
no_entries-IsValid = record {
  distinct = tt;
  own_id = λ id v found. absurd (cc);
  given = λ id v found. absurd (cc);
}

abbrev one : Registry Entry
one = (create 5 (make 5) no_entries).1

create-IsCreated_example : IsCreated id_of no_entries one (create 5 (make 5) no_entries).0
create-IsCreated_example =
    create-IsCreated id_of 5 (make 5) no_entries (λ id. refl) (omega arith) no_entries-IsValid

abbrev two : Registry Entry
two = (create 40000000 (make 40000000) one).1

one-IsValid : IsValid id_of one
one-IsValid =
    (create-IsCreated id_of 5 (make 5) no_entries (λ id. refl) (omega arith)
      no_entries-IsValid).valid

two-IsValid : IsValid id_of two
unfolding create
two-IsValid =
    (create-IsCreated id_of 40000000 (make 40000000) one (λ id. refl) (omega arith)
      one-IsValid).valid

-- 31 seconds on, the first entry has been quiet for longer than 30, and the second has not.
gc-found_example :
    IsValid id_of (gc id_of last_incoming_of 60000000 30 two).1
    × ((id : Text)
        → (is_in id (gc id_of last_incoming_of 60000000 30 two).0 ≡ elim (get id two) [
          | none ↦ false
          | some v ↦ is_expired 60000000 30 (last_incoming_of v)
        ])
          × (get id (gc id_of last_incoming_of 60000000 30 two).1 ≡ elim (get id two) [
            | none ↦ none
            | some v ↦ if is_expired 60000000 30 (last_incoming_of v) then none else some v
          ]))
gc-found_example = gc-found id_of last_incoming_of 60000000 30 two two-IsValid
