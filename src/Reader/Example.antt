-- ===== src/Reader/Example.antt =====
-- A registry with one session, which follows one table.
use my_no_sql_server_grpc.Base.{refl, arith, [], ◌∷◌, Text}
use my_no_sql_server_grpc.Registry
use my_no_sql_server_grpc.Registry.{Registry, no_entries}
use my_no_sql_server_grpc.Registry.Create.{IsValid, create-IsCreated}
use my_no_sql_server_grpc.Reader.Session
use my_no_sql_server_grpc.Reader.Session.{ReaderSession, subscribe}
use my_no_sql_server_grpc.Reader.Sessions.{ReaderSessions, id_of, update}
use my_no_sql_server_grpc.Reader.Sessions.Told.{update-IsValid}

abbrev pub a_namespace : Text
a_namespace = 100 ∷ []

abbrev pub a_table : Text
a_table = 116 ∷ []

-- `7-0`
abbrev pub an_id : Text
an_id = 55 ∷ 45 ∷ 48 ∷ []

module _ {C : Type 0} where
  abbrev make : Text → ReaderSession C
  make id = Session.new 7 id (97 ∷ []) (49 ∷ []) a_namespace (105 ∷ [])

  pub no_entries-IsValid : IsValid id_of (no_entries {V = ReaderSession C})
  no_entries-IsValid = record {
    distinct = tt;
    own_id = λ id v found. absurd (cc);
    given = λ id v found. absurd (cc);
  }

  abbrev pub one_session : ReaderSessions C
  one_session = update an_id (subscribe a_table) (Registry.create 7 make no_entries).1

  pub one_session-IsValid : IsValid id_of one_session
  unfolding Session.new subscribe
  one_session-IsValid =
      update-IsValid an_id (subscribe a_table) (Registry.create 7 make no_entries).1 (λ s. refl)
        (create-IsCreated id_of 7 make no_entries (λ id. refl) (omega arith)
          no_entries-IsValid).valid
