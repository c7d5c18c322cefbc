-- ===== src/App/Tests.antt =====
-- The window, the names and the namespaces at concrete inputs.
use my_no_sql_server_grpc.Base.{ℕ, ◌≡◌, refl, true, false, List, [], ◌∷◌, ◌⊎◌, Text}
use my_no_sql_server_grpc.Base.Result.{ok, err}
use my_no_sql_server_grpc.App.WriteWindow
use my_no_sql_server_grpc.App.WriteWindow.{
  WriteWindow, write_window_secs, IsRemaining, remaining_secs-IsRemaining, is_open-open_window,
}
use my_no_sql_server_grpc.App.Namespaces.{
  is_valid_namespace_name, resolve_name, get_or_create, default_namespace, IsFolderName,
  is_valid_namespace_name-IsFolderName, IsGot, get_or_create-get,
}

abbrev window : WriteWindow
window = record { open_until = 5000001 }

remaining_secs-IsRemaining_example :
    IsRemaining 5000001 2000000 (WriteWindow.remaining_secs 2000000 window)
remaining_secs-IsRemaining_example = remaining_secs-IsRemaining 2000000 window

dots_refused : is_valid_namespace_name (46 ∷ 46 ∷ []) ≡ false
unfolding is_valid_namespace_name
dots_refused = refl

default_taken : is_valid_namespace_name default_namespace ≡ true
unfolding is_valid_namespace_name
default_taken = refl

is_valid_namespace_name-IsFolderName_example : IsFolderName default_namespace
is_valid_namespace_name-IsFolderName_example =
    is_valid_namespace_name-IsFolderName default_namespace default_taken

abbrev eight : Text → ℕ
eight name = 8

-- Somebody makes another namespace meanwhile.
abbrev meanwhile : List (Text × ℕ) → List (Text × ℕ)
meanwhile m = (98 ∷ [], 5) ∷ m

get_or_create-get_example :
    ((get_or_create eight meanwhile (97 ∷ []) [] ≡ (err (resolve_name (97 ∷ [])), []))
      × (is_valid_namespace_name (resolve_name (97 ∷ [])) ≡ false))
    ⊎ ((n : ℕ) × (after : List (Text × ℕ)) × (get_or_create eight meanwhile (97 ∷ []) []
          ≡ (ok n, after))
        × IsGot eight meanwhile (97 ∷ []) [] n after)
get_or_create-get_example = get_or_create-get eight meanwhile (97 ∷ []) []
