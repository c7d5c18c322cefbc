-- ===== src/App/Namespaces.antt =====
-- server/src/app/db_namespaces.rs and server/src/persist/layout.rs: the names of namespaces, which become folders.
-- A name is its UTF-8 bytes: a character outside of ASCII has no byte below 128, and is refused as its bytes are.
use my_no_sql_server_grpc.Base.{
  ℕ, ◌≤◌, ◌<◌, ◌≡◌, ◌≢◌, refl, arith, Bool, true, false, not, ◌&&◌, ◌||◌, List, [], ◌∷◌, ◌⊎◌, inl,
  inr, Option, none, some, leb, ltb, ◌==◌, if◌then◌else◌, length, All, Bool-cases, Option-cases,
  Text, text_eq, text_same, text_same_iff,
}
use my_no_sql_server_grpc.Base.Assoc.{lookup, insert, remove, lookup-insert}
use my_no_sql_server_grpc.Base.Result.{Result, ok, err}

-- `"default"`
abbrev pub default_namespace : Text
default_namespace = 100 ∷ 101 ∷ 102 ∷ 97 ∷ 117 ∷ 108 ∷ 116 ∷ []

abbrev is_ascii_alphanumeric : ℕ → Bool
is_ascii_alphanumeric c =
    (leb 48 c && leb c 57) || ((leb 65 c && leb c 90) || (leb 97 c && leb c 122))

abbrev pub all : (ℕ → Bool) → Text → Bool
all test [] = true
all test (c ∷ cs) = test c && all test cs

abbrev pub is_dot : ℕ → Bool
is_dot c = c == 46

abbrev pub is_name_char : ℕ → Bool
is_name_char c = is_ascii_alphanumeric c || ((c == 45) || ((c == 95) || (c == 46)))

unfoldable pub is_valid_namespace_name : Text → Bool
is_valid_namespace_name name =
    if (length name == 0) || ltb 64 (length name)
    then false
    else if all is_dot name
    then false
    else all is_name_char name

unfoldable pub resolve_name : Text → Text
resolve_name [] = default_namespace
resolve_name (c ∷ cs) = c ∷ cs

module _ {N : Type 0} where
  unfoldable pub get : Text → List (Text × N) → Option N
  get name namespaces =
      let resolved = resolve_name name in
      if not (is_valid_namespace_name resolved) then none else lookup resolved namespaces

  -- `create_namespace` is `DbNamespace::open` followed by `prime_for_writes`. The second look under the lock finds what the first
  -- one does, unless somebody created the namespace between them: `meanwhile` is what the others did.
  unfoldable pub get_or_create :
      (Text → N)
      → (List (Text × N) → List (Text × N))
      → Text
      → List (Text × N)
      → Result Text N × List (Text × N)
  unfolding get
  get_or_create create_namespace meanwhile name namespaces =
      let resolved = resolve_name name in
      let locked = meanwhile namespaces in
      if not (is_valid_namespace_name resolved)
      then (err resolved, namespaces)
      else elim (get resolved namespaces) [
        | some namespace ↦ (ok namespace, namespaces)
        | none ↦ elim (get resolved locked) [
          | some namespace ↦ (ok namespace, locked)
          | none ↦
              (ok (create_namespace resolved), insert resolved (create_namespace resolved) locked)
        ]
      ]

  unfoldable pub remove_namespace : Text → List (Text × N) → Option N × List (Text × N)
  remove_namespace name namespaces =
      let resolved = resolve_name name in
      elim (lookup resolved namespaces) [
        | none ↦ (none, namespaces)
        | some namespace ↦ (some namespace, remove resolved namespaces)
      ]

-- A name that cannot lead out of the folder it is resolved in: no separator, no terminator, neither `.` nor `..`, and
-- not too long for a folder.
pub record IsFolderName (name : Text) : Type 0 where
  pub plain : All (λ c. (c ≢ 47) × (c ≢ 92) × (c ≢ 0) × (c < 128)) name
  pub not_here : name ≢ 46 ∷ []
  pub not_above : name ≢ 46 ∷ 46 ∷ []
  pub occupied : 0 < length name
  pub bounded : length name ≤ 64

plain_chars :
    (name : Text)
    → all is_name_char name ≡ true
    → All (λ c. (c ≢ 47) × (c ≢ 92) × (c ≢ 0) × (c < 128)) name
plain_chars [] h = tt
plain_chars (c ∷ cs) h = (
  (λ e. ground arith, λ e. ground arith, λ e. ground arith, ground arith),
  plain_chars cs (ground arith),
)

-- Every name that is taken is a folder name of this kind.
pub is_valid_namespace_name-IsFolderName :
    (name : Text) → is_valid_namespace_name name ≡ true → IsFolderName name
unfolding is_valid_namespace_name
is_valid_namespace_name-IsFolderName name h = record {
  plain = plain_chars name (ground arith);
  not_here = λ e. ground arith;
  not_above = λ e. ground arith;
  occupied = ground arith;
  bounded = ground arith;
}

resolve_name-resolve_name : (name : Text) → resolve_name (resolve_name name) ≡ resolve_name name
unfolding resolve_name
resolve_name-resolve_name [] = refl
resolve_name-resolve_name (c ∷ cs) = refl

module _ {N : Type 0} (create_namespace : Text → N)
    (meanwhile : List (Text × N) → List (Text × N)) where
  -- What is answered to a valid name, and what the namespaces are afterwards: one that is there is kept, whether it
  -- was there at first or others made it meanwhile; and only if it is there at neither look is a new one added to the others.
  pub record IsGot (name : Text) (m : List (Text × N)) (answered : N) (after : List (Text × N))
      : Type 0 where
    pub stands : get name after ≡ some answered
    pub first_look : (n : N) → get name m ≡ some n → (answered ≡ n) × (after ≡ m)
    pub second_look :
        (n : N)
        → get name m ≡ none
        → get name (meanwhile m) ≡ some n
        → (answered ≡ n) × (after ≡ meanwhile m)
    pub new_one :
        get name m ≡ none
        → get name (meanwhile m) ≡ none
        → (answered ≡ create_namespace (resolve_name name))
          × ((other : Text)
              → text_same (resolve_name name) (resolve_name other) ≡ false
              → get other after ≡ get other (meanwhile m))

  -- `get_or_create` refuses exactly the names that are not valid, and then changes nothing. Otherwise it answers what the name stands
  -- for afterwards: the namespace that is there at the first look or at the second, with all namespaces as that look saw them; and
  -- if it is there at neither, a new one, beside which every other name stands for what it stood for at the second look.
  pub get_or_create-get :
      (name : Text) (m : List (Text × N))
      → ((get_or_create create_namespace meanwhile name m ≡ (err (resolve_name name), m))
          × (is_valid_namespace_name (resolve_name name) ≡ false))
        ⊎ ((n : N) × (after : List (Text × N)) × (get_or_create create_namespace meanwhile name m
              ≡ (ok n, after))
            × IsGot name m n after)
  unfolding get_or_create get
  get_or_create-get name m = elim (Bool-cases (is_valid_namespace_name (resolve_name name))) [
    | inr refused ↦ inl (ground arith, refused)
    | inl valid ↦
        let key = resolve_name name in
        let again = resolve_name-resolve_name name in
        let new_one = create_namespace key in
        elim (Option-cases (lookup key m)) [
          | inr (n, found) ↦ inr (
            n,
            m,
            ground (arith, again),
            record {
              stands = ground (arith, again);
              first_look = λ k e. (ground (arith, again), refl);
              second_look = λ k e there. absurd (ground (arith, again));
              new_one = λ e there. absurd (ground (arith, again));
            },
          )
          | inl absent ↦ elim (Option-cases (lookup key (meanwhile m))) [
            | inr (n, found) ↦ inr (
              n,
              meanwhile m,
              ground (arith, again),
              record {
                stands = ground (arith, again);
                first_look = λ k e. absurd (ground (arith, again));
                second_look = λ k e there. (ground (arith, again), refl);
                new_one = λ e there. absurd (ground (arith, again));
              },
            )
            | inl absent' ↦ inr (
              new_one,
              insert key new_one (meanwhile m),
              ground (arith, again),
              record {
                stands = ground (
                  arith,
                  again,
                  text_same_iff key key,
                  lookup-insert key key new_one (meanwhile m),
                );
                first_look = λ k e. absurd (ground (arith, again));
                second_look = λ k e there. absurd (ground (arith, again));
                new_one = λ e there. (
                  refl,
                  λ other apart.
                      ground (arith, lookup-insert key (resolve_name other) new_one (meanwhile m)),
                );
              },
            )
          ]
        ]
  ]
