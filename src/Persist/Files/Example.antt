-- ===== src/Persist/Files/Example.antt =====
-- A folder that has no page-files yet, and keys of one letter.
use my_no_sql_server_grpc.Base.{ℕ, ◌≡◌, refl, arith, true, false, List, [], ◌∷◌, Text}
use my_no_sql_server_grpc.Base.Utf8.{is_utf8}
use my_no_sql_server_grpc.Persist.Files.{FilesRepoInner}
use my_no_sql_server_grpc.Persist.Files.Slots.{occupant_in}
use my_no_sql_server_grpc.Persist.Files.Consistent.{IsConsistent}
use my_no_sql_server_grpc.Persist.Files.Choose.{no_stale}
use my_no_sql_server_grpc.Persist.Files.Open.{IsFolder}

-- The checksum of the tests.
abbrev pub hash : List ℕ → ℕ
hash bytes = 7

abbrev pub t : Text
t = 116 ∷ []

abbrev pub p : Text
p = 112 ∷ []

abbrev pub empty_repo : FilesRepoInner
empty_repo = record { classes = []; index = []; next_version = 0; page_files = [] }

pub empty_repo-IsConsistent : IsConsistent hash no_stale empty_repo
unfolding occupant_in
empty_repo-IsConsistent = record {
  distinct = tt;
  distinct_classes = tt;
  indexed = λ key l e. absurd (ground arith);
  listed = λ l slot e. absurd (ground arith);
  versions = λ l slot e. absurd (ground arith);
  counted = λ c. refl;
  vacant = λ l e. absurd (ground arith);
  occupied = λ l below e. absurd (omega arith);
  once = λ c. tt;
}

pub empty_repo-IsFolder : IsFolder hash false []
empty_repo-IsFolder = record { distinct = tt; page_files = tt }

pub t-is_utf8 : is_utf8 t ≡ true
unfolding is_utf8
t-is_utf8 = refl

pub p-is_utf8 : is_utf8 p ≡ true
unfolding is_utf8
p-is_utf8 = refl
