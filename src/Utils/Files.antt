-- ===== src/Utils/Files.antt =====
-- `is_regular_file` of plugin/src/utils/file-utils.hpp. The file system is a parameter.
use obs_rvc.Prelude.{
  ℕ, Bool, true, false, ◌&&◌, not, ◌==◌, Option, none, some, List, [], ◌∷◌, is_nil,
}

unfoldable pub same_bytes : List ℕ → List ℕ → Bool
same_bytes [] [] = true
same_bytes [] (y ∷ ys) = false
same_bytes (x ∷ xs) [] = false
same_bytes (x ∷ xs) (y ∷ ys) = x == y && same_bytes xs ys

-- `std::filesystem` on a path in UTF-8. A path that makes it fail or throw is not regular.
pub record FileSystem : Type 0 where
  pub is_regular : List ℕ → Bool
  pub extension : List ℕ → List ℕ
  pub filename : List ℕ → List ℕ

-- A null pointer asks for nothing.
abbrev agrees : Option (List ℕ) → List ℕ → Bool
agrees none found = true
agrees (some wanted) found = same_bytes found wanted

unfoldable pub is_regular_file :
    FileSystem → Option (List ℕ) → Option (List ℕ) → Option (List ℕ) → Bool
is_regular_file files none extension filename = false
is_regular_file files (some path) extension filename =
    not (is_nil path)
    && files.is_regular path
    && agrees extension (files.extension path)
    && agrees filename (files.filename path)
