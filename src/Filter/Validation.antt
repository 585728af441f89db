-- ===== src/Filter/Validation.antt =====
-- `validate_models` of plugin/src/rvc/filter/rvc-filter-validation.cpp.
use obs_rvc.Prelude.{
  ℕ, ◌≡◌, ◌↔◌, ◌⊎◌, Bool, true, false, not, ◌&&◌, Option, none, some, List, [], ◌∷◌, is_nil,
  if◌then◌else◌, arith,
}
use obs_rvc.Utils.Files.{FileSystem, is_regular_file}

-- The paths among the settings; `none` is a null pointer.
pub record ModelPaths : Type 0 where
  pub model : Option (List ℕ)
  pub index : Option (List ℕ)
  pub hubert : Option (List ℕ)
  pub rmvpe : Option (List ℕ)

-- The messages, by what they ask for.
pub data Message : Type 0 where
  choose_model choose_index choose_hubert choose_rmvpe all_valid : Message

pub record ModelValidation : Type 0 where
  pub valid : Bool
  message : Message

-- ".pth", ".index", ".pt" and "rmvpe.pt"
abbrev pub model_extension : List ℕ
model_extension = 46 ∷ 112 ∷ 116 ∷ 104 ∷ []

abbrev pub index_extension : List ℕ
index_extension = 46 ∷ 105 ∷ 110 ∷ 100 ∷ 101 ∷ 120 ∷ []

abbrev pub hubert_extension : List ℕ
hubert_extension = 46 ∷ 112 ∷ 116 ∷ []

abbrev pub rmvpe_filename : List ℕ
rmvpe_filename = 114 ∷ 109 ∷ 118 ∷ 112 ∷ 101 ∷ 46 ∷ 112 ∷ 116 ∷ []

-- `index != nullptr && index[0] != '\0'`
abbrev is_given : Option (List ℕ) → Bool
is_given none = false
is_given (some path) = not (is_nil path)

unfoldable pub validate_models : FileSystem → ModelPaths → ModelValidation
validate_models files paths =
    if not (is_regular_file files paths.model (some model_extension) none)
    then record { valid = false; message = choose_model }
    else if is_given paths.index
        && not (is_regular_file files paths.index (some index_extension) none)
    then record { valid = false; message = choose_index }
    else if not (is_regular_file files paths.hubert (some hubert_extension) none)
    then record { valid = false; message = choose_hubert }
    else if not (is_regular_file files paths.rmvpe none (some rmvpe_filename))
    then record { valid = false; message = choose_rmvpe }
    else record { valid = true; message = all_valid }

-- The models are valid exactly if the model, HuBERT and RMVPE files are there under the names that
-- are asked for, and so is the index file, if one is given.
validate_models_lem :
    (files : FileSystem) (paths : ModelPaths)
    → ((validate_models files paths).valid ≡ true) ↔ (
        (is_regular_file files paths.model (some model_extension) none ≡ true)
        × ((is_given paths.index ≡ false)
            ⊎ (is_regular_file files paths.index (some index_extension) none ≡ true))
        × (is_regular_file files paths.hubert (some hubert_extension) none ≡ true)
        × (is_regular_file files paths.rmvpe none (some rmvpe_filename) ≡ true))
unfolding validate_models
validate_models_lem files paths = ground arith

-- `model_path_modified`: the message of the status line and whether it is shown as an error, or
-- `none` where the page has no such line.
unfoldable pub model_path_modified : FileSystem → ModelPaths → Bool → Option (Message × Bool)
model_path_modified files paths false = none
model_path_modified files paths true =
    let validation = validate_models files paths in some (validation.message, not validation.valid)
