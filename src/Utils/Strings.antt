-- ===== src/Utils/Strings.antt =====
-- `copy_string` of plugin/src/utils/string-utils.hpp.
use obs_rvc.Prelude.{
  ℕ, ◌+◌, ◌≤◌, ◌<◌, ◌≡◌, ◌↔◌, sym, ap, ◌∙◌, Option, none, some, List, [], ◌∷◌, ◌++◌, arith, leb,
  if◌then◌else◌, length, take, memcpy, length-memcpy, take-memcpy, length-append, take_all,
}

-- A C string is its bytes in front of the final zero, and `none` is a null pointer.
abbrev pub c_string : Option (List ℕ) → List ℕ
c_string none = []
c_string (some bytes) = bytes

-- The `Size` bytes of the destination, or `none` for `false`.
unfoldable pub copy_string : List ℕ → Option (List ℕ) → Option (List ℕ)
copy_string destination source =
    let bytes = c_string source in
    if leb (length destination) (length bytes)
    then none
    else some (memcpy destination 0 (bytes ++ (0 ∷ [])) 0 (length bytes + 1))

-- The copy fails exactly if the text with its final zero does not fit.
pub copy_string-none_iff :
    (destination : List ℕ) (source : Option (List ℕ))
    → (copy_string destination source ≡ none) ↔ (length destination ≤ length (c_string source))
unfolding copy_string
copy_string-none_iff destination source = ground arith

copy_string_accepts :
    (destination : List ℕ) (source : Option (List ℕ)) {copied : List ℕ}
    → copy_string destination source ≡ some copied
    → let bytes = c_string source in
      (length bytes < length destination)
      × (memcpy destination 0 (bytes ++ (0 ∷ [])) 0 (length bytes + 1) ≡ copied)
unfolding copy_string
copy_string_accepts destination source done = ground arith

-- A successful copy keeps the size of the destination, which then begins with the text and a zero.
pub copy_string_lem :
    (destination : List ℕ) (source : Option (List ℕ)) {copied : List ℕ}
    → copy_string destination source ≡ some copied
    → let bytes = c_string source in
      (length copied ≡ length destination) × (take (length bytes + 1) copied ≡ bytes ++ (0 ∷ []))
copy_string_lem destination source done =
    let bytes = c_string source in
    let text = bytes ++ (0 ∷ []) in
    let n = length bytes + 1 in
    let (fits, same) = copy_string_accepts destination source done in
    let whole = length-append bytes (0 ∷ []) in
    (
      ap length (sym same) ∙ length-memcpy destination 0 text 0 n (omega arith) (omega arith),
      ap (take n) (sym same)
          ∙ ap (λ k. take k (memcpy destination 0 text 0 n)) {x = n} {y = 0 + n} (omega arith)
          ∙ take-memcpy destination 0 text 0 n (omega arith) (omega arith)
          ∙ take_all n text (omega arith),
    )
