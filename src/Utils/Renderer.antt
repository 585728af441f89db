-- ===== src/Utils/Renderer.antt =====
-- `software_rendering_warning` of plugin/src/utils/hardware-utils.hpp. The name of the device is
-- that of the graphics library, and `tolower` is that of the locale.
use mathlib.Core.List.{Mem, mem-cons_self, mem-cons_of_mem, not-mem-nil, eq-or-mem_of_mem-cons}
use mathlib.Core.HLevel.{⊥_prop}
use mathlib.Core.Logic.Or
use obs_rvc.Prelude.{
  ℕ, ◌≡◌, ◌↔◌, refl, ap, ◌∙◌, ◌⊎◌, inl, inr, Bool, true, false, ◌&&◌, ◌||◌, ◌==◌, Option, none,
  some, List, [], ◌∷◌, ◌++◌, map, arith, if◌then◌else◌, Bool-cases, not_both, is_nil, ==_iff,
}
use obs_rvc.Utils.Strings.{c_string}

-- The text begins with the word.
unfoldable pub begins_with : List ℕ → List ℕ → Bool
begins_with text [] = true
begins_with [] (c ∷ cs) = false
begins_with (x ∷ xs) (c ∷ cs) = x == c && begins_with xs cs

-- `std::string::find` is not `npos`
unfoldable pub contains : List ℕ → List ℕ → Bool
contains [] word = begins_with [] word
contains (x ∷ xs) word = begins_with (x ∷ xs) word || contains xs word

-- "llvmpipe", "softpipe", "swiftshader", "basic render driver" and "microsoft warp"
abbrev pub renderer_names : List (List ℕ)
renderer_names =
    (108 ∷ 108 ∷ 118 ∷ 109 ∷ 112 ∷ 105 ∷ 112 ∷ 101 ∷ [])
    ∷ (115 ∷ 111 ∷ 102 ∷ 116 ∷ 112 ∷ 105 ∷ 112 ∷ 101 ∷ [])
    ∷ (115 ∷ 119 ∷ 105 ∷ 102 ∷ 116 ∷ 115 ∷ 104 ∷ 97 ∷ 100 ∷ 101 ∷ 114 ∷ [])
    ∷ (98 ∷ 97 ∷ 115 ∷ 105 ∷ 99 ∷ 32 ∷ 114 ∷ 101 ∷ 110 ∷ 100 ∷ 101 ∷ 114 ∷ 32 ∷ 100 ∷ 114 ∷ 105
        ∷ 118 ∷ 101 ∷ 114 ∷ [])
    ∷ (109 ∷ 105 ∷ 99 ∷ 114 ∷ 111 ∷ 115 ∷ 111 ∷ 102 ∷ 116 ∷ 32 ∷ 119 ∷ 97 ∷ 114 ∷ 112 ∷ [])
    ∷ []

unfoldable pub contains_any : List ℕ → List (List ℕ) → Bool
contains_any text [] = false
contains_any text (word ∷ words) = contains text word || contains_any text words

-- "unknown renderer"
abbrev unknown_renderer : List ℕ
unknown_renderer =
    117 ∷ 110 ∷ 107 ∷ 110 ∷ 111 ∷ 119 ∷ 110 ∷ 32 ∷ 114 ∷ 101 ∷ 110 ∷ 100 ∷ 101 ∷ 114 ∷ 101 ∷ 114
    ∷ []

-- The renderer that the warning names, or `none` for an empty warning.
unfoldable pub software_rendering_warning : (ℕ → ℕ) → Option (List ℕ) → Option (List ℕ)
software_rendering_warning to_lower device_name =
    let device = c_string device_name in
    if contains_any (map to_lower device) renderer_names
    then some (if is_nil device then unknown_renderer else device)
    else none

-- The word stands somewhere in the text.
abbrev Within : List ℕ → List ℕ → Type 0
Within text word = (before : List ℕ) × ((after : List ℕ) × (text ≡ before ++ (word ++ after)))

both : (a b : Bool) → a && b ≡ true → (a ≡ true) × (b ≡ true)
both a b e = ground arith

either : (a b : Bool) → a || b ≡ true → (a ≡ true) ⊎ (b ≡ true)
either a b e = ground arith

or_true : (a b : Bool) → b ≡ true → a || b ≡ true
or_true a b e = ground arith

begins_with_sound :
    (text word : List ℕ) → begins_with text word ≡ true → (after : List ℕ) × (text ≡ word ++ after)
unfolding begins_with
begins_with_sound text [] e = (text, refl)
begins_with_sound [] (c ∷ cs) e = absurd (not_both refl e)
begins_with_sound (x ∷ xs) (c ∷ cs) e =
    let (same, rest) = both (x == c) (begins_with xs cs) e in
    let (after, tail) = begins_with_sound xs cs rest in (after, rw ((==_iff x c).0 same, tail) refl)

begins_with_complete : (word after : List ℕ) → begins_with (word ++ after) word ≡ true
unfolding begins_with
begins_with_complete [] after = refl
begins_with_complete (c ∷ cs) after =
    let own : (c == c) ≡ true = ground arith in rw own (begins_with_complete cs after)

contains_sound : (text word : List ℕ) → contains text word ≡ true → Within text word
unfolding contains
contains_sound [] word e = let (after, same) = begins_with_sound [] word e in ([], (after, same))
contains_sound (x ∷ xs) word e = elim (either (begins_with (x ∷ xs) word) (contains xs word) e) [
  | inl here ↦ let (after, same) = begins_with_sound (x ∷ xs) word here in ([], (after, same))
  | inr later ↦
      let (before, (after, same)) = contains_sound xs word later in
      (x ∷ before, (after, ap (λ t. x ∷ t) same))
]

contains_first : (text word : List ℕ) → begins_with text word ≡ true → contains text word ≡ true
unfolding contains
contains_first [] word e = e
contains_first (x ∷ xs) word e = rw e refl

contains_later :
    (x : ℕ) (xs word : List ℕ) → contains xs word ≡ true → contains (x ∷ xs) word ≡ true
unfolding contains
contains_later x xs word e = or_true (begins_with (x ∷ xs) word) (contains xs word) e

contains_complete : (before word after : List ℕ) → contains (before ++ (word ++ after)) word ≡ true
contains_complete [] word after =
    contains_first (word ++ after) word (begins_with_complete word after)
contains_complete (x ∷ before) word after =
    contains_later x (before ++ (word ++ after)) word (contains_complete before word after)

-- The search finds a word exactly if it stands in the text.
contains_iff : (text word : List ℕ) → (contains text word ≡ true) ↔ Within text word
contains_iff text word = (
  contains_sound text word,
  λ w. let (before, (after, same)) = w in rw same (contains_complete before word after),
)

-- One of the words stands in the text.
abbrev pub AnyWithin : List ℕ → List (List ℕ) → Type 0
AnyWithin text words = (word : List ℕ) × (Mem word words × Within text word)

contains_any_sound :
    (text : List ℕ) (words : List (List ℕ)) → contains_any text words ≡ true → AnyWithin text words
unfolding contains_any
contains_any_sound text [] e = absurd (not_both refl e)
contains_any_sound text (word ∷ words) e =
    elim (either (contains text word) (contains_any text words) e) [
      | inl here ↦ (word, (mem-cons_self, (contains_iff text word).0 here))
      | inr later ↦
          let (word', (listed, w)) = contains_any_sound text words later in
          (word', (mem-cons_of_mem word listed, w))
    ]

neither : (a b : Bool) → a || b ≡ false → (a ≡ false) × (b ≡ false)
neither a b e = ground arith

contains_any_complete :
    (text : List ℕ) (words : List (List ℕ)) (word : List ℕ)
    → contains_any text words ≡ false
    → Within text word
    → ¬ Mem word words
unfolding contains_any
contains_any_complete text [] word e w = not-mem-nil
contains_any_complete text (first ∷ words) word e w =
    let (not_first, not_later) = neither (contains text first) (contains_any text words) e in
    λ listed.
      Or.elim ⊥_prop (eq-or-mem_of_mem-cons listed)
        (λ same. not_both (ap (contains text) same ∙ not_first) ((contains_iff text word).1 w))
        (contains_any_complete text words word not_later w)

-- Where a word that is not empty stands in the text, the text is not empty.
names_device :
    (to_lower : ℕ → ℕ) (device : List ℕ)
    → contains_any (map to_lower device) renderer_names ≡ true
    → is_nil device ≡ false
unfolding contains_any contains begins_with
names_device to_lower [] e = absurd (not_both refl e)
names_device to_lower (x ∷ xs) e = refl

-- What a warning says: it names the device as it is called, never an unknown one, and one of the
-- five names of software renderers stands in that name in small letters. There is none exactly
-- where no such name is found.
pub software_rendering_warning_lem :
    (to_lower : ℕ → ℕ) (device_name : Option (List ℕ))
    → let device = c_string device_name in
      ((software_rendering_warning to_lower device_name ≡ none)
        × (¬ AnyWithin (map to_lower device) renderer_names))
      ⊎ ((software_rendering_warning to_lower device_name ≡ some device)
          × AnyWithin (map to_lower device) renderer_names)
unfolding software_rendering_warning
software_rendering_warning_lem to_lower device_name =
    let device = c_string device_name in
    elim (Bool-cases (contains_any (map to_lower device) renderer_names)) [
      | inl found ↦ inr (
        rw (found, names_device to_lower device found) refl,
        contains_any_sound (map to_lower device) renderer_names found,
      )
      | inr lost ↦ inl (
        rw lost refl,
        λ any.
            let (word, (listed, w)) = any in
            contains_any_complete (map to_lower device) renderer_names word lost w listed,
      )
    ]
