-- ===== src/Prelude/Lists.antt =====
-- Vectors as lists measured and indexed by native numbers, and the laws of their slices.
use Prim.Native.Nat.{ℕ, zero, suc, ◌+◌, ◌-◌, ◌≤◌, ◌<◌, min}
use mathlib.Core.Logic.{◌≢◌, ◌⊎◌, inl, inr}
use mathlib.Core.Path.{◌≡◌, refl, sym, ◌∙◌, ap, ap₂}
use mathlib.Core.Bool.{Bool, true, false}
use mathlib.Core.List.{List, [], ◌∷◌, ◌++◌, map, append-nil}
use mathlib.Core.Option.{Option, none, some}
use native.Mathlib.Omega.{arith}

module _ {ℓ} {A : Type ℓ} where
  abbrev pub length : List A → ℕ
  length [] = 0
  length (x ∷ xs) = suc (length xs)

  -- `values.empty()`
  abbrev pub is_nil : List A → Bool
  is_nil [] = true
  is_nil (x ∷ xs) = false

  abbrev get_elem? : List A → ℕ → Option A
  get_elem? [] i = none
  get_elem? (x ∷ xs) zero = some x
  get_elem? (x ∷ xs) (suc i) = get_elem? xs i

  abbrev pub get_or : List A → ℕ → A → A
  get_or [] i d = d
  get_or (x ∷ xs) zero d = x
  get_or (x ∷ xs) (suc i) d = get_or xs i d

  abbrev pub take : ℕ → List A → List A
  take zero xs = []
  take (suc n) [] = []
  take (suc n) (x ∷ xs) = x ∷ take n xs

  abbrev pub drop : ℕ → List A → List A
  drop zero xs = xs
  drop (suc n) [] = []
  drop (suc n) (x ∷ xs) = drop n xs

  abbrev pub replicate : ℕ → A → List A
  replicate zero a = []
  replicate (suc n) a = a ∷ replicate n a

module _ {ℓ} {A : Type ℓ} where
  pub length-append : (xs ys : List A) → length (xs ++ ys) ≡ length xs + length ys
  length-append [] ys = omega arith
  length-append (x ∷ xs) ys = omega (arith, length-append xs ys)

  pub length-take : (n : ℕ) (xs : List A) → length (take n xs) ≡ min n (length xs)
  length-take zero xs = omega arith
  length-take (suc n) [] = omega arith
  length-take (suc n) (x ∷ xs) = omega (arith, length-take n xs)

  pub length-drop : (n : ℕ) (xs : List A) → length (drop n xs) ≡ length xs - n
  length-drop zero xs = omega arith
  length-drop (suc n) [] = omega arith
  length-drop (suc n) (x ∷ xs) = omega (arith, length-drop n xs)

  pub length-replicate : (n : ℕ) (a : A) → length (replicate n a) ≡ n
  length-replicate zero a = refl
  length-replicate (suc n) a = ap suc (length-replicate n a)

  pub length-map {κ} : {B : Type κ} (f : A → B) (xs : List A) → length (map f xs) ≡ length xs
  length-map f [] = refl
  length-map f (x ∷ xs) = ap suc (length-map f xs)

  pub take_all : (n : ℕ) (xs : List A) → length xs ≤ n → take n xs ≡ xs
  take_all zero [] h = refl
  take_all zero (x ∷ xs) h = absurd (omega arith)
  take_all (suc n) [] h = refl
  take_all (suc n) (x ∷ xs) h = ap (λ l. x ∷ l) (take_all n xs (omega arith))

  pub drop_all : (n : ℕ) (xs : List A) → length xs ≤ n → drop n xs ≡ []
  drop_all zero [] h = refl
  drop_all zero (x ∷ xs) h = absurd (omega arith)
  drop_all (suc n) [] h = refl
  drop_all (suc n) (x ∷ xs) h = drop_all n xs (omega arith)

  take-nil : (n : ℕ) → take {A = A} n [] ≡ []
  take-nil zero = refl
  take-nil (suc n) = refl

  drop-nil : (n : ℕ) → drop {A = A} n [] ≡ []
  drop-nil zero = refl
  drop-nil (suc n) = refl

  pub take-append :
      (n : ℕ) (xs ys : List A) → take n (xs ++ ys) ≡ take n xs ++ take (n - length xs) ys
  take-append zero xs ys = ap (λ k. take k ys) {x = 0} {y = 0 - length xs} (omega arith)
  take-append (suc n) [] ys = ap (λ k. take k ys) {x = suc n} {y = suc n - 0} (omega arith)
  take-append (suc n) (x ∷ xs) ys = ground (arith, take-append n xs ys)

  pub drop-append :
      (n : ℕ) (xs ys : List A) → drop n (xs ++ ys) ≡ drop n xs ++ drop (n - length xs) ys
  drop-append zero xs ys = ap (λ k. xs ++ drop k ys) {x = 0} {y = 0 - length xs} (omega arith)
  drop-append (suc n) [] ys = ap (λ k. drop k ys) {x = suc n} {y = suc n - 0} (omega arith)
  drop-append (suc n) (x ∷ xs) ys = ground (arith, drop-append n xs ys)

  pub take-take : (m n : ℕ) (xs : List A) → take m (take n xs) ≡ take (min m n) xs
  take-take zero n xs = ap (λ k. take k xs) {x = 0} {y = min 0 n} (omega arith)
  take-take (suc m) zero xs = ap (λ k. take k xs) {x = 0} {y = min (suc m) 0} (omega arith)
  take-take (suc m) (suc n) [] = sym (take-nil (min (suc m) (suc n)))
  take-take (suc m) (suc n) (x ∷ xs) =
      ap (λ l. x ∷ l) (take-take m n xs)
      ∙ ap (λ k. take k (x ∷ xs)) {x = suc (min m n)} {y = min (suc m) (suc n)} (omega arith)

  pub drop-drop : (m n : ℕ) (xs : List A) → drop m (drop n xs) ≡ drop (n + m) xs
  drop-drop m zero xs = ap (λ k. drop k xs) {x = m} {y = 0 + m} (omega arith)
  drop-drop m (suc n) [] = drop-nil m ∙ sym (drop-nil (suc n + m))
  drop-drop m (suc n) (x ∷ xs) =
      drop-drop m n xs ∙ ap (λ k. drop k (x ∷ xs)) {x = suc (n + m)} {y = suc n + m} (omega arith)

  pub drop-take : (m n : ℕ) (xs : List A) → drop m (take n xs) ≡ take (n - m) (drop m xs)
  drop-take zero n xs = ap (λ k. take k xs) {x = n} {y = n - 0} (omega arith)
  drop-take (suc m) zero xs =
      ap (λ k. take k (drop (suc m) xs)) {x = 0} {y = 0 - suc m} (omega arith)
  drop-take (suc m) (suc n) [] = sym (take-nil (suc n - suc m))
  drop-take (suc m) (suc n) (x ∷ xs) =
      drop-take m n xs ∙ ap (λ k. take k (drop m xs)) {x = n - m} {y = suc n - suc m} (omega arith)

  pub take-append-drop : (n : ℕ) (xs : List A) → take n xs ++ drop n xs ≡ xs
  take-append-drop zero xs = refl
  take-append-drop (suc n) [] = refl
  take-append-drop (suc n) (x ∷ xs) = rw (take-append-drop n xs)

  -- Slices of `xs ++ ys` that end or begin in the second list.
  pub take-append_exact : (n : ℕ) (xs ys : List A) → n ≡ length xs → take n (xs ++ ys) ≡ xs
  take-append_exact n xs ys e =
      take-append n xs ys
      ∙ ap₂ ◌++◌ (take_all n xs (omega arith))
          (ap (λ k. take k ys) {x = n - length xs} {y = 0} (omega arith))
      ∙ append-nil xs

  pub take-append_past :
      (n m : ℕ) (xs ys : List A) → n ≡ length xs + m → take n (xs ++ ys) ≡ xs ++ take m ys
  take-append_past n m xs ys e =
      take-append n xs ys
      ∙ ap₂ ◌++◌ (take_all n xs (omega arith))
          (ap (λ k. take k ys) {x = n - length xs} {y = m} (omega arith))

  pub drop-append_past :
      (n m : ℕ) (xs ys : List A) → n ≡ length xs + m → drop n (xs ++ ys) ≡ drop m ys
  drop-append_past n m xs ys e =
      drop-append n xs ys
      ∙ ap₂ ◌++◌ (drop_all n xs (omega arith))
          (ap (λ k. drop k ys) {x = n - length xs} {y = m} (omega arith))

  pub drop-append_within :
      (n : ℕ) (xs ys : List A) → n ≤ length xs → drop n (xs ++ ys) ≡ drop n xs ++ ys
  drop-append_within n xs ys h =
      drop-append n xs ys
      ∙ ap (λ k. drop n xs ++ drop k ys) {x = n - length xs} {y = 0} (omega arith)

  pub nil_of_length : (xs : List A) → length xs ≡ 0 → xs ≡ []
  nil_of_length [] h = refl
  nil_of_length (x ∷ xs) h = absurd (omega arith)

  pub is_nil-cases :
      (xs : List A) → ((is_nil xs ≡ true) × (xs ≡ [])) ⊎ ((is_nil xs ≡ false) × (0 < length xs))
  is_nil-cases [] = inl (refl, refl)
  is_nil-cases (x ∷ xs) = inr (refl, omega arith)

  pub drop-min : (n : ℕ) (xs : List A) → drop n xs ≡ drop (min n (length xs)) xs
  drop-min zero xs = ap (λ k. drop k xs) {x = 0} {y = min 0 (length xs)} (omega arith)
  drop-min (suc n) [] = sym (drop-nil (min (suc n) 0))
  drop-min (suc n) (x ∷ xs) =
      drop-min n xs
      ∙ ap (λ k. drop k (x ∷ xs)) {x = suc (min n (length xs))} {y = min (suc n) (suc (length xs))}
          (omega arith)

  pub take-min : (n : ℕ) (xs : List A) → take n xs ≡ take (min n (length xs)) xs
  take-min zero xs = ap (λ k. take k xs) {x = 0} {y = min 0 (length xs)} (omega arith)
  take-min (suc n) [] = sym (take-nil (min (suc n) 0))
  take-min (suc n) (x ∷ xs) =
      ap (λ l. x ∷ l) (take-min n xs)
      ∙ ap (λ k. take k (x ∷ xs)) {x = suc (min n (length xs))} {y = min (suc n) (suc (length xs))}
          (omega arith)

module _ {ℓ} {A : Type ℓ} where
  -- A write out of bounds changes nothing.
  abbrev pub set : List A → ℕ → A → List A
  set [] i v = []
  set (x ∷ xs) zero v = v ∷ xs
  set (x ∷ xs) (suc i) v = x ∷ set xs i v

  pub length-set : (xs : List A) (i : ℕ) (v : A) → length (set xs i v) ≡ length xs
  length-set [] i v = refl
  length-set (x ∷ xs) zero v = refl
  length-set (x ∷ xs) (suc i) v = ap suc (length-set xs i v)

  pub get_or-set_self :
      (xs : List A) (i : ℕ) (v d : A) → i < length xs → get_or (set xs i v) i d ≡ v
  get_or-set_self [] i v d h = absurd (omega arith)
  get_or-set_self (x ∷ xs) zero v d h = refl
  get_or-set_self (x ∷ xs) (suc i) v d h = get_or-set_self xs i v d (omega arith)

  pub get_or-set_ne :
      (xs : List A) {i j : ℕ} (v d : A) → i ≢ j → get_or (set xs i v) j d ≡ get_or xs j d
  get_or-set_ne [] v d h = refl
  get_or-set_ne (x ∷ xs) {i = zero} {j = zero} v d h = absurd (h refl)
  get_or-set_ne (x ∷ xs) {i = zero} {j = suc j} v d h = refl
  get_or-set_ne (x ∷ xs) {i = suc i} {j = zero} v d h = refl
  get_or-set_ne (x ∷ xs) {i = suc i} {j = suc j} v d h = get_or-set_ne xs v d (λ e. h (ap suc e))

  pub get_or-take :
      (n : ℕ) (xs : List A) (i : ℕ) (d : A) → i < n → get_or (take n xs) i d ≡ get_or xs i d
  get_or-take zero xs i d h = absurd (omega arith)
  get_or-take (suc n) [] i d h = refl
  get_or-take (suc n) (x ∷ xs) zero d h = refl
  get_or-take (suc n) (x ∷ xs) (suc i) d h = get_or-take n xs i d (omega arith)

  pub get_or-drop :
      (n : ℕ) (xs : List A) (i : ℕ) (d : A) → get_or (drop n xs) i d ≡ get_or xs (n + i) d
  get_or-drop zero xs i d = ap (λ k. get_or xs k d) {x = i} {y = 0 + i} (omega arith)
  get_or-drop (suc n) [] i d = refl
  get_or-drop (suc n) (x ∷ xs) i d =
      get_or-drop n xs i d
      ∙ ap (λ k. get_or (x ∷ xs) k d) {x = suc (n + i)} {y = suc n + i} (omega arith)

  pub drop-set : (k : ℕ) (xs : List A) (i : ℕ) (v : A) → i < k → drop k (set xs i v) ≡ drop k xs
  drop-set zero xs i v h = absurd (omega arith)
  drop-set (suc k) [] i v h = refl
  drop-set (suc k) (x ∷ xs) zero v h = refl
  drop-set (suc k) (x ∷ xs) (suc i) v h = drop-set k xs i v (omega arith)
