-- ===== src/Prelude/Memory.antt =====
-- `memcpy` and `resize` on vectors.
use Prim.Native.Nat.{ℕ, ◌+◌, ◌-◌, ◌≤◌}
use mathlib.Core.Path.{◌≡◌, sym, ◌∙◌, ap, ap₂}
use mathlib.Core.List.{List, ◌++◌}
use native.Mathlib.Omega.{arith}
use obs_rvc.Prelude.Lists.{length, take, drop, replicate, length-append, length-take, length-drop}
use obs_rvc.Prelude.Lists.{length-replicate, drop-drop, drop-take, take-append_exact, take_all}
use obs_rvc.Prelude.Lists.{take-append_past, drop-append_past, drop-append_within}

module _ {ℓ} {A : Type ℓ} where
  -- `memcpy(dst + i, src + j, n)`, counted in elements. The callers stay inside both vectors, as
  -- is proved for each; outside them the list grows or less is copied.
  unfoldable pub memcpy : List A → ℕ → List A → ℕ → ℕ → List A
  memcpy dst i src j n = take i dst ++ (take n (drop j src) ++ drop (i + n) dst)

  -- `v.resize(n)`, where `nought` is the value of a new element.
  unfoldable pub resize : A → List A → ℕ → List A
  resize nought v n = take n v ++ replicate (n - length v) nought

  pub length-memcpy :
      (dst : List A) (i : ℕ) (src : List A) (j n : ℕ)
      → i + n ≤ length dst
      → j + n ≤ length src
      → length (memcpy dst i src j n) ≡ length dst
  unfolding memcpy
  length-memcpy dst i src j n inside_dst inside_src = omega (
    arith,
    length-append (take i dst) (take n (drop j src) ++ drop (i + n) dst),
    length-append (take n (drop j src)) (drop (i + n) dst),
    length-take i dst,
    length-take n (drop j src),
    length-drop j src,
    length-drop (i + n) dst,
  )

  pub length-resize : (nought : A) (v : List A) (n : ℕ) → length (resize nought v n) ≡ n
  unfolding resize
  length-resize nought v n = omega (
    arith,
    length-append (take n v) (replicate (n - length v) nought),
    length-take n v,
    length-replicate (n - length v) nought,
  )

  -- Reading from an index at or before the copied range.
  pub drop-memcpy_before :
      (dst : List A) (i : ℕ) (src : List A) (j n k : ℕ)
      → i + n ≤ length dst
      → k ≤ i
      → drop k (memcpy dst i src j n)
        ≡ take (i - k) (drop k dst) ++ (take n (drop j src) ++ drop (i + n) dst)
  unfolding memcpy
  drop-memcpy_before dst i src j n k inside le =
      drop-append_within k (take i dst) (take n (drop j src) ++ drop (i + n) dst)
        (omega (arith, length-take i dst))
      ∙ ap (λ l. l ++ (take n (drop j src) ++ drop (i + n) dst)) (drop-take k i dst)

  -- Reading behind the copied range.
  pub drop-memcpy_after :
      (dst : List A) (i : ℕ) (src : List A) (j n k : ℕ)
      → i + n ≤ length dst
      → j + n ≤ length src
      → i + n ≤ k
      → drop k (memcpy dst i src j n) ≡ drop k dst
  unfolding memcpy
  drop-memcpy_after dst i src j n k inside within le =
      drop-append_past k (k - i) (take i dst) (take n (drop j src) ++ drop (i + n) dst)
        (omega (arith, length-take i dst))
      ∙ drop-append_past (k - i) (k - i - n) (take n (drop j src)) (drop (i + n) dst)
          (omega (arith, length-take n (drop j src), length-drop j src))
      ∙ drop-drop (k - i - n) (i + n) dst
      ∙ ap (λ m. drop m dst) {x = i + n + (k - i - n)} {y = k} (omega arith)

  -- The front up to the end of the copied range.
  pub take-memcpy :
      (dst : List A) (i : ℕ) (src : List A) (j n : ℕ)
      → i + n ≤ length dst
      → j + n ≤ length src
      → take (i + n) (memcpy dst i src j n) ≡ take i dst ++ take n (drop j src)
  unfolding memcpy
  take-memcpy dst i src j n inside within =
      take-append_past (i + n) n (take i dst) (take n (drop j src) ++ drop (i + n) dst)
        (omega (arith, length-take i dst))
      ∙ ap (λ l. take i dst ++ l)
          (take-append_exact n (take n (drop j src)) (drop (i + n) dst)
            (omega (arith, length-take n (drop j src), length-drop j src)))

  -- Two copies that fill a vector leave nothing of what it held.
  pub memcpy_fill :
      (dst xs ys : List A)
      → length dst ≡ length xs + length ys
      → memcpy (memcpy dst 0 xs 0 (length xs)) (length xs) ys 0 (length ys) ≡ xs ++ ys
  memcpy_fill dst xs ys fits =
      let n = length xs in
      let m = length ys in
      let front = memcpy dst 0 xs 0 n in
      let same = length-memcpy dst 0 xs 0 n (omega arith) (omega arith) in
      let full = length-memcpy front n ys 0 m (omega arith) (omega arith) in
      sym (take_all (n + m) (memcpy front n ys 0 m) (omega arith))
      ∙ take-memcpy front n ys 0 m (omega arith) (omega arith)
      ∙ ap₂ ◌++◌
          (ap (λ k. take k front) {x = n} {y = 0 + n} (omega arith)
            ∙ take-memcpy dst 0 xs 0 n (omega arith) (omega arith)
            ∙ take_all n xs (omega arith))
          (take_all m ys (omega arith))
