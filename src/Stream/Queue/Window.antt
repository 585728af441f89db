-- ===== src/Stream/Queue/Window.antt =====
-- The samples that a queue holds, and how copies into its storage move them.
use mathlib.Core.List.{append-nil}
use native.Mathlib.Nat.{mod-eq_of_lt, mod-eq-sub-mod}
use obs_rvc.Prelude.{
  ℕ, ◌+◌, ◌-◌, ◌%◌, ◌≤◌, ◌<◌, min, ◌≡◌, refl, sym, ap, ap₂, ◌∙◌, List, ◌++◌, arith, dec_lt, length,
  take, drop, length-append, length-take, length-drop, drop_all, take-append, drop-append,
  take-take, drop-drop, drop-take,
}
use obs_rvc.Stream.Queue.{AudioSampleQueue}

module _ {ℓ} {A : Type ℓ} where
  -- The `n` elements of `s` from index `h` on, going round at the end of `s`.
  abbrev pub window : List A → ℕ → ℕ → List A
  window s h n = take n (drop h s) ++ take (n - (length s - h)) s

  -- What the queue holds, oldest first.
  abbrev pub contents : AudioSampleQueue A → List A
  contents q = window q.storage q.head q.count

  pub length-window :
      (s : List A) (h n : ℕ) → h ≤ length s → n ≤ length s → length (window s h n) ≡ n
  length-window s h n inside fits = omega (
    arith,
    length-append (take n (drop h s)) (take (n - (length s - h)) s),
    length-take n (drop h s),
    length-drop h s,
    length-take (n - (length s - h)) s,
  )

  pub take_eq : (m n : ℕ) (xs : List A) → m ≡ n → take m xs ≡ take n xs
  take_eq m n xs e = ap (λ k. take k xs) e

  pub drop_eq : (m n : ℕ) (xs : List A) → m ≡ n → drop m xs ≡ drop n xs
  drop_eq m n xs e = ap (λ k. drop k xs) e

  -- A shorter window is a prefix of a longer one.
  pub take-window :
      (s : List A) (h k n : ℕ) → k ≤ n → n ≤ length s → take k (window s h n) ≡ window s h k
  take-window s h k n le fits =
      take-append k (take n (drop h s)) (take (n - (length s - h)) s)
      ∙ ap₂ ◌++◌ (take-take k n (drop h s) ∙ take_eq (min k n) k (drop h s) (omega arith)) (
          take-take (k - length (take n (drop h s))) (n - (length s - h)) s
          ∙ take_eq _ (k - (length s - h)) s
              (omega (arith, length-take n (drop h s), length-drop h s)))

  drop-window_inside :
      (s : List A) (h k n : ℕ)
      → h + k < length s
      → k ≤ n
      → n ≤ length s
      → drop k (window s h n) ≡ window s (h + k) (n - k)
  drop-window_inside s h k n inside le fits =
      drop-append k (take n (drop h s)) (take (n - (length s - h)) s)
      ∙ ap₂ ◌++◌ (drop-take k n (drop h s) ∙ ap (take (n - k)) (drop-drop k h s)) (
          drop_eq (k - length (take n (drop h s))) 0 (take (n - (length s - h)) s)
            (omega (arith, length-take n (drop h s), length-drop h s))
          ∙ take_eq (n - (length s - h)) (n - k - (length s - (h + k))) s (omega arith))

  drop-window_round :
      (s : List A) (h k n : ℕ)
      → h < length s
      → length s ≤ h + k
      → k ≤ n
      → n ≤ length s
      → drop k (window s h n) ≡ window s (h + k - length s) (n - k)
  drop-window_round s h k n inside round le fits =
      drop-append k (take n (drop h s)) (take (n - (length s - h)) s)
      ∙ ap₂ ◌++◌
          (drop_all k (take n (drop h s))
            (omega (arith, length-take n (drop h s), length-drop h s)))
          refl
      ∙ drop_eq (k - length (take n (drop h s))) (h + k - length s) _
          (omega (arith, length-take n (drop h s), length-drop h s))
      ∙ drop-take (h + k - length s) (n - (length s - h)) s
      ∙ take_eq _ (n - k) (drop (h + k - length s) s) (omega arith)
      ∙ sym (append-nil (take (n - k) (drop (h + k - length s) s)))
      ∙ ap (λ l. take (n - k) (drop (h + k - length s) s) ++ l)
          (take_eq 0 (n - k - (length s - (h + k - length s))) s (omega arith))

  -- Moving the start forward, round the end of the storage if it comes to that.
  pub drop-window :
      (s : List A) (h k n : ℕ)
      → h < length s
      → k ≤ n
      → n ≤ length s
      → drop k (window s h n) ≡ window s ((h + k) % length s) (n - k)
  drop-window s h k n inside le fits = elim (dec_lt (h + k) (length s)) [
    | yes p ↦ rw (mod-eq_of_lt p) (drop-window_inside s h k n p le fits)
    | no p ↦
        rw
          (
            mod-eq-sub-mod {n = h + k} {m = length s} (omega arith),
            mod-eq_of_lt {n = h + k - length s} {m = length s} (omega arith),
          )
          (drop-window_round s h k n inside (omega arith) le fits)
  ]
