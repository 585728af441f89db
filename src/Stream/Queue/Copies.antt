-- ===== src/Stream/Queue/Copies.antt =====
-- What the copies of `append`, `copy_front` and `ensure_capacity` leave in their destination.
use mathlib.Core.List.{append-nil, append_assoc}
use obs_rvc.Prelude.{
  ℕ, ◌+◌, ◌-◌, ◌≤◌, ◌<◌, ◌≡◌, refl, sym, ap, ap₂, ◌∙◌, List, ◌++◌, arith, length, take, drop,
  length-take, length-drop, take_all, drop_all, take-append_exact, take-append_past,
  take-append-drop, memcpy, length-memcpy, drop-memcpy_before, drop-memcpy_after, take-memcpy,
}
use obs_rvc.Stream.Queue.Window.{window, take_eq, drop_eq}

module _ {ℓ} {A : Type ℓ} where
  -- One copy is enough where the window does not go round.
  pub memcpy-window :
      (into s : List A) (h k : ℕ)
      → k ≤ length s - h
      → memcpy into 0 s h k ≡ window s h k ++ drop k into
  unfolding memcpy
  memcpy-window into s h k fits =
      ap₂ ◌++◌
        (sym (append-nil (take k (drop h s)))
          ∙ ap (λ l. take k (drop h s) ++ l) (take_eq 0 (k - (length s - h)) s (omega arith)))
        (drop_eq (0 + k) k into (omega arith))

  -- Two copies straighten a window that goes round.
  pub memcpy-window_round :
      (into s : List A) (h k : ℕ)
      → k ≤ length into
      → h ≤ length s
      → length s - h < k
      → k ≤ length s
      → memcpy (memcpy into 0 s h (length s - h)) (length s - h) s 0 (k - (length s - h))
        ≡ window s h k ++ drop k into
  unfolding memcpy
  memcpy-window_round into s h k room inside round fits =
      let f = length s - h in
      let front = memcpy into 0 s h f in
      ap₂ ◌++◌
        (take_eq f (0 + f) front (omega arith)
          ∙ take-memcpy into 0 s h f (omega arith) (omega arith)
          ∙ take_all f (drop h s) (omega (arith, length-drop h s))
          ∙ sym (take_all k (drop h s) (omega (arith, length-drop h s))))
        (ap (λ l. take (k - f) s ++ l)
          (drop-memcpy_after into 0 s h f (f + (k - f)) (omega arith) (omega arith) (omega arith)
            ∙ drop_eq (f + (k - f)) k into (omega arith)))
      ∙ sym (append_assoc (take k (drop h s)) (take (k - f) s) (drop k into))

  -- Writing `vs` behind a window of `n`, where both fit before the end of the storage.
  pub window-memcpy :
      (s vs : List A) (h n : ℕ)
      → h + n + length vs ≤ length s
      → window (memcpy s (h + n) vs 0 (length vs)) h (n + length vs) ≡ window s h n ++ vs
  window-memcpy s vs h n fits =
      let m = length vs in
      let s' = memcpy s (h + n) vs 0 m in
      let same : length s' ≡ length s =
        length-memcpy s (h + n) vs 0 m (omega arith) (omega arith) in
      ap₂ ◌++◌
        (ap (take (n + m)) (drop-memcpy_before s (h + n) vs 0 m h (omega arith) (omega arith))
          ∙ ap (λ l. take (n + m) (take (h + n - h) (drop h s) ++ (l ++ drop (h + n + m) s)))
              (take_all m vs (omega arith))
          ∙ take-append_past (n + m) m (take (h + n - h) (drop h s)) (vs ++ drop (h + n + m) s)
              (omega (arith, length-take (h + n - h) (drop h s), length-drop h s))
          ∙ ap₂ ◌++◌ (take_eq (h + n - h) n (drop h s) (omega arith))
              (take-append_exact m vs (drop (h + n + m) s) refl))
        (take_eq (n + m - (length s' - h)) 0 s' (omega arith))
      ∙ append-nil (take n (drop h s) ++ vs)
      ∙ ap (λ l. l ++ vs)
          (sym (append-nil (take n (drop h s)))
            ∙ ap (λ l. take n (drop h s) ++ l) (take_eq 0 (n - (length s - h)) s (omega arith)))

  -- Where only a part of `vs` fits before the end, and the rest goes to the front.
  pub window-memcpy_split :
      (s vs : List A) (h n : ℕ)
      → h + n ≤ length s
      → length s < h + n + length vs
      → n + length vs ≤ length s
      → let f = length s - (h + n) in
        window (memcpy (memcpy s (h + n) vs 0 f) 0 vs f (length vs - f)) h (n + length vs)
        ≡ window s h n ++ vs
  window-memcpy_split s vs h n inside over fits =
      let m = length vs in
      let f = length s - (h + n) in
      let s₁ = memcpy s (h + n) vs 0 f in
      let s₂ = memcpy s₁ 0 vs f (m - f) in
      let same₁ : length s₁ ≡ length s =
        length-memcpy s (h + n) vs 0 f (omega arith) (omega arith) in
      let same₂ : length s₂ ≡ length s =
        length-memcpy s₁ 0 vs f (m - f) (omega arith) (omega arith) ∙ same₁ in
      let back : drop h s₂ ≡ take n (drop h s) ++ take f vs =
        drop-memcpy_after s₁ 0 vs f (m - f) h (omega arith) (omega arith) (omega arith)
        ∙ drop-memcpy_before s (h + n) vs 0 f h (omega arith) (omega arith)
        ∙ ap₂ ◌++◌ (take_eq (h + n - h) n (drop h s) (omega arith)) (
            ap (λ l. take f vs ++ l) (drop_all (h + n + f) s (omega arith))
            ∙ append-nil (take f vs)) in
      let front : take (n + m - (length s₂ - h)) s₂ ≡ drop f vs =
        take_eq (n + m - (length s₂ - h)) (0 + (m - f)) s₂ (omega arith)
        ∙ take-memcpy s₁ 0 vs f (m - f) (omega arith) (omega arith)
        ∙ take_all (m - f) (drop f vs) (omega (arith, length-drop f vs)) in
      ap₂ ◌++◌ (take_all (n + m) (drop h s₂) (omega (arith, length-drop h s₂)) ∙ back) front
      ∙ append_assoc (take n (drop h s)) (take f vs) (drop f vs)
      ∙ ap₂ ◌++◌
          (sym (append-nil (take n (drop h s)))
            ∙ ap (λ l. take n (drop h s) ++ l) (take_eq 0 (n - (length s - h)) s (omega arith)))
          (take-append-drop f vs)

  -- Where the window already goes round.
  pub window-memcpy_round :
      (s vs : List A) (h n : ℕ)
      → h ≤ length s
      → length s ≤ h + n
      → n + length vs ≤ length s
      → window (memcpy s (h + n - length s) vs 0 (length vs)) h (n + length vs) ≡ window s h n ++ vs
  window-memcpy_round s vs h n inside round fits =
      let m = length vs in
      let i = h + n - length s in
      let s' = memcpy s i vs 0 m in
      let same : length s' ≡ length s = length-memcpy s i vs 0 m (omega arith) (omega arith) in
      ap₂ ◌++◌
        (ap (take (n + m))
            (drop-memcpy_after s i vs 0 m h (omega arith) (omega arith) (omega arith))
          ∙ take_all (n + m) (drop h s) (omega (arith, length-drop h s))
          ∙ sym (take_all n (drop h s) (omega (arith, length-drop h s))))
        (take_eq (n + m - (length s' - h)) (i + m) s' (omega arith)
          ∙ take-memcpy s i vs 0 m (omega arith) (omega arith)
          ∙ ap₂ ◌++◌ (take_eq i (n - (length s - h)) s (omega arith)) (take_all m vs (omega arith)))
      ∙ sym (append_assoc (take n (drop h s)) (take (n - (length s - h)) s) vs)
