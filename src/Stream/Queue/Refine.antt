-- ===== src/Stream/Queue/Refine.antt =====
-- The queue against the list of the samples that it holds.
use native.Mathlib.Nat.{mod-lt, min-eq_left, min-eq_right}
use obs_rvc.Prelude.{
  ℕ, ◌+◌, ◌-◌, ◌≤◌, min, ◌≡◌, refl, sym, ap, ◌∙◌, List, ◌++◌, arith, length, take, drop, dec_lt,
  resize, length-resize, drop_all, is_nil-cases, nil_of_length, lt→ltb, ltb_self, drop-min,
  take-min, Bool-cases, ◌==◌, ==_iff, inl, inr,
}
use mathlib.Core.List.{append-nil}
use obs_rvc.Stream.Queue.{AudioSampleQueue, fresh, size, clear, copy_out, copy_front, discard}
use obs_rvc.Stream.Queue.Window.{contents, length-window, take-window, drop-window, take_eq}
use obs_rvc.Stream.Queue.Copies.{memcpy-window, memcpy-window_round}

module _ {ℓ} {A : Type ℓ} where
  -- `head` is an index of the storage, or 0 where there is none yet.
  pub record IsValid (q : AudioSampleQueue A) : Type 0 where
    pub head_in : q.head ≤ length q.storage - 1
    pub count_in : q.count ≤ length q.storage

  pub fresh-IsValid : IsValid fresh
  fresh-IsValid = omega arith

  pub clear-IsValid : (q : AudioSampleQueue A) → IsValid (clear q)
  unfolding clear
  clear-IsValid q = omega arith

  pub size-clear : (q : AudioSampleQueue A) → size (clear q) ≡ 0
  unfolding clear
  size-clear q = refl

  -- `size` counts the samples that the queue holds.
  pub size-eq-length : {q : AudioSampleQueue A} → IsValid q → length (contents q) ≡ size q
  size-eq-length {q} v = length-window q.storage q.head q.count (omega arith) (omega arith)

  pub size-discard : (q : AudioSampleQueue A) (k : ℕ) → size (discard q k) ≡ size q - k
  unfolding discard
  size-discard q k = omega arith

  -- Straightening the samples overwrites the front of the destination.
  pub copy_out_lem :
      {q : AudioSampleQueue A} (into : List A) (k : ℕ)
      → IsValid q
      → k ≤ q.count
      → k ≤ length into
      → copy_out q into k ≡ take k (contents q) ++ drop k into
  unfolding copy_out
  copy_out_lem {q} into k v le room =
      let f = length q.storage - q.head in
      let prefix =
        ap (λ l. l ++ drop k into) (sym (take-window q.storage q.head k q.count le v.count_in)) in
      elim (dec_lt f k) [
        | yes p ↦
            rw (min-eq_right {n = f} {m = k} (omega arith), lt→ltb f k p)
              (memcpy-window_round into q.storage q.head k room (omega arith) p (omega arith)
                ∙ prefix)
        | no p ↦
            rw (min-eq_left {n = k} {m = f} (omega arith), ltb_self k)
              (memcpy-window into q.storage q.head k (omega arith) ∙ prefix)
      ]

  -- `copy_front` fills the destination with the oldest samples, as many as are asked for and held,
  -- and with nothing of what the destination held before.
  pub copy_front_lem :
      (nought : A) {q : AudioSampleQueue A} (destination : List A) (requested : ℕ)
      → IsValid q
      → copy_front nought q destination requested ≡ take requested (contents q)
  unfolding copy_front
  copy_front_lem nought {q} destination requested v =
      let k = min requested q.count in
      let resized = resize nought destination k in
      let held =
        take-min requested (contents q)
        ∙ ap (λ m. take (min requested m) (contents q)) (size-eq-length v) in
      elim (Bool-cases (k == 0)) [
        | inl none_asked ↦ rw none_asked (
            nil_of_length resized (length-resize nought destination k ∙ (==_iff k 0).0 none_asked)
            ∙ take_eq 0 k (contents q) (sym ((==_iff k 0).0 none_asked))
            ∙ sym held)
        | inr some_asked ↦ rw some_asked (
            copy_out_lem resized k v (omega arith)
              (omega (arith, length-resize nought destination k))
            ∙ ap (λ l. take k (contents q) ++ l)
                (drop_all k resized (omega (arith, length-resize nought destination k)))
            ∙ append-nil (take k (contents q))
            ∙ sym held)
      ]

  pub discard-IsValid : {q : AudioSampleQueue A} (k : ℕ) → IsValid q → IsValid (discard q k)
  unfolding discard
  discard-IsValid {q} k v = elim (is_nil-cases q.storage) [
    | inl (e, none_left) ↦ rw e (ground (arith, ap length none_left))
    | inr (e, some_left) ↦
        rw e (ground (arith, mod-lt (q.head + min k q.count) {m = length q.storage} some_left))
  ]

  -- `discard` drops the oldest samples, all of them if more are asked for than are held.
  pub discard_lem :
      {q : AudioSampleQueue A} (k : ℕ) → IsValid q → contents (discard q k) ≡ drop k (contents q)
  unfolding discard
  discard_lem {q} k v = elim (is_nil-cases q.storage) [
    | inl (e, none_left) ↦
        let empty : q.count ≡ 0 = omega (arith, ap length none_left) in
        nil_of_length (contents (discard q k))
          (omega (arith, size-eq-length (discard-IsValid k v), size-discard q k))
        ∙ sym (drop_all k (contents q) (omega (arith, size-eq-length v)))
    | inr (e, some_left) ↦ rw e (
        sym (
          drop-min k (contents q)
          ∙ ap (λ m. drop (min k m) (contents q)) (size-eq-length v)
          ∙ drop-window q.storage q.head (min k q.count) q.count (omega arith) (omega arith)
              v.count_in))
  ]
