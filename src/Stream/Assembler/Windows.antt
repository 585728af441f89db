-- ===== src/Stream/Assembler/Windows.antt =====
-- The windows that the assembler cuts from a stream, one for each conversion.
use obs_rvc.Prelude.{
  ℕ, zero, suc, ◌+◌, ◌-◌, ◌*◌, ◌≤◌, min, ◌≡◌, refl, sym, ap, ap₂, ◌∙◌, inl, inr, List, [], ◌∷◌,
  ◌++◌, ◌==◌, ==_iff, Bool-cases, arith, length, take, drop, replicate, length-take, length-drop,
  length-append, length-replicate, length-resize, resize, memcpy, memcpy_fill, length-memcpy,
  take-memcpy, take_all, take-append_past, drop-append_past, drop-take, take-take, drop-drop,
  take-append-drop,
}
use obs_rvc.Float.{Floats, nought}
use obs_rvc.Stream.Assembler.{StreamAssembler, reset, leading, joined, window}

module _ {F : Type 0} ⦃fl : Floats F⦄ where
  pub length-leading : (s : StreamAssembler F) (size : ℕ) → length (leading s size) ≡ size
  unfolding leading
  length-leading s size = ground (arith, length-replicate size (nought {F = F}))

  joined_lem : (result history input : List F) → joined result history input ≡ history ++ input
  unfolding joined
  joined_lem result history input =
      memcpy_fill (resize nought result (length history + length input)) history input
        (length-resize nought result (length history + length input))

  -- A window is the history followed by the input, whatever the result held before, and the new
  -- history is the part of the window that ends where the hop does.
  pub window_lem :
      (s : StreamAssembler F) (input : List F) (hop context channels : ℕ) (result : List F)
      → hop * channels ≤ length input
      → let lead = leading s (context * channels) in
        let out = window s input hop context channels result in
        (out.1 ≡ lead ++ input)
        × (out.0.history ≡ take (context * channels) (drop (hop * channels) (lead ++ input)))
        × (out.0.tail ≡ s.tail)
  unfolding window
  window_lem s input hop context channels result fits =
      let c = context * channels in
      let h = hop * channels in
      let lead = leading s c in
      let size = length-leading s c in
      let filled = joined_lem result lead input in
      let whole = length-append lead input in
      let moved : memcpy lead 0 (lead ++ input) h (length lead) ≡ take c (drop h (lead ++ input)) =
        sym (
          take_all c (memcpy lead 0 (lead ++ input) h (length lead)) (
            omega (
              arith,
              length-memcpy lead 0 (lead ++ input) h (length lead) (omega arith) (omega arith),
            )))
        ∙ ap (λ k. take k (memcpy lead 0 (lead ++ input) h (length lead))) {x = c}
            {y = 0 + length lead} (omega arith)
        ∙ take-memcpy lead 0 (lead ++ input) h (length lead) (omega arith) (omega arith)
        ∙ ap (λ k. take k (drop h (lead ++ input))) size in
      (filled, ap (λ l. memcpy lead 0 l h (length lead)) filled ∙ moved, refl)

  -- The windows of `rounds` conversions: each takes `size` samples from the front of the stream
  -- and then drops a hop of it.
  unfoldable pub windows : StreamAssembler F → List F → ℕ → ℕ → ℕ → ℕ → ℕ → List (List F)
  windows s stream size hop context channels zero = []
  windows s stream size hop context channels (suc rounds) =
      let (s', filled) = window s (take size stream) hop context channels [] in
      filled ∷ windows s' (drop (hop * channels) stream) size hop context channels rounds

  -- Slices of one length, each a step behind the last.
  unfoldable pub slices : List F → ℕ → ℕ → ℕ → List (List F)
  slices xs size step zero = []
  slices xs size step (suc rounds) = take size xs ∷ slices (drop step xs) size step rounds

  leading-kept :
      (s : StreamAssembler F) (size : ℕ) → length s.history ≡ size → leading s size ≡ s.history
  unfolding leading
  leading-kept s size e = rw ((==_iff _ _).1 e)

  window-slice :
      (lead stream : List F) (c size : ℕ)
      → length lead ≡ c
      → lead ++ take size stream ≡ take (c + size) (lead ++ stream)
  window-slice lead stream c size e =
      sym (take-append_past (c + size) size lead stream (omega arith))

  -- The history that a window leaves is what precedes the rest of the stream.
  next-leading :
      (s : StreamAssembler F) (lead stream : List F) (c h size : ℕ)
      → h ≤ size
      → size ≤ length stream
      → length lead ≡ c
      → s.history ≡ take c (drop h (take (c + size) (lead ++ stream)))
      → leading s c ++ drop h stream ≡ drop h (lead ++ stream)
  next-leading s lead stream c h size step long lead_size kept =
      let whole = lead ++ stream in
      let cut : s.history ≡ take c (drop h whole) =
        kept
        ∙ ap (take c) (drop-take h (c + size) whole)
        ∙ take-take c (c + size - h) (drop h whole)
        ∙ ap (λ k. take k (drop h whole)) {x = min c (c + size - h)} {y = c} (omega arith) in
      ap₂ ◌++◌
        (leading-kept s c (
            omega (
              arith,
              ap length cut,
              length-take c (drop h whole),
              length-drop h whole,
              length-append lead stream,
            ))
          ∙ cut)
        (sym (drop-append_past (h + c) h lead stream (omega arith)) ∙ sym (drop-drop c h whole))
      ∙ take-append-drop c (drop h whole)

  windows_from :
      (s : StreamAssembler F) (stream : List F) (size hop context channels rounds : ℕ)
      → hop * channels ≤ size
      → rounds * (hop * channels) + (size - hop * channels) ≤ length stream
      → windows s stream size hop context channels rounds
        ≡ slices
            (leading s (context * channels) ++ stream)
            (context * channels + size)
            (hop * channels)
            rounds
  unfolding windows slices
  windows_from s stream size hop context channels zero step long = refl
  windows_from s stream size hop context channels (suc rounds) step long =
      let c = context * channels in
      let h = hop * channels in
      let lead = leading s c in
      let input = take size stream in
      let next = (window s input hop context channels []).0 in
      let full = length-take size stream in
      let (filled, kept, _) = window_lem s input hop context channels [] (omega arith) in
      let joint = window-slice lead stream c size (length-leading s c) in
      ap₂ ◌∷◌ (filled ∙ joint) (
        windows_from next (drop h stream) size hop context channels rounds step
          (omega (arith, length-drop h stream))
        ∙ ap (λ l. slices l (c + size) h rounds)
            (next-leading next lead stream c h size step (omega arith) (length-leading s c)
              (kept ∙ ap (λ l. take c (drop h l)) joint)))

  -- From a reset the windows of consecutive conversions are the slices, a hop apart, of the stream
  -- behind `context` frames of silence: every window begins with the frames that precede it. This
  -- is so as long as the stream holds the input of each conversion.
  pub windows-reset :
      (s : StreamAssembler F) (stream : List F) (size hop context channels rounds : ℕ)
      → hop * channels ≤ size
      → rounds * (hop * channels) + (size - hop * channels) ≤ length stream
      → windows (reset s) stream size hop context channels rounds
        ≡ slices
            (replicate (context * channels) nought ++ stream)
            (context * channels + size)
            (hop * channels)
            rounds
  unfolding reset leading
  windows-reset s stream size hop context channels rounds step long =
      windows_from (reset s) stream size hop context channels rounds step long
      ∙ ap (λ l. slices (l ++ stream) (context * channels + size) (hop * channels) rounds)
          (elim (Bool-cases (0 == context * channels)) [
            | inl e ↦ rw e (ap (λ k. replicate k nought) ((==_iff 0 (context * channels)).0 e))
            | inr e ↦ rw e
          ])
