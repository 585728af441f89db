-- ===== src/Stream/Assembler/Fade.antt =====
-- The crossfade loops of `stitch`, sample by sample.
use native.Mathlib.Nat.{mul-le-mul_right}
use obs_rvc.Prelude.{
  ℕ, zero, suc, ◌+◌, ◌*◌, ◌≤◌, ◌<◌, ◌≡◌, refl, sym, ap, ◌∙◌, ◌⊎◌, inl, inr, List, arith, length,
  get_or, set, drop, drop-set, length-set, get_or-set_self, get_or-set_ne, ℕ_discrete,
}
use obs_rvc.Float.{Floats, nought}
use obs_rvc.Stream.Assembler.{mix, mix_channels, mix_frames, fade_of}

module _ {F : Type 0} ⦃fl : Floats F⦄ where
  length-mix_channels :
      (tail : List F) (base : ℕ) (fade : F) (left channel : ℕ) (result : List F)
      → length (mix_channels tail base fade left channel result) ≡ length result
  unfolding mix_channels
  length-mix_channels tail base fade zero channel result = refl
  length-mix_channels tail base fade (suc left) channel result =
      let i = base + channel in
      let v = mix tail i fade (get_or result i nought) in
      length-mix_channels tail base fade left (suc channel) (set result i v) ∙ length-set result i v

  mix_channels_outside :
      (tail : List F) (base : ℕ) (fade : F) (left channel : ℕ) (result : List F) (j : ℕ)
      → (j < base + channel) ⊎ (base + channel + left ≤ j)
      → get_or (mix_channels tail base fade left channel result) j nought ≡ get_or result j nought
  unfolding mix_channels
  mix_channels_outside tail base fade zero channel result j h = refl
  mix_channels_outside tail base fade (suc left) channel result j h =
      let i = base + channel in
      let v = mix tail i fade (get_or result i nought) in
      mix_channels_outside tail base fade left (suc channel) (set result i v) j (omega arith)
      ∙ get_or-set_ne result {i = i} {j = j} v nought (omega arith)

  mix_channels_inside :
      (tail : List F) (base : ℕ) (fade : F) (left channel : ℕ) (result : List F) (j : ℕ)
      → base + channel ≤ j
      → j < base + channel + left
      → j < length result
      → get_or (mix_channels tail base fade left channel result) j nought
        ≡ mix tail j fade (get_or result j nought)
  unfolding mix_channels
  mix_channels_inside tail base fade zero channel result j from to room = absurd (omega arith)
  mix_channels_inside tail base fade (suc left) channel result j from to room =
      let i = base + channel in
      let v = mix tail i fade (get_or result i nought) in
      elim (ℕ_discrete i j) [
        | yes e ↦
            mix_channels_outside tail base fade left (suc channel) (set result i v) j
              (inl (omega arith))
            ∙ ap (λ k. get_or (set result i v) k nought) (sym e)
            ∙ get_or-set_self result i v nought (omega arith)
            ∙ ap (λ k. mix tail k fade (get_or result k nought)) e
        | no ne ↦
            mix_channels_inside tail base fade left (suc channel) (set result i v) j (omega arith)
              (omega arith) (omega (arith, length-set result i v))
            ∙ ap (mix tail j fade) (get_or-set_ne result {i = i} {j = j} v nought ne)
      ]

  pub length-mix_frames :
      (tail : List F) (overlap channels left frame : ℕ) (result : List F)
      → length (mix_frames tail overlap channels left frame result) ≡ length result
  unfolding mix_frames
  length-mix_frames tail overlap channels zero frame result = refl
  length-mix_frames tail overlap channels (suc left) frame result =
      length-mix_frames tail overlap channels left (suc frame) _
      ∙ length-mix_channels tail (frame * channels) (fade_of overlap frame) channels 0 result

  mix_frames_outside :
      (tail : List F) (overlap channels left frame : ℕ) (result : List F) (j : ℕ)
      → (j < frame * channels) ⊎ ((frame + left) * channels ≤ j)
      → get_or (mix_frames tail overlap channels left frame result) j nought
        ≡ get_or result j nought
  unfolding mix_frames
  mix_frames_outside tail overlap channels zero frame result j h = refl
  mix_frames_outside tail overlap channels (suc left) frame result j h =
      let row = mix_channels tail (frame * channels) (fade_of overlap frame) channels 0 result in
      mix_frames_outside tail overlap channels left (suc frame) row j (omega arith)
      ∙ mix_channels_outside tail (frame * channels) (fade_of overlap frame) channels 0 result j
          (omega arith)

  pub mix_frames_inside :
      (tail : List F) (overlap channels left frame : ℕ) (result : List F) (f c : ℕ)
      → frame ≤ f
      → f < frame + left
      → c < channels
      → f * channels + c < length result
      → get_or (mix_frames tail overlap channels left frame result) (f * channels + c) nought
        ≡ mix tail (f * channels + c) (fade_of overlap f) (get_or result (f * channels + c) nought)
  unfolding mix_frames
  mix_frames_inside tail overlap channels zero frame result f c from to in_row room =
      absurd (omega arith)
  mix_frames_inside tail overlap channels (suc left) frame result f c from to in_row room =
      let row = mix_channels tail (frame * channels) (fade_of overlap frame) channels 0 result in
      let same : length row ≡ length result =
        length-mix_channels tail (frame * channels) (fade_of overlap frame) channels 0 result in
      elim (ℕ_discrete frame f) [
        | yes e ↦
            let j = f * channels + c in
            let start = ap (λ k. k * channels) e in
            mix_frames_outside tail overlap channels left (suc frame) row j (inl (omega arith))
            ∙ mix_channels_inside tail (frame * channels) (fade_of overlap frame) channels 0 result
                j (omega arith) (omega arith) room
            ∙ ap (λ k. mix tail j (fade_of overlap k) (get_or result j nought)) e
        | no ne ↦
            let j = f * channels + c in
            mix_frames_inside tail overlap channels left (suc frame) row f c (omega arith)
              (omega arith) in_row (omega arith)
            ∙ ap (mix tail j (fade_of overlap f)) (
                mix_channels_outside tail (frame * channels) (fade_of overlap frame) channels 0
                  result j
                  (inr (
                    omega
                      (arith, mul-le-mul_right {m = suc frame} {n = f} channels (omega arith)))))
      ]

  drop-mix_channels :
      (tail : List F) (base : ℕ) (fade : F) (left channel : ℕ) (result : List F) (k : ℕ)
      → base + channel + left ≤ k
      → drop k (mix_channels tail base fade left channel result) ≡ drop k result
  unfolding mix_channels
  drop-mix_channels tail base fade zero channel result k h = refl
  drop-mix_channels tail base fade (suc left) channel result k h =
      let i = base + channel in
      let v = mix tail i fade (get_or result i nought) in
      drop-mix_channels tail base fade left (suc channel) (set result i v) k (omega arith)
      ∙ drop-set k result i v (omega arith)

  -- The loops leave everything behind the overlap as it was.
  pub drop-mix_frames :
      (tail : List F) (overlap channels left frame : ℕ) (result : List F) (k : ℕ)
      → (frame + left) * channels ≤ k
      → drop k (mix_frames tail overlap channels left frame result) ≡ drop k result
  unfolding mix_frames
  drop-mix_frames tail overlap channels zero frame result k h = refl
  drop-mix_frames tail overlap channels (suc left) frame result k h =
      drop-mix_frames tail overlap channels left (suc frame) _ k (omega arith)
      ∙ drop-mix_channels tail (frame * channels) (fade_of overlap frame) channels 0 result k
          (omega arith)
