-- ===== src/Conversion/Playback.antt =====
-- What `receive` writes into the planes of OBS.
use mathlib.Core.Option
use obs_rvc.Prelude.{
  ℕ, zero, suc, ◌+◌, ◌*◌, ◌≤◌, ◌<◌, ◌≡◌, ◌≢◌, refl, sym, ap, ◌∙◌, Option, none, some, List, [],
  arith, length, get_or, set, ◌==◌, ==_iff, ℕ_discrete, if◌then◌else◌, get_or-set_self,
  get_or-set_ne, length-set,
}
use obs_rvc.Float.{Floats, nought, one, min_single}
use obs_rvc.Conversion.Worker.{play_channels, play_frames}

module _ {F : Type 0} ⦃fl : Floats F⦄ where
  -- The gain after some frames of the ramp.
  unfoldable pub ramp : F → F → ℕ → F
  ramp step gain zero = gain
  ramp step gain (suc frames) = ramp step (min_single one (fl.single.add gain step)) frames

  -- A plane, where a null pointer has none.
  abbrev pub plane_of : Option (List F) → List F
  plane_of none = []
  plane_of (some plane) = plane

  -- What the inner loop does to one plane.
  unfoldable pub played : List F → ℕ → ℕ → F → ℕ → Option (List F) → Option (List F)
  played samples frame channels gain c plane =
      Option.map
        (λ p. set p frame (fl.single.mul (get_or samples (frame * channels + c) nought) gain)) plane

  -- One round of the inner loop, at its own channel and at another.
  abbrev written : (ℕ → Option (List F)) → List F → ℕ → ℕ → F → ℕ → ℕ → Option (List F)
  written planes samples frame channels gain channel c =
      let value = fl.single.mul (get_or samples (frame * channels + channel) nought) gain in
      if c == channel then Option.map (λ plane. set plane frame value) (planes c) else planes c

  same_channel :
      (planes : ℕ → Option (List F)) (samples : List F) (frame channels : ℕ) (gain : F) (c : ℕ)
      → written planes samples frame channels gain c c
        ≡ played samples frame channels gain c (planes c)
  unfolding played
  same_channel planes samples frame channels gain c = rw ((==_iff c c).1 refl) refl

  other_channel :
      (planes : ℕ → Option (List F)) (samples : List F) (frame channels : ℕ) (gain : F)
      (channel c : ℕ)
      → c ≢ channel
      → written planes samples frame channels gain channel c ≡ planes c
  other_channel planes samples frame channels gain channel c ne = ground arith

  play_channels_past :
      (planes : ℕ → Option (List F)) (samples : List F) (frame channels : ℕ) (gain : F)
      (left channel c : ℕ)
      → c < channel
      → play_channels planes samples frame channels gain left channel c ≡ planes c
  unfolding play_channels
  play_channels_past planes samples frame channels gain zero channel c before = refl
  play_channels_past planes samples frame channels gain (suc left) channel c before =
      play_channels_past (written planes samples frame channels gain channel) samples frame channels
        gain left (suc channel) c (omega arith)
      ∙ other_channel planes samples frame channels gain channel c (λ e. absurd (omega arith))

  play_channels_lem :
      (planes : ℕ → Option (List F)) (samples : List F) (frame channels : ℕ) (gain : F)
      (left channel c : ℕ)
      → channel ≤ c
      → c < channel + left
      → play_channels planes samples frame channels gain left channel c
        ≡ played samples frame channels gain c (planes c)
  unfolding play_channels played
  play_channels_lem planes samples frame channels gain zero channel c from to = absurd (omega arith)
  play_channels_lem planes samples frame channels gain (suc left) channel c from to =
      elim (ℕ_discrete c channel) [
        | yes e ↦ rw e (
            play_channels_past (written planes samples frame channels gain channel) samples frame
              channels gain left (suc channel) channel (omega arith)
            ∙ same_channel planes samples frame channels gain channel)
        | no ne ↦
            play_channels_lem (written planes samples frame channels gain channel) samples frame
              channels gain left (suc channel) c (omega arith) (omega arith)
            ∙ ap (played samples frame channels gain c)
                (other_channel planes samples frame channels gain channel c ne)
      ]

  -- What the inner loop leaves of a plane.
  played_lem :
      (samples : List F) (frame channels : ℕ) (gain : F) (c f : ℕ) (plane : Option (List F))
      → let plane' = plane_of (played samples frame channels gain c plane) in
        (length plane' ≡ length (plane_of plane))
        × ((f ≢ frame → get_or plane' f nought ≡ get_or (plane_of plane) f nought))
        × (frame < length (plane_of plane)
            → get_or plane' frame nought
              ≡ fl.single.mul (get_or samples (frame * channels + c) nought) gain)
  unfolding played
  played_lem samples frame channels gain c f none =
      (refl, λ ne. refl, λ inside. absurd (omega arith))
  played_lem samples frame channels gain c f (some plane) =
      let value = fl.single.mul (get_or samples (frame * channels + c) nought) gain in
      (
        length-set plane frame value,
        λ ne. get_or-set_ne plane value nought (λ e. ne (sym e)),
        λ inside. get_or-set_self plane frame value nought inside,
      )

  -- The frames that the loop has passed keep their samples, and so do the lengths.
  play_frames_past :
      (planes : ℕ → Option (List F)) (samples : List F) (channels : ℕ) (step gain : F)
      (left frame c f : ℕ)
      → c < channels
      → f < frame
      → get_or (plane_of ((play_frames planes samples channels step gain left frame).0 c)) f nought
        ≡ get_or (plane_of (planes c)) f nought
  unfolding play_frames
  play_frames_past planes samples channels step gain zero frame c f in_row before = refl
  play_frames_past planes samples channels step gain (suc left) frame c f in_row before =
      let gain' = min_single one (fl.single.add gain step) in
      play_frames_past (play_channels planes samples frame channels gain' channels 0) samples
        channels step gain' left (suc frame) c f in_row (omega arith)
      ∙ ap (λ p. get_or (plane_of p) f nought)
          (play_channels_lem planes samples frame channels gain' channels 0 c (omega arith)
            (omega arith))
      ∙ (played_lem samples frame channels gain' c f (planes c)).1 (λ e. absurd (omega arith))

  play_frames_from :
      (planes : ℕ → Option (List F)) (samples : List F) (channels : ℕ) (step gain : F)
      (left frame c k : ℕ)
      → c < channels
      → k < left
      → frame + left ≤ length (plane_of (planes c))
      → get_or
          (plane_of ((play_frames planes samples channels step gain left frame).0 c))
          (frame + k)
          nought
        ≡ fl.single.mul
            (get_or samples ((frame + k) * channels + c) nought)
            (ramp step gain (suc k))
  unfolding play_frames ramp
  play_frames_from planes samples channels step gain zero frame c k in_row inside room =
      absurd (omega arith)
  play_frames_from planes samples channels step gain (suc left) frame c zero in_row inside room =
      let gain' = min_single one (fl.single.add gain step) in
      let next = play_channels planes samples frame channels gain' channels 0 in
      let at : frame + zero ≡ frame = omega arith in
      rw at (
        play_frames_past next samples channels step gain' left (suc frame) c frame in_row
          (omega arith)
        ∙ ap (λ p. get_or (plane_of p) frame nought)
            (play_channels_lem planes samples frame channels gain' channels 0 c (omega arith)
              (omega arith))
        ∙ (played_lem samples frame channels gain' c frame (planes c)).2 (omega arith))
  play_frames_from planes samples channels step gain (suc left) frame c (suc k) in_row inside room =
      let gain' = min_single one (fl.single.add gain step) in
      let next = play_channels planes samples frame channels gain' channels 0 in
      let at : frame + suc k ≡ suc frame + k = omega arith in
      let kept =
        ap (λ p. length (plane_of p))
          (play_channels_lem planes samples frame channels gain' channels 0 c (omega arith)
            (omega arith))
        ∙ (played_lem samples frame channels gain' c frame (planes c)).0 in
      rw at (
        play_frames_from next samples channels step gain' left (suc frame) c k in_row (omega arith)
          (omega (arith, kept)))

  -- `receive` writes every frame of every channel: sample `c` of frame `f` is that of the output at
  -- `f * channels + c`, times the gain of the ramp after `f + 1` steps from the gain at the start.
  -- This is for planes that have room for the frames.
  pub play_frames_lem :
      (planes : ℕ → Option (List F)) (samples : List F) (channels : ℕ) (step gain : F)
      (frames c f : ℕ)
      → c < channels
      → f < frames
      → frames ≤ length (plane_of (planes c))
      → get_or (plane_of ((play_frames planes samples channels step gain frames 0).0 c)) f nought
        ≡ fl.single.mul (get_or samples (f * channels + c) nought) (ramp step gain (suc f))
  play_frames_lem planes samples channels step gain frames c f in_row inside room =
      let zero_plus : 0 + f ≡ f = omega arith in
      rw zero_plus at (
        play_frames_from planes samples channels step gain frames 0 c f in_row inside (omega arith))
