-- ===== src/Conversion/System/Calm.antt =====
-- The calls of the owner leave a conversion under way current, or begin a new generation.
use obs_rvc.Prelude.{
  ℕ, ◌+◌, ◌*◌, ◌<◌, ◌^◌, ◌≡◌, refl, ◌⊎◌, inl, inr, true, not, ◌||◌, ◌==◌, if_cases, Option, List,
  arith, ltb, Option-cases,
}
use obs_rvc.Float.{Floats, nought}
use obs_rvc.Stream.Queue
use obs_rvc.Stream.Queue.{AudioSampleQueue}
use mathlib.Core.Path.{subst}
use obs_rvc.Conversion.System.Calls.{generation-adopt_format}
use obs_rvc.Stream.Queue.Refine.{size-discard}
use obs_rvc.Conversion.Codec.{AudioData, copy_audio_to_mono}
use obs_rvc.Conversion.Worker.{
  Playback, Impl, ConversionOptions, reset, submit, enqueue, adopt_format, trim_input, stop,
  take_samples, receive_take, receive_finish, may_play, maximum_samples,
}
use obs_rvc.Conversion.System.Tracking.{IsKept, IsCalm, IsKept-self}

module _ {F : Type 0} ⦃fl : Floats F⦄ where
  pub reset-IsCalm :
      (w : Impl F) (options : ConversionOptions F)
      → w.generation + 1 < 2 ^ 64
      → IsCalm F w (reset w options)
  unfolding reset
  reset-IsCalm w options more =
      if_cases (IsCalm F w) w.stopping w _ (λ _. inr (IsKept-self w)) (λ _. inl (omega arith))

  pub adopt_format-IsCalm :
      (w : Impl F) (sample_rate channels : ℕ)
      → w.generation + 1 < 2 ^ 64
      → (w.generation < (adopt_format w sample_rate channels).generation)
        ⊎ (adopt_format w sample_rate channels ≡ w)
  unfolding adopt_format
  adopt_format-IsCalm w sample_rate channels more =
      if_cases (λ w'. (w.generation < w'.generation) ⊎ (w' ≡ w))
        (not (w.sample_rate == sample_rate) || not (w.channels == channels)) _ w
        (λ _. inl (omega arith)) (λ _. inr refl)

  trim_input-IsCalm :
      (w : Impl F) (input : AudioSampleQueue F)
      → w.generation + 1 < 2 ^ 64
      → IsCalm F w (trim_input (record w { input = input }))
  unfolding trim_input
  trim_input-IsCalm w input more =
      if_cases (IsCalm F w) (ltb (maximum_samples w) (Queue.size input)) _ _
        (λ _. inl (omega arith)) (λ _. inr (ground arith))

  enqueue-IsCalm :
      (w : Impl F) (samples : List F) (sample_rate channels : ℕ)
      → w.generation + 2 < 2 ^ 64
      → IsCalm F w (enqueue w samples sample_rate channels)
  unfolding enqueue
  enqueue-IsCalm w samples sample_rate channels more =
      let adopted = adopt_format w sample_rate channels in
      let input = Queue.append nought adopted.input samples in
      let few = generation-adopt_format w sample_rate channels in
      let calm = trim_input-IsCalm adopted input (omega arith) in
      if_cases (IsCalm F w) (not w.configured || w.stopping) w _ (λ _. inr (IsKept-self w))
        (λ _. elim (adopt_format-IsCalm w sample_rate channels (omega arith)) [
          | inl later ↦ inl (elim calm [
            | inl more_later ↦ omega arith
            | inr kept ↦ omega (arith, kept.generation_eq)
          ])
          | inr same ↦
              subst (λ (v : Impl F). IsCalm F v (trim_input (record adopted { input = input })))
                same calm
        ])

  pub submit-IsCalm :
      (w : Impl F) (max_planes : ℕ) (audio : AudioData F) (sample_rate channels : ℕ)
      → w.generation + 2 < 2 ^ 64
      → IsCalm F w (submit max_planes w audio sample_rate channels)
  unfolding submit
  submit-IsCalm w max_planes audio sample_rate channels more =
      if_cases (IsCalm F w) (sample_rate == 0) w _ (λ _. inr (IsKept-self w))
        (λ _. elim (Option-cases (copy_audio_to_mono max_planes audio channels)) [
          | inl e ↦ rw e (inr (IsKept-self w))
          | inr (samples, e) ↦ rw e (enqueue-IsCalm w samples sample_rate channels more)
        ])

  take_samples-IsKept :
      (w : Impl F) (previous : List F) (count : ℕ)
      → w.playback_started ≡ true
      → IsKept F w (take_samples w previous count).1
  unfolding take_samples
  take_samples-IsKept w previous count started =
      if_cases (λ (r : Option (Playback F) × Impl F). IsKept F w r.1)
        (ltb (Queue.size w.output) count) _ _ (λ _. ground arith)
        (λ _. record {
          generation_eq = refl;
          rate_eq = refl;
          channels_eq = refl;
          block_eq = refl;
          startup_eq = refl;
          output_le = omega (arith, size-discard w.output count);
          played = inl started;
        })

  started-IsKept :
      (w w' : Impl F)
      → IsKept F (record w { playback_started = true }) w'
      → w'.playback_started ≡ true
      → IsKept F w w'
  started-IsKept w w' k started = record {
    generation_eq = k.generation_eq;
    rate_eq = k.rate_eq;
    channels_eq = k.channels_eq;
    block_eq = k.block_eq;
    startup_eq = k.startup_eq;
    output_le = k.output_le;
    played = inl started;
  }

  playing-take_samples :
      (w : Impl F) (previous : List F) (count : ℕ)
      → (take_samples w previous count).1.playback_started ≡ w.playback_started
  unfolding take_samples
  playing-take_samples w previous count = ground arith

  pub receive_take-IsKept :
      (w : Impl F) (previous : List F) (frames channels : ℕ)
      → IsKept F w (receive_take w previous frames channels).1
  unfolding receive_take
  receive_take-IsKept w previous frames channels =
      let playing = record w { playback_started = true } in
      let count = frames * channels in
      if_cases (λ (r : Option (Playback F) × Impl F). IsKept F w r.1)
        (channels == 0 || not (channels == w.channels)) _ _ (λ _. IsKept-self w)
        (λ _.
          if_cases (λ (r : Option (Playback F) × Impl F). IsKept F w r.1) (may_play w channels) _ _
            (λ _.
              started-IsKept w _ (take_samples-IsKept playing previous count refl)
                (playing-take_samples playing previous count))
            (λ _. IsKept-self w))

  pub receive_finish-IsKept :
      (w : Impl F) (generation : ℕ) (gain : F) → IsKept F w (receive_finish w generation gain)
  unfolding receive_finish
  receive_finish-IsKept w generation gain =
      if_cases (IsKept F w) (w.generation == generation) _ w (λ _. ground arith)
        (λ _. IsKept-self w)

  pub stop-IsKept : (w : Impl F) → IsKept F w (stop w)
  unfolding stop
  stop-IsKept w = ground arith
