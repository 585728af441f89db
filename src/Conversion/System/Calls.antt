-- ===== src/Conversion/System/Calls.antt =====
-- `receive` and `submit` keep the invariant of the worker.
use obs_rvc.Prelude.{
  ℕ, ◌+◌, ◌-◌, ◌*◌, ◌^◌, ◌≤◌, ◌<◌, ◌≡◌, refl, inl, inr, true, not, ◌||◌, ◌==◌, if_cases, Option,
  List, length, arith, dec_lt, ltb, ltb→lt, ltb_false→le, Option-cases,
}
use obs_rvc.Float.{Floats, nought}
use obs_rvc.Stream.Queue
use obs_rvc.Stream.Queue.{AudioSampleQueue}
use obs_rvc.Stream.Queue.Refine.{IsValid, discard-IsValid, size-discard}
use obs_rvc.Stream.Queue.Append.{append_lem}
use obs_rvc.Conversion.Frames.{conversion_frame_count-le, frame_count_lem}
use obs_rvc.Conversion.Codec.{AudioData, copy_audio_to_mono}
use obs_rvc.Conversion.Codec.Pcm.{length-copy_audio_to_mono}
use obs_rvc.Conversion.Input.{frames_to_discard_zero, frames_to_discard_bounds}
use obs_rvc.Conversion.Worker.{
  Impl, block_frames, maximum_samples, adopt_format, trim_input, enqueue, submit, frames_to_discard,
  take_samples, receive_take, may_play,
}
use obs_rvc.Conversion.System.Sound.{IsSound, adopt_format-IsSound}

-- The bound after the trim, where the block may be empty too.
trimmed-le :
    (size maximum hop : ℕ)
    → maximum < size
    → size - frames_to_discard (size - maximum) hop ≤ maximum
trimmed-le size maximum hop long = elim (dec_lt 0 hop) [
  | yes some_hop ↦ omega (arith, frames_to_discard_bounds (size - maximum) hop some_hop)
  | no none_hop ↦
      let e : hop ≡ 0 = omega arith in rw e (omega (arith, frames_to_discard_zero (size - maximum)))
]

module _ {F : Type 0} ⦃fl : Floats F⦄ where
  take_samples-IsSound :
      {w : Impl F} (previous : List F) (count : ℕ)
      → IsSound F w
      → w.playback_started ≡ true
      → IsSound F (take_samples w previous count).1
  unfolding take_samples
  take_samples-IsSound {w} previous count v started =
      if_cases (λ (r : Option _ × Impl F). IsSound F r.1) (ltb (Queue.size w.output) count) _ _
        (λ _. ground arith)
        (λ _. record {
          input_valid = v.input_valid;
          output_valid = discard-IsValid count v.output_valid;
          timed = v.timed;
          input_bound = v.input_bound;
          output_bound = omega (arith, size-discard w.output count, v.output_bound);
          staged = inl started;
        })

  started-IsSound : {w : Impl F} → IsSound F w → IsSound F (record w { playback_started = true })
  started-IsSound v = record {
    input_valid = v.input_valid;
    output_valid = v.output_valid;
    timed = v.timed;
    input_bound = v.input_bound;
    output_bound = v.output_bound;
    staged = inl refl;
  }

  pub receive_take-IsSound :
      {w : Impl F} (previous : List F) (frames channels : ℕ)
      → IsSound F w
      → IsSound F (receive_take w previous frames channels).1
  unfolding receive_take
  receive_take-IsSound {w} previous frames channels v =
      if_cases (λ (r : Option _ × Impl F). IsSound F r.1)
        (channels == 0 || not (channels == w.channels)) _ _ (λ _. v)
        (λ _.
          if_cases (λ (r : Option _ × Impl F). IsSound F r.1) (may_play w channels) _ _
            (λ _. take_samples-IsSound previous (frames * channels) (started-IsSound v) refl)
            (λ _. v))

  trim_input-IsSound :
      {w : Impl F} (input : AudioSampleQueue F)
      → IsSound F w
      → IsValid input
      → w.generation + 1 < 2 ^ 64
      → IsSound F (trim_input (record w { input = input }))
  unfolding trim_input
  trim_input-IsSound {w} input v valid more =
      let dropped = frames_to_discard (Queue.size input - maximum_samples w) (block_frames w) in
      if_cases (IsSound F) (ltb (maximum_samples w) (Queue.size input)) _ _
        (λ long. record {
          input_valid = discard-IsValid dropped valid;
          output_valid = v.output_valid;
          timed = record {
            rate_fits = v.rate_fits;
            channels_fit = v.channels_fit;
            generation_fits = omega arith;
            startup_positive = v.startup_positive;
            startup_le = v.startup_le;
            active_le = v.active_le;
            maximum_fits = v.maximum_fits;
          };
          input_bound = omega (
            arith,
            size-discard input dropped,
            trimmed-le (Queue.size input) (maximum_samples w) (block_frames w) (ltb→lt _ _ long),
          );
          output_bound = v.output_bound;
          staged = v.staged;
        })
        (λ short. record {
          input_valid = valid;
          output_valid = v.output_valid;
          timed = v.timed;
          input_bound = ltb_false→le (maximum_samples w) (Queue.size input) short;
          output_bound = v.output_bound;
          staged = v.staged;
        })

  pub generation-adopt_format :
      (w : Impl F) (sample_rate channels : ℕ)
      → (adopt_format w sample_rate channels).generation ≤ w.generation + 1
  unfolding adopt_format
  generation-adopt_format w sample_rate channels = ground arith

  -- The waiting input never comes near the limit of the queue.
  pub maximum_samples-le : (w : Impl F) → w.sample_rate < 2 ^ 32 → maximum_samples w < 2 ^ 40
  maximum_samples-le w fits = omega (
    arith,
    conversion_frame_count-le w.sample_rate w.active_chunk_duration_ms,
    frame_count_lem w.sample_rate 60 fits (omega arith),
  )

  enqueue-IsSound :
      {w : Impl F} (samples : List F) (sample_rate channels : ℕ)
      → IsSound F w
      → length samples < 2 ^ 32
      → sample_rate < 2 ^ 32
      → channels < 2 ^ 16
      → w.generation + 2 < 2 ^ 64
      → IsSound F (enqueue w samples sample_rate channels)
  unfolding enqueue
  enqueue-IsSound {w} samples sample_rate channels v short rate_fits channels_fit more =
      let adopted = adopt_format w sample_rate channels in
      let sound =
        adopt_format-IsSound sample_rate channels v rate_fits channels_fit (omega arith) in
      let valid =
        (append_lem nought samples sound.input_valid
          (omega (arith, maximum_samples-le adopted sound.rate_fits, sound.input_bound))).0 in
      if_cases (IsSound F) (not w.configured || w.stopping) w _ (λ _. v)
        (λ _.
          trim_input-IsSound (Queue.append nought adopted.input samples) sound valid
            (omega (arith, generation-adopt_format w sample_rate channels)))

  pub submit-IsSound :
      {w : Impl F} (max_planes : ℕ) (audio : AudioData F) (sample_rate channels : ℕ)
      → IsSound F w
      → audio.frames < 2 ^ 32
      → sample_rate < 2 ^ 32
      → channels < 2 ^ 16
      → w.generation + 2 < 2 ^ 64
      → IsSound F (submit max_planes w audio sample_rate channels)
  unfolding submit
  submit-IsSound {w} max_planes audio sample_rate channels v short rate_fits channels_fit more =
      if_cases (IsSound F) (sample_rate == 0) w _ (λ _. v)
        (λ _. elim (Option-cases (copy_audio_to_mono max_planes audio channels)) [
          | inl e ↦ rw e v
          | inr (samples, e) ↦ rw e (
              enqueue-IsSound samples sample_rate channels v
                (omega (arith, length-copy_audio_to_mono max_planes audio channels e)) rate_fits
                channels_fit more)
        ])
