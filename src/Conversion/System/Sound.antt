-- ===== src/Conversion/System/Sound.antt =====
-- The invariant of the worker, and the calls that keep it.
use obs_rvc.Prelude.{
  ℕ, ◌+◌, ◌-◌, ◌*◌, ◌^◌, ◌≤◌, ◌<◌, ◌≡◌, refl, ◌⊎◌, inl, inr, true, not, ◌||◌, ◌==◌, if_cases, arith,
}
use obs_rvc.Prelude.Int.{ℤ, pos, ◌≤ℤ◌}
use obs_rvc.Float.{Floats}
use obs_rvc.Stream.Queue
use obs_rvc.Stream.Queue.{AudioSampleQueue}
use obs_rvc.Stream.Queue.Refine.{IsValid, fresh-IsValid, clear-IsValid, size-clear}
use obs_rvc.Conversion.Worker.{
  Impl, ConversionOptions, block_frames, startup_frames, maximum_samples, reset, adopt_format, stop,
  receive_finish,
}
use obs_rvc.Conversion.System.{IsSane, new_worker}

-- What the output holds before playing begins: nothing; or one block at least, and so little that
-- the thread goes on; or as much as playing waits for.
abbrev IsStaged : {F : Type 0} → Impl F → Type 0
IsStaged w =
    (Queue.size w.output ≡ 0)
    ⊎ ((startup_frames w * w.channels ≤ Queue.size w.output)
        × (Queue.size w.output ≤ block_frames w * w.channels))
    ⊎ (startup_frames w * 2 * w.channels ≤ Queue.size w.output)

-- The format and the durations: values of their widths, and durations in order.
pub record IsTimed (rate channels generation : ℕ) (startup active maximum : ℤ) : Type 0 where
  pub rate_fits : rate < 2 ^ 32
  pub channels_fit : channels < 2 ^ 16
  pub generation_fits : generation < 2 ^ 64
  pub startup_positive : pos 1 ≤ℤ startup
  pub startup_le : startup ≤ℤ active
  pub active_le : active ≤ℤ maximum
  pub maximum_fits : maximum ≤ℤ pos (2 ^ 31 - 1)

pub record IsSound (F : Type 0) (w : Impl F) : Type 0 where
  pub timed :
      IsTimed w.sample_rate w.channels w.generation w.startup_chunk_duration_ms
        w.active_chunk_duration_ms w.maximum_chunk_duration_ms
  pub open timed use *
  pub input_valid : IsValid w.input
  pub output_valid : IsValid w.output
  -- the bounds on the two queues
  pub input_bound : Queue.size w.input ≤ maximum_samples w
  pub output_bound : Queue.size w.output ≤ 2 * block_frames w * w.channels
  pub staged : (w.playback_started ≡ true) ⊎ IsStaged w

module _ {F : Type 0} ⦃fl : Floats F⦄ where
  pub new_worker-IsSound :
      (options : ConversionOptions F) (stream_id : ℕ) → IsSound F (new_worker options stream_id)
  unfolding new_worker
  new_worker-IsSound options stream_id = record {
    input_valid = fresh-IsValid;
    output_valid = fresh-IsValid;
    timed = record {
      rate_fits = omega arith;
      channels_fit = omega arith;
      generation_fits = omega arith;
      startup_positive = omega arith;
      startup_le = omega arith;
      active_le = omega arith;
      maximum_fits = omega arith;
    };
    input_bound = omega arith;
    output_bound = omega arith;
    staged = inr (inl refl);
  }

  pub reset-IsSound :
      {w : Impl F} (options : ConversionOptions F)
      → IsSound F w
      → IsSane F options
      → w.generation + 1 < 2 ^ 64
      → IsSound F (reset w options)
  unfolding reset
  reset-IsSound {w} options v sane more =
      if_cases (IsSound F) w.stopping w _ (λ _. v)
        (λ _. record {
          input_valid = clear-IsValid w.input;
          output_valid = clear-IsValid w.output;
          timed = record {
            rate_fits = v.rate_fits;
            channels_fit = v.channels_fit;
            generation_fits = omega arith;
            startup_positive = sane.positive;
            startup_le = omega arith;
            active_le = sane.ordered;
            maximum_fits = sane.fits;
          };
          input_bound = omega (arith, size-clear w.input);
          output_bound = omega (arith, size-clear w.output);
          staged = inr (inl (size-clear w.output));
        })

  pub adopt_format-IsSound :
      {w : Impl F} (sample_rate channels : ℕ)
      → IsSound F w
      → sample_rate < 2 ^ 32
      → channels < 2 ^ 16
      → w.generation + 1 < 2 ^ 64
      → IsSound F (adopt_format w sample_rate channels)
  unfolding adopt_format
  adopt_format-IsSound {w} sample_rate channels v rate_fits channels_fit more =
      if_cases (IsSound F) (not (w.sample_rate == sample_rate) || not (w.channels == channels)) _ w
        (λ _. record {
          input_valid = clear-IsValid w.input;
          output_valid = clear-IsValid w.output;
          timed = record {
            rate_fits = rate_fits;
            channels_fit = channels_fit;
            generation_fits = omega arith;
            startup_positive = v.startup_positive;
            startup_le = v.startup_le;
            active_le = v.active_le;
            maximum_fits = v.maximum_fits;
          };
          input_bound = omega (arith, size-clear w.input);
          output_bound = omega (arith, size-clear w.output);
          staged = inr (inl (size-clear w.output));
        })
        (λ _. v)

  pub stop-IsSound : {w : Impl F} → IsSound F w → IsSound F (stop w)
  unfolding stop
  stop-IsSound v = ground arith

  pub receive_finish-IsSound :
      {w : Impl F} (generation : ℕ) (gain : F)
      → IsSound F w
      → IsSound F (receive_finish w generation gain)
  unfolding receive_finish
  receive_finish-IsSound {w} generation gain v =
      if_cases (IsSound F) (w.generation == generation) _ w (λ _. ground arith) (λ _. v)
