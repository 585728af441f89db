-- ===== src/Conversion/System/Tracking.antt =====
-- What a conversion under way knows of the worker that it was taken from.
use obs_rvc.Prelude.{
  ◌+◌, ◌*◌, ◌≤◌, ◌<◌, ◌^◌, ◌≡◌, sym, ap, ap₂, ◌∙◌, ◌⊎◌, inl, inr, true, length, arith,
}
use obs_rvc.Ipc.Transport.{max_input_bytes}
use obs_rvc.Stream.Queue
use obs_rvc.Stream.Queue.{AudioSampleQueue}
use obs_rvc.Conversion.Frames.{history_frames, lookahead_frames, bytes_per_sample}
use obs_rvc.Conversion.Worker.{Impl, block_frames, startup_frames}
use obs_rvc.Conversion.Loop.{Job}
use obs_rvc.Conversion.System.{Stage, waiting, converting, delivering, adapting, exited}

-- A job by itself: a block of some frames and channels, in a window that fits a request.
pub record IsJob (F : Type 0) (job : Job F) : Type 0 where
  pub rate_fits : job.sample_rate < 2 ^ 32
  pub channels_fit : job.channels < 2 ^ 16
  pub some_channel : 0 < job.channels
  pub some_hop : 0 < job.hop_frames
  pub context_eq : job.context_frames ≡ history_frames job.sample_rate
  pub window_size :
      length job.window_samples
      ≡ history_frames job.sample_rate + job.hop_frames + lookahead_frames job.sample_rate
  pub bytes_fit : length job.window_samples * bytes_per_sample ≤ max_input_bytes

-- The job belongs to the worker's generation: its format and block are current, and there is room
-- for its audio.
pub record IsFresh (F : Type 0) (w : Impl F) (job : Job F) : Type 0 where
  pub same_generation : job.generation ≡ w.generation
  pub same_rate : job.sample_rate ≡ w.sample_rate
  pub same_channels : job.channels ≡ w.channels
  pub hop_le : job.hop_frames ≤ block_frames w
  pub hop_ge : startup_frames w ≤ job.hop_frames
  pub output_le : Queue.size w.output ≤ job.hop_frames * w.channels
  pub held :
      (w.playback_started ≡ true)
      ⊎ (Queue.size w.output ≡ 0)
      ⊎ (startup_frames w * w.channels ≤ Queue.size w.output)

abbrev pub IsTracked : (F : Type 0) → Impl F → Job F → Type 0
IsTracked F w job = IsJob F job × ((job.generation < w.generation) ⊎ IsFresh F w job)

abbrev pub IsStageSound : (F : Type 0) → Impl F → Stage F → Type 0
IsStageSound F w waiting = Unit
IsStageSound F w (converting job) = IsTracked F w job
IsStageSound F w (delivering job stitched) =
    IsTracked F w job × (length stitched ≡ job.hop_frames * job.channels)
IsStageSound F w (adapting job) = Unit
IsStageSound F w exited = Unit

-- A call either begins a new generation, or keeps format and blocks and only takes from the output,
-- and only when playing.
pub record IsKept (F : Type 0) (w w' : Impl F) : Type 0 where
  pub generation_eq : w'.generation ≡ w.generation
  pub rate_eq : w'.sample_rate ≡ w.sample_rate
  pub channels_eq : w'.channels ≡ w.channels
  pub block_eq : block_frames w' ≡ block_frames w
  pub startup_eq : startup_frames w' ≡ startup_frames w
  pub output_le : Queue.size w'.output ≤ Queue.size w.output
  pub played :
      (w'.playback_started ≡ true)
      ⊎ ((w'.playback_started ≡ w.playback_started) × (Queue.size w'.output ≡ Queue.size w.output))

abbrev pub IsCalm : (F : Type 0) → Impl F → Impl F → Type 0
IsCalm F w w' = (w.generation < w'.generation) ⊎ IsKept F w w'

module _ {F : Type 0} where
  pub IsKept-self : (w : Impl F) → IsKept F w w
  IsKept-self w = ground arith

  IsFresh-kept : {w w' : Impl F} (job : Job F) → IsKept F w w' → IsFresh F w job → IsFresh F w' job
  IsFresh-kept {w} {w'} job k f = record {
    same_generation = f.same_generation ∙ sym k.generation_eq;
    same_rate = f.same_rate ∙ sym k.rate_eq;
    same_channels = f.same_channels ∙ sym k.channels_eq;
    hop_le = omega (arith, k.block_eq, f.hop_le);
    hop_ge = omega (arith, k.startup_eq, f.hop_ge);
    output_le = omega (arith, ap (λ c. job.hop_frames * c) k.channels_eq, k.output_le, f.output_le);
    held = elim k.played [
      | inl playing ↦ inl playing
      | inr (same, size) ↦ elim f.held [
        | inl playing ↦ inl (same ∙ playing)
        | inr (inl none_held) ↦ inr (inl (size ∙ none_held))
        | inr (inr block_held) ↦
            inr (inr (omega (arith, size, ap₂ ◌*◌ k.startup_eq k.channels_eq, block_held)))
      ]
    ];
  }

  IsTracked-calm :
      {w w' : Impl F} (job : Job F) → IsCalm F w w' → IsTracked F w job → IsTracked F w' job
  IsTracked-calm {w} {w'} job calm (alone, current) = (
    alone,
    elim calm [
      | inl later ↦ inl (elim current [
        | inl stale ↦ omega arith
        | inr fresh ↦ omega (arith, fresh.same_generation)
      ])
      | inr kept ↦ elim current [
        | inl stale ↦ inl (omega (arith, kept.generation_eq))
        | inr fresh ↦ inr (IsFresh-kept job kept fresh)
      ]
    ],
  )

  -- What a stage knows survives a call of the owner.
  pub IsStageSound-calm :
      {w w' : Impl F} (stage : Stage F)
      → IsCalm F w w'
      → IsStageSound F w stage
      → IsStageSound F w' stage
  IsStageSound-calm waiting calm v = tt
  IsStageSound-calm (converting job) calm v = IsTracked-calm job calm v
  IsStageSound-calm (delivering job stitched) calm (v, size) = (IsTracked-calm job calm v, size)
  IsStageSound-calm (adapting job) calm v = tt
  IsStageSound-calm exited calm v = tt
