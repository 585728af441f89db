-- ===== src/Conversion/System/Steady.antt =====
-- Which steps of the worker change its format: only those that mark a discontinuity.
use obs_rvc.Prelude.{
  ℕ, ◌+◌, ◌*◌, ◌≡◌, ◌&&◌, refl, ◌⊎◌, inl, inr, true, false, not, ◌||◌, ◌==◌, Bool, if_cases, Option,
  List, length, ltb, Option-cases,
}
use obs_rvc.Prelude.Int.{ℤ, pos, ltb_ℤ}
use obs_rvc.Float.{Floats}
use obs_rvc.Stream.Queue
use obs_rvc.Stream.Queue.{AudioSampleQueue}
use obs_rvc.Conversion.Codec.{AudioData, copy_audio_to_mono}
use obs_rvc.Conversion.Worker.{
  Impl, ConversionOptions, Playback, reset, submit, enqueue, adopt_format, trim_input, stop,
  take_samples, receive_take, receive_finish, may_play, maximum_samples,
}
use obs_rvc.Conversion.Loop.{Job, deliver, make_room, is_stale, adapt}

-- The format changes with a discontinuity only.
abbrev pub IsSteady : {F : Type 0} → Impl F → Impl F → Type 0
IsSteady w w' =
    (w'.discontinuity ≡ true)
    ⊎ ((w'.discontinuity ≡ w.discontinuity)
        × (w'.sample_rate ≡ w.sample_rate)
        × (w'.channels ≡ w.channels))

module _ {F : Type 0} ⦃fl : Floats F⦄ where
  still : (w : Impl F) → IsSteady w w
  still w = inr (refl, refl, refl)

  pub reset-IsSteady : (w : Impl F) (options : ConversionOptions F) → IsSteady w (reset w options)
  unfolding reset
  reset-IsSteady w options = if_cases (IsSteady w) w.stopping w _ (λ _. still w) (λ _. inl refl)

  adopt_format-IsSteady :
      (w : Impl F) (sample_rate channels : ℕ) → IsSteady w (adopt_format w sample_rate channels)
  unfolding adopt_format
  adopt_format-IsSteady w sample_rate channels =
      if_cases (IsSteady w) (not (w.sample_rate == sample_rate) || not (w.channels == channels)) _ w
        (λ _. inl refl) (λ _. still w)

  trim_input-IsSteady :
      (v w : Impl F) (input : AudioSampleQueue F)
      → IsSteady v w
      → IsSteady v (trim_input (record w { input = input }))
  unfolding trim_input
  trim_input-IsSteady v w input steady =
      if_cases (IsSteady v) (ltb (maximum_samples w) (Queue.size input)) _ _ (λ _. inl refl)
        (λ _. steady)

  pub submit-IsSteady :
      (w : Impl F) (max_planes : ℕ) (audio : AudioData F) (sample_rate channels : ℕ)
      → IsSteady w (submit max_planes w audio sample_rate channels)
  unfolding submit enqueue
  submit-IsSteady w max_planes audio sample_rate channels =
      if_cases (IsSteady w) (sample_rate == 0) w _ (λ _. still w)
        (λ _. elim (Option-cases (copy_audio_to_mono max_planes audio channels)) [
          | inl e ↦ rw e (still w)
          | inr (samples, e) ↦ rw e (
              if_cases (IsSteady w) (not w.configured || w.stopping) w _ (λ _. still w)
                (λ _.
                  trim_input-IsSteady w (adopt_format w sample_rate channels) _
                    (adopt_format-IsSteady w sample_rate channels)))
        ])

  pub stop-IsSteady : (w : Impl F) → IsSteady w (stop w)
  unfolding stop
  stop-IsSteady w = still w

  pub receive_take-IsSteady :
      (w : Impl F) (previous : List F) (frames channels : ℕ)
      → IsSteady w (receive_take w previous frames channels).1
  unfolding receive_take take_samples
  receive_take-IsSteady w previous frames channels =
      if_cases (λ (r : Option (Playback F) × Impl F). IsSteady w r.1)
        (channels == 0 || not (channels == w.channels)) _ _ (λ _. still w)
        (λ _.
          if_cases (λ (r : Option (Playback F) × Impl F). IsSteady w r.1) (may_play w channels) _ _
            (λ _.
              if_cases (λ (r : Option (Playback F) × Impl F). IsSteady w r.1)
                (ltb (Queue.size w.output) (frames * channels)) _ _ (λ _. still w) (λ _. still w))
            (λ _. still w))

  pub receive_finish-IsSteady :
      (w : Impl F) (generation : ℕ) (gain : F) → IsSteady w (receive_finish w generation gain)
  unfolding receive_finish
  receive_finish-IsSteady w generation gain =
      if_cases (IsSteady w) (w.generation == generation) _ w (λ _. still w) (λ _. still w)

  make_room-IsSteady :
      (w : Impl F) (job : Job F) (stitched : List F) → IsSteady w (make_room w job stitched)
  unfolding make_room
  make_room-IsSteady w job stitched =
      if_cases (IsSteady w)
        (ltb (4 * job.hop_frames * job.channels) (Queue.size w.output + length stitched)) _ w
        (λ _. still w) (λ _. still w)

  pub deliver-IsSteady :
      (w : Impl F) (job : Job F) (stitched : List F) → IsSteady w (deliver w job stitched).0
  unfolding deliver
  deliver-IsSteady w job stitched =
      if_cases (λ (r : Impl F × Bool). IsSteady w r.0) (is_stale w job) (w, false) _ (λ _. still w)
        (λ _. make_room-IsSteady w job stitched)

  pub adapt-IsSteady : (w : Impl F) (job : Job F) (slow : Bool) → IsSteady w (adapt w job slow).0
  unfolding adapt
  adapt-IsSteady w job slow =
      if_cases (λ (r : Impl F × ℤ). IsSteady w r.0)
        (slow
          && not job.first_conversion
          && ltb_ℤ w.active_chunk_duration_ms w.maximum_chunk_duration_ms)
        _ (w, pos 0) (λ _. still w) (λ _. still w)
