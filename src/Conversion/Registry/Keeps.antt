-- ===== src/Conversion/Registry/Keeps.antt =====
-- What every call of a worker and every step of its thread keeps: the identity, and the word to
-- stop.
use obs_rvc.Prelude.{
  ℕ, ◌≡◌, refl, ◌==◌, ◌||◌, not, inl, inr, true, List, arith, if_cases, Option-cases,
}
use obs_rvc.Float.{Floats}
use obs_rvc.Conversion.Codec.{AudioData, copy_audio_to_mono}
use obs_rvc.Conversion.Worker.{
  Impl, reset, submit, enqueue, adopt_format, trim_input, receive_take, take_samples,
  receive_finish, stop,
}
use obs_rvc.Conversion.Loop.{Job, take_job, deliver, make_room, adapt}
use obs_rvc.Conversion.System.Exit.{
  reset-stopping, submit-stopping, stopping-receive_take, stopping-receive_finish, stopping-adapt,
}
use obs_rvc.Conversion.Registry.{
  Call, resetting, submitting, taking, finishing, telling, working, handing_over, adjusting,
  perform,
}

module _ {F : Type 0} ⦃fl : Floats F⦄ where
  trim_input-stream_id : (w : Impl F) → (trim_input w).stream_id ≡ w.stream_id
  unfolding trim_input
  trim_input-stream_id w = ground arith

  adopt_format-stream_id :
      (w : Impl F) (sample_rate channels : ℕ)
      → (adopt_format w sample_rate channels).stream_id ≡ w.stream_id
  unfolding adopt_format
  adopt_format-stream_id w sample_rate channels = ground arith

  enqueue-stream_id :
      (w : Impl F) (samples : List F) (sample_rate channels : ℕ)
      → (enqueue w samples sample_rate channels).stream_id ≡ w.stream_id
  unfolding enqueue
  enqueue-stream_id w samples sample_rate channels =
      if_cases (λ v. v.stream_id ≡ w.stream_id) (not w.configured || w.stopping) w _ (λ _. refl)
        (λ _. rw (trim_input-stream_id, adopt_format-stream_id) refl)

  submit-stream_id :
      (max_planes : ℕ) (w : Impl F) (audio : AudioData F) (sample_rate channels : ℕ)
      → (submit max_planes w audio sample_rate channels).stream_id ≡ w.stream_id
  unfolding submit
  submit-stream_id max_planes w audio sample_rate channels =
      if_cases (λ v. v.stream_id ≡ w.stream_id) (sample_rate == 0) w _ (λ _. refl)
        (λ _. elim (Option-cases (copy_audio_to_mono max_planes audio channels)) [
          | inl e ↦ rw e refl
          | inr (samples, e) ↦ rw e (enqueue-stream_id w samples sample_rate channels)
        ])

  stream_id-take_samples :
      (w : Impl F) (previous : List F) (count : ℕ)
      → (take_samples w previous count).1.stream_id ≡ w.stream_id
  unfolding take_samples
  stream_id-take_samples w previous count = ground arith

  stream_id-receive_take :
      (w : Impl F) (previous : List F) (frames channels : ℕ)
      → (receive_take w previous frames channels).1.stream_id ≡ w.stream_id
  unfolding receive_take take_samples
  stream_id-receive_take w previous frames channels = ground arith

  stream_id-deliver :
      (w : Impl F) (job : Job F) (stitched : List F)
      → (deliver w job stitched).0.stream_id ≡ w.stream_id
  unfolding deliver make_room
  stream_id-deliver w job stitched = ground arith

  pub perform-same_stream : (call : Call F) (w : Impl F) → (perform call w).stream_id ≡ w.stream_id
  unfolding perform reset receive_finish stop take_job adapt
  perform-same_stream (resetting options) w = ground arith
  perform-same_stream (submitting max_planes audio sample_rate channels) w =
      submit-stream_id max_planes w audio sample_rate channels
  perform-same_stream (taking previous frames channels) w =
      stream_id-receive_take w previous frames channels
  perform-same_stream (finishing generation gain) w = ground arith
  perform-same_stream telling w = refl
  perform-same_stream (working stream input_samples window_samples) w = refl
  perform-same_stream (handing_over job stitched) w = stream_id-deliver w job stitched
  perform-same_stream (adjusting job slow) w = ground arith

  stopping-deliver :
      (w : Impl F) (job : Job F) (stitched : List F)
      → w.stopping ≡ true
      → (deliver w job stitched).0.stopping ≡ true
  unfolding deliver make_room
  stopping-deliver w job stitched told = ground arith

  pub perform-still_stopping :
      (call : Call F) (w : Impl F) → w.stopping ≡ true → (perform call w).stopping ≡ true
  unfolding perform stop take_job
  perform-still_stopping (resetting options) w told = rw (reset-stopping w options told) told
  perform-still_stopping (submitting max_planes audio sample_rate channels) w told =
      rw (submit-stopping w max_planes audio sample_rate channels told) told
  perform-still_stopping (taking previous frames channels) w told =
      stopping-receive_take w previous frames channels told
  perform-still_stopping (finishing generation gain) w told =
      stopping-receive_finish w generation gain told
  perform-still_stopping telling w told = refl
  perform-still_stopping (working stream input_samples window_samples) w told = told
  perform-still_stopping (handing_over job stitched) w told = stopping-deliver w job stitched told
  perform-still_stopping (adjusting job slow) w told = stopping-adapt w job slow told
