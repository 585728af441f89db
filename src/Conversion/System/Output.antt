-- ===== src/Conversion/System/Output.antt =====
-- What the critical sections of the worker do to its output.
use obs_rvc.Prelude.{
  ℕ, ◌*◌, ◌≡◌, refl, sym, ap, ◌∙◌, inl, inr, Bool, true, false, not, ◌||◌, ◌==◌, Option, none, some,
  List, [], ◌++◌, drop, take-append-drop, ltb, arith, if_cases, Option-cases,
}
use obs_rvc.Float.{Floats, nought}
use obs_rvc.Stream.Queue
use obs_rvc.Stream.Queue.Window.{contents}
use obs_rvc.Stream.Queue.Refine.{IsValid, copy_front_lem, discard_lem}
use obs_rvc.Conversion.Codec.{AudioData, copy_audio_to_mono}
use obs_rvc.Conversion.Worker.{
  Impl, Playback, adopt_format, trim_input, enqueue, submit, may_play, take_samples, receive_take,
  receive_finish,
}
use obs_rvc.Conversion.Loop.{Job, is_stale, deliver, adapt}

module _ {F : Type 0} ⦃fl : Floats F⦄ where
  abbrev pub samples_of : Option (Playback F) → List F
  samples_of none = []
  samples_of (some p) = p.samples

  trim_input-output : (w : Impl F) → (trim_input w).output ≡ w.output
  unfolding trim_input
  trim_input-output w = ground arith

  adopt_format-same :
      (w : Impl F) (rate channels : ℕ)
      → w.sample_rate ≡ rate
      → w.channels ≡ channels
      → adopt_format w rate channels ≡ w
  unfolding adopt_format
  adopt_format-same w rate channels same_rate same_channels = ground arith

  enqueue-output :
      (w : Impl F) (samples : List F) (rate channels : ℕ)
      → w.sample_rate ≡ rate
      → w.channels ≡ channels
      → (enqueue w samples rate channels).output ≡ w.output
  unfolding enqueue
  enqueue-output w samples rate channels same_rate same_channels =
      if_cases (λ v. v.output ≡ w.output) (not w.configured || w.stopping) w _ (λ _. refl)
        (λ _.
          trim_input-output _
          ∙ ap (λ v. v.output) (adopt_format-same w rate channels same_rate same_channels))

  pub submit-output :
      (max_planes : ℕ) (w : Impl F) (audio : AudioData F) (rate channels : ℕ)
      → w.sample_rate ≡ rate
      → w.channels ≡ channels
      → (submit max_planes w audio rate channels).output ≡ w.output
  unfolding submit
  submit-output max_planes w audio rate channels same_rate same_channels =
      if_cases (λ v. v.output ≡ w.output) (rate == 0) w _ (λ _. refl)
        (λ _. elim (Option-cases (copy_audio_to_mono max_planes audio channels)) [
          | inl e ↦ rw e refl
          | inr (samples, e) ↦ rw e (enqueue-output w samples rate channels same_rate same_channels)
        ])

  take_samples-output :
      (w : Impl F) (previous : List F) (count : ℕ)
      → IsValid w.output
      → let out = take_samples w previous count in
        contents w.output ≡ samples_of out.0 ++ contents out.1.output
  unfolding take_samples
  take_samples-output w previous count v =
      if_cases {A = Option (Playback F) × Impl F}
        (λ out. contents w.output ≡ samples_of out.0 ++ contents out.1.output)
        (ltb (Queue.size w.output) count) _ _ (λ _. refl)
        (λ _.
          sym (take-append-drop count (contents w.output))
          ∙ ap (λ xs. xs ++ drop count (contents w.output))
              (sym (copy_front_lem nought previous count v))
          ∙ ap (λ ys. Queue.copy_front nought w.output previous count ++ ys)
              (sym (discard_lem count v)))

  pub receive_take-output :
      (w : Impl F) (previous : List F) (frames channels : ℕ)
      → IsValid w.output
      → let out = receive_take w previous frames channels in
        contents w.output ≡ samples_of out.0 ++ contents out.1.output
  unfolding receive_take
  receive_take-output w previous frames channels v =
      if_cases {A = Option (Playback F) × Impl F}
        (λ out. contents w.output ≡ samples_of out.0 ++ contents out.1.output)
        (channels == 0 || not (channels == w.channels)) _ _ (λ _. refl)
        (λ _.
          if_cases {A = Option (Playback F) × Impl F}
            (λ out. contents w.output ≡ samples_of out.0 ++ contents out.1.output)
            (may_play w channels) _ _ (λ _. take_samples-output _ previous (frames * channels) v)
            (λ _. refl))

  pub receive_finish-output :
      (w : Impl F) (generation : ℕ) (gain : F)
      → (receive_finish w generation gain).output ≡ w.output
  unfolding receive_finish
  receive_finish-output w generation gain = ground arith

  pub adapt-output :
      (w : Impl F) (job : Job F) (slow : Bool) → (adapt w job slow).0.output ≡ w.output
  unfolding adapt
  adapt-output w job slow = ground arith

  pub deliver-stale :
      (w : Impl F) (job : Job F) (stitched : List F)
      → is_stale w job ≡ true
      → deliver w job stitched ≡ (w, false)
  unfolding deliver
  deliver-stale w job stitched stale = rw stale refl
