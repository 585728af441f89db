-- ===== src/Conversion/System/Refusal.antt =====
-- A worker whose options no request has room for.
use mathlib.Core.Path.{subst}
use obs_rvc.Prelude.{
  ℕ, ◌≤◌, ◌≡◌, refl, sym, ap, ◌∙◌, inl, inr, true, none, List, [], ◌++◌, length, arith,
  Option-cases, if_cases, not, ap₂, ◌||◌, ◌==◌,
}
use obs_rvc.Float.{Floats}
use obs_rvc.Ipc.Transport.{AudioRequest}
use obs_rvc.Conversion.Codec.{AudioData, copy_audio_to_mono}
use obs_rvc.Conversion.Worker.{
  Impl, ConversionOptions, adopt_format, trim_input, enqueue, submit, receive_take, take_samples,
  receive_finish, stop,
}
use obs_rvc.Conversion.Loop.{Job, take_job, fill_request}
use obs_rvc.Conversion.Request.{fill_request-none_iff}
use obs_rvc.Conversion.System.{
  Stage, waiting, converting, delivering, adapting, exited, System, begun, adapted, Step,
  reset_call, submit_call, take_call, finish_call, stop_call, leave, begin, refuse, answer,
  hand_over, adjust, Reach, here, next,
}
use obs_rvc.Conversion.System.Exit.{reset-stopping}
use obs_rvc.Conversion.System.Flow.{handed_by, handed}

-- A thread that waits, or converts a job with these options, or is out of its loop.
abbrev IsIdle : {F : Type 0} → ConversionOptions F → Stage F → Type 0
IsIdle options waiting = Unit
IsIdle options (converting job) = job.options ≡ options
IsIdle options (delivering job stitched) = ⊥
IsIdle options (adapting job) = ⊥
IsIdle options exited = Unit

record IsMute (F : Type 0) (options : ConversionOptions F) (s : System F) : Type 0 where
  keeps : s.worker.options ≡ options
  idle : IsIdle options s.stage

module _ {F : Type 0} ⦃fl : Floats F⦄ where
  options-adopt_format :
      (w : Impl F) (rate channels : ℕ) → (adopt_format w rate channels).options ≡ w.options
  unfolding adopt_format
  options-adopt_format w rate channels = ground arith

  options-trim_input : (w : Impl F) → (trim_input w).options ≡ w.options
  unfolding trim_input
  options-trim_input w = ground arith

  options-enqueue :
      (w : Impl F) (samples : List F) (rate channels : ℕ)
      → (enqueue w samples rate channels).options ≡ w.options
  unfolding enqueue
  options-enqueue w samples rate channels =
      if_cases (λ v. v.options ≡ w.options) (not w.configured || w.stopping) w _ (λ _. refl)
        (λ _. options-trim_input _ ∙ options-adopt_format w rate channels)

  options-submit :
      (max_planes : ℕ) (w : Impl F) (audio : AudioData F) (rate channels : ℕ)
      → (submit max_planes w audio rate channels).options ≡ w.options
  unfolding submit
  options-submit max_planes w audio rate channels =
      if_cases (λ v. v.options ≡ w.options) (rate == 0) w _ (λ _. refl)
        (λ _. elim (Option-cases (copy_audio_to_mono max_planes audio channels)) [
          | inl e ↦ rw e refl
          | inr (samples, e) ↦ rw e (options-enqueue w samples rate channels)
        ])

  options-receive_take :
      (w : Impl F) (previous : List F) (frames channels : ℕ)
      → (receive_take w previous frames channels).1.options ≡ w.options
  unfolding receive_take take_samples
  options-receive_take w previous frames channels = ground arith

  options-receive_finish :
      (w : Impl F) (generation : ℕ) (gain : F)
      → (receive_finish w generation gain).options ≡ w.options
  unfolding receive_finish
  options-receive_finish w generation gain = ground arith

  -- A step that does not reset the worker, and whose request has so much room for an index path.
  abbrev KeepsOptions : ℕ → {max_planes : ℕ} {s t : System F} → Step max_planes s t → Type 0
  KeepsOptions room (reset_call s options sane more) = s.worker.stopping ≡ true
  KeepsOptions room (submit_call s audio rate channels short rate_fits channels_fit more) = Unit
  KeepsOptions room (take_call s previous frames channels) = Unit
  KeepsOptions room (finish_call s generation gain) = Unit
  KeepsOptions room (stop_call s) = Unit
  KeepsOptions room (leave s at ready stopping) = Unit
  KeepsOptions room (begin s input_samples window_samples at ready going) = Unit
  KeepsOptions room (refuse s job last at none_fits) = Unit
  KeepsOptions room (answer s job last request status response at filled) =
      length last.index_path ≡ room
  KeepsOptions room (hand_over s job stitched at) = Unit
  KeepsOptions room (adjust s job slow at) = Unit

  abbrev pub KeepOptions : ℕ → {max_planes : ℕ} {s t : System F} → Reach max_planes s t → Type 0
  KeepOptions room here = Unit
  KeepOptions room (next way step) = KeepOptions room way × KeepsOptions room step

  pub refused :
      (last : AudioRequest F) (stream_id : ℕ) (job : Job F)
      → length last.index_path ≤ length job.options.index_path
      → fill_request last stream_id job ≡ none
  refused last stream_id job long = (fill_request-none_iff last stream_id job).1 (inr (inl long))

  Step-IsMute :
      {options : ConversionOptions F} (room : ℕ) {max_planes : ℕ} {s t : System F}
      (step : Step max_planes s t)
      → room ≤ length options.index_path
      → KeepsOptions room step
      → IsMute F options s
      → IsMute F options t
  unfolding begun take_job adapted stop
  Step-IsMute room (reset_call s options sane more) long told v = record {
    keeps = ap (λ w. w.options) (reset-stopping s.worker options told) ∙ v.keeps;
    idle = v.idle;
  }
  Step-IsMute room {max_planes}
        (submit_call s audio rate channels short rate_fits channels_fit more) long _ v =
      record {
        keeps = options-submit max_planes s.worker audio rate channels ∙ v.keeps;
        idle = v.idle;
      }
  Step-IsMute room (take_call s previous frames channels) long _ v = record {
    keeps = options-receive_take s.worker previous frames channels ∙ v.keeps;
    idle = v.idle;
  }
  Step-IsMute room (finish_call s generation gain) long _ v = record {
    keeps = options-receive_finish s.worker generation gain ∙ v.keeps;
    idle = v.idle;
  }
  Step-IsMute room (stop_call s) long _ v = record { keeps = v.keeps; idle = v.idle }
  Step-IsMute room (leave s at ready stopping) long _ v = record { keeps = v.keeps; idle = tt }
  Step-IsMute room (begin s input_samples window_samples at ready going) long _ v = record {
    keeps = v.keeps;
    idle = v.keeps;
  }
  Step-IsMute room (refuse s job last at none_fits) long _ v = record { keeps = v.keeps; idle = tt }
  Step-IsMute {options} room (answer s job last request status response at filled) long size v =
      let same = subst (IsIdle options) at v.idle in
      let path = ap (λ o. length o.index_path) same in
      let none_fits = refused last s.worker.stream_id job (omega (arith, path, size, long)) in
      absurd (ground (arith, sym none_fits ∙ filled))
  Step-IsMute {options} room (hand_over s job stitched at) long _ v =
      absurd (subst (IsIdle options) at v.idle)
  Step-IsMute {options} room (adjust s job slow at) long _ v =
      absurd (subst (IsIdle options) at v.idle)

  Step-handed :
      {options : ConversionOptions F} {max_planes : ℕ} {s t : System F} (step : Step max_planes s t)
      → IsMute F options s
      → handed_by step ≡ []
  Step-handed (reset_call s options sane more) v = refl
  Step-handed (submit_call s audio rate channels short rate_fits channels_fit more) v = refl
  Step-handed (take_call s previous frames channels) v = refl
  Step-handed (finish_call s generation gain) v = refl
  Step-handed (stop_call s) v = refl
  Step-handed (leave s at ready stopping) v = refl
  Step-handed (begin s input_samples window_samples at ready going) v = refl
  Step-handed (refuse s job last at none_fits) v = refl
  Step-handed (answer s job last request status response at filled) v = refl
  Step-handed {options} (hand_over s job stitched at) v = absurd (subst (IsIdle options) at v.idle)
  Step-handed (adjust s job slow at) v = refl

  Reach-IsMute :
      {options : ConversionOptions F} (room : ℕ) {max_planes : ℕ} {s t : System F}
      (way : Reach max_planes s t)
      → room ≤ length options.index_path
      → KeepOptions room way
      → IsMute F options s
      → IsMute F options t × (handed way ≡ [])
  Reach-IsMute room here long _ v = (v, refl)
  Reach-IsMute room (next way step) long (kept, keeps) v =
      let (before, silent) = Reach-IsMute room way long kept v in
      (Step-IsMute room step long keeps before, ap₂ ◌++◌ silent (Step-handed step before))

  -- Where the options of a waiting worker have a path of at least `room` bytes, nothing is handed
  -- over before a reset, and every job that comes to be converted is refused.
  pub mute_lem :
      (room : ℕ) {max_planes : ℕ} {s t : System F} (way : Reach max_planes s t)
      → s.stage ≡ waiting
      → room ≤ length s.worker.options.index_path
      → KeepOptions room way
      → (handed way ≡ [])
        × ((job : Job F) (last : AudioRequest F) (stream_id : ℕ)
            → t.stage ≡ converting job
            → length last.index_path ≡ room
            → fill_request last stream_id job ≡ none)
  mute_lem room {s = s} way at long kept =
      let start : IsMute F s.worker.options s = record {
        keeps = refl;
        idle = subst (IsIdle s.worker.options) (sym at) tt;
      } in
      let (v, silent) = Reach-IsMute room way long kept start in
      (
        silent,
        λ job last stream_id at' size.
            let same = subst (IsIdle s.worker.options) at' v.idle in
            refused last stream_id job
              (omega (arith, ap (λ o. length o.index_path) same, size, long)),
      )
