-- ===== src/Conversion/System/Exit.antt =====
-- A worker that is told to stop: its thread leaves the loop, so that `join` returns.
use obs_rvc.Prelude.{
  not_both, ℕ, ◌+◌, ◌≤◌, ◌≡◌, refl, ◌⊎◌, inl, inr, Bool, true, false, not, ◌||◌, ◌==◌, Option, none,
  some, List, arith, Option-cases, if_cases,
}
use obs_rvc.Float.{Floats}
use obs_rvc.Ipc.Transport.{AudioRequest, AudioResponse}
use obs_rvc.Ipc.Status.{IpcStatus}
use obs_rvc.Conversion.Codec.{AudioData, copy_audio_to_mono}
use obs_rvc.Conversion.Worker.{
  Impl, ConversionOptions, reset, submit, enqueue, receive_take, receive_finish, take_samples, stop,
}
use obs_rvc.Conversion.Loop.{
  Job, fill_request, finish_conversion, deliver, adapt, is_stale, is_ready,
}
use obs_rvc.Conversion.System.{
  Stage, waiting, converting, delivering, adapting, exited, System, begun, answered, delivered,
  adapted, stage_after, Step, reset_call, submit_call, take_call, finish_call, stop_call, leave,
  begin, refuse, answer, hand_over, adjust, Reach, here, next,
}

first_of_or : (a b c d : Bool) → a || b || c || d ≡ false → a ≡ false
first_of_or a b c d neither = ground arith

last_of_or : (b c : Bool) → b || c ≡ false → c ≡ false
last_of_or b c neither = ground arith

module _ {F : Type 0} ⦃fl : Floats F⦄ where
  -- The steps of the thread; the others are calls of the owner.
  abbrev pub of_thread : {max_planes : ℕ} {s t : System F} → Step max_planes s t → ℕ
  of_thread (reset_call s options sane more) = 0
  of_thread (submit_call s audio rate channels short rate_fits channels_fit more) = 0
  of_thread (take_call s previous frames channels) = 0
  of_thread (finish_call s generation gain) = 0
  of_thread (stop_call s) = 0
  of_thread (leave s at ready stopping) = 1
  of_thread (begin s input_samples window_samples at ready going) = 1
  of_thread (refuse s job last at none_fits) = 1
  of_thread (answer s job last request status response at filled) = 1
  of_thread (hand_over s job stitched at) = 1
  of_thread (adjust s job slow at) = 1

  -- How many steps of the thread a history has.
  abbrev pub thread_steps : {max_planes : ℕ} {s t : System F} → Reach max_planes s t → ℕ
  thread_steps here = 0
  thread_steps (next way step) = thread_steps way + of_thread step

  -- How far from the end of its loop a thread is at most, once it is told to stop.
  abbrev rank : Stage F → ℕ
  rank exited = 0
  rank waiting = 1
  rank (adapting job) = 2
  rank (delivering job stitched) = 2
  rank (converting job) = 3

  pub reset-stopping :
      (w : Impl F) (options : ConversionOptions F) → w.stopping ≡ true → reset w options ≡ w
  unfolding reset
  reset-stopping w options told =
      if_cases (λ v. v ≡ w) w.stopping w _ (λ _. refl) (λ going. absurd (not_both going told))

  pub submit-stopping :
      (w : Impl F) (max_planes : ℕ) (audio : AudioData F) (sample_rate channels : ℕ)
      → w.stopping ≡ true
      → submit max_planes w audio sample_rate channels ≡ w
  unfolding submit enqueue
  submit-stopping w max_planes audio sample_rate channels told =
      if_cases (λ v. v ≡ w) (sample_rate == 0) w _ (λ _. refl)
        (λ _. elim (Option-cases (copy_audio_to_mono max_planes audio channels)) [
          | inl e ↦ rw e refl
          | inr (samples, e) ↦ rw e (
              if_cases (λ v. v ≡ w) (not w.configured || w.stopping) w _ (λ _. refl)
                (λ going. absurd (not_both (last_of_or (not w.configured) w.stopping going) told)))
        ])

  pub stopping-receive_take :
      (w : Impl F) (previous : List F) (frames channels : ℕ)
      → w.stopping ≡ true
      → (receive_take w previous frames channels).1.stopping ≡ true
  unfolding receive_take take_samples
  stopping-receive_take w previous frames channels told = ground arith

  pub stopping-receive_finish :
      (w : Impl F) (generation : ℕ) (gain : F)
      → w.stopping ≡ true
      → (receive_finish w generation gain).stopping ≡ true
  unfolding receive_finish
  stopping-receive_finish w generation gain told = ground arith

  pub stopping-adapt :
      (w : Impl F) (job : Job F) (slow : Bool)
      → w.stopping ≡ true
      → (adapt w job slow).0.stopping ≡ true
  unfolding adapt
  stopping-adapt w job slow told = ground arith

  -- A block is too late for a worker that is told to stop.
  deliver-stopping :
      (w : Impl F) (job : Job F) (stitched : List F)
      → w.stopping ≡ true
      → deliver w job stitched ≡ (w, false)
  unfolding deliver
  deliver-stopping w job stitched told =
      if_cases (λ r. r ≡ (w, false)) (is_stale w job) (w, false) _ (λ _. refl)
        (λ current. absurd (not_both (first_of_or w.stopping _ _ _ current) told))

  -- The wait of the loop ends for a worker that is told to stop.
  stopping-is_ready : (w : Impl F) → w.stopping ≡ true → is_ready w ≡ true
  unfolding is_ready
  stopping-is_ready w told = ground arith

  rank-stage_after :
      (job : Job F) (stitched : Option (List F)) → rank (stage_after job stitched) ≤ 2
  rank-stage_after job none = omega arith
  rank-stage_after job (some stitched) = omega arith

  rank-le : (stage : Stage F) → rank stage ≤ 3
  rank-le exited = omega arith
  rank-le waiting = omega arith
  rank-le (adapting job) = omega arith
  rank-le (delivering job stitched) = omega arith
  rank-le (converting job) = omega arith

  -- No step takes the word back, and each step of the thread brings it nearer to its end.
  record IsNearer (max_planes : ℕ) (s t : System F) (steps : ℕ) : Type 0 where
    told : t.worker.stopping ≡ true
    nearer : steps + rank t.stage ≤ rank s.stage

  IsNearer-Step :
      {max_planes : ℕ} {s t : System F} (step : Step max_planes s t)
      → s.worker.stopping ≡ true
      → IsNearer max_planes s t (of_thread step)
  unfolding begun answered delivered adapted stop
  IsNearer-Step (reset_call s options sane more) told = record {
    told = rw (reset-stopping s.worker options told) told;
    nearer = omega arith;
  }
  IsNearer-Step {max_planes} (submit_call s audio rate channels short rate_fits channels_fit more)
        told =
      record {
        told = rw (submit-stopping s.worker max_planes audio rate channels told) told;
        nearer = omega arith;
      }
  IsNearer-Step (take_call s previous frames channels) told = record {
    told = stopping-receive_take s.worker previous frames channels told;
    nearer = omega arith;
  }
  IsNearer-Step (finish_call s generation gain) told = record {
    told = stopping-receive_finish s.worker generation gain told;
    nearer = omega arith;
  }
  IsNearer-Step (stop_call s) told = record { told = refl; nearer = omega arith }
  IsNearer-Step (leave s at ready stopping) told = record {
    told = told;
    nearer = rw at (omega arith);
  }
  IsNearer-Step (begin s input_samples window_samples at ready going) told =
      absurd (not_both going told)
  IsNearer-Step (refuse s job last at none_fits) told = record {
    told = told;
    nearer = rw at (omega arith);
  }
  IsNearer-Step (answer s job last request status response at filled) told = record {
    told = told;
    nearer =
        rw at
          (omega (arith, rank-stage_after job (finish_conversion s.stream job status response).1));
  }
  IsNearer-Step (hand_over s job stitched at) told = record {
    told = rw (deliver-stopping s.worker job stitched told) told;
    nearer = rw (at, deliver-stopping s.worker job stitched told) (omega arith);
  }
  IsNearer-Step (adjust s job slow at) told = record {
    told = stopping-adapt s.worker job slow told;
    nearer = rw at (omega arith);
  }

  IsNearer-Reach :
      {max_planes : ℕ} {s t : System F} (way : Reach max_planes s t)
      → s.worker.stopping ≡ true
      → IsNearer max_planes s t (thread_steps way)
  IsNearer-Reach here told = record { told = told; nearer = omega arith }
  IsNearer-Reach (next way step) told =
      let before = IsNearer-Reach way told in
      let after = IsNearer-Step step before.told in
      record { told = after.told; nearer = omega (arith, before.nearer, after.nearer) }

  -- A thread that is not out of its loop has a step of its own, whatever its buffer holds.
  steps_on :
      (max_planes : ℕ) (s : System F) (stage : Stage F) (last : AudioRequest F)
      (response : AudioResponse)
      → s.worker.stopping ≡ true
      → s.stage ≡ stage
      → (stage ≡ exited) ⊎ ((t : System F) × ((step : Step max_planes s t) × (of_thread step ≡ 1)))
  steps_on max_planes s exited last response told at = inl refl
  steps_on max_planes s waiting last response told at =
      inr (_, (leave s at (stopping-is_ready s.worker told) told, refl))
  steps_on max_planes s (converting job) last response told at =
      elim (Option-cases (fill_request last s.worker.stream_id job)) [
        | inl e ↦ inr (_, (refuse s job last at e, refl))
        | inr (request, e) ↦
            inr (_, (answer s job last request IpcStatus.timeout response at e, refl))
      ]
  steps_on max_planes s (delivering job stitched) last response told at =
      inr (_, (hand_over s job stitched at, refl))
  steps_on max_planes s (adapting job) last response told at =
      inr (_, (adjust s job false at, refl))

  -- Once a worker is told to stop, its thread takes three steps at most, whatever else is called
  -- meanwhile, and it never sticks: it is out of its loop, or has a step of its own. The predicate
  -- of its wait holds from then on.
  pub stop-ends :
      {max_planes : ℕ} {s t : System F} (last : AudioRequest F) (response : AudioResponse)
      → s.worker.stopping ≡ true
      → (way : Reach max_planes s t)
      → (thread_steps way ≤ 3)
        × ((t.stage ≡ exited)
            ⊎ ((u : System F) × ((step : Step max_planes t u) × (of_thread step ≡ 1))))
        × (is_ready t.worker ≡ true)
  stop-ends {max_planes} {s} {t} last response told way =
      let v = IsNearer-Reach way told in
      (
        omega (arith, v.nearer, rank-le s.stage),
        steps_on max_planes t t.stage last response v.told refl,
        stopping-is_ready t.worker v.told,
      )
