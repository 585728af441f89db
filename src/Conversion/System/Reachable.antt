-- ===== src/Conversion/System/Reachable.antt =====
-- The invariant of the system, on every step and so in every state that it reaches.
use mathlib.Core.Path.{subst}
use obs_rvc.Prelude.{ℕ, ◌*◌, ◌≡◌, inr, if_cases, Option, none, some, List, length}
use obs_rvc.Float.{Floats}
use obs_rvc.Ipc.Transport.{AudioResponse}
use obs_rvc.Ipc.Status.{IpcStatus}
use obs_rvc.Conversion.Worker.{Impl}
use obs_rvc.Conversion.Loop.{Job, finish_conversion, deliver}
use obs_rvc.Conversion.System.{
  waiting, adapting, System, begun, stage_after, answered, delivered, adapted, Step, reset_call,
  submit_call, take_call, finish_call, stop_call, leave, begin, refuse, answer, hand_over, adjust,
  Reach, here, next,
}
use obs_rvc.Conversion.System.Sound.{IsSound, reset-IsSound, stop-IsSound, receive_finish-IsSound}
use obs_rvc.Conversion.System.Calls.{receive_take-IsSound, submit-IsSound}
use obs_rvc.Conversion.System.Tracking.{IsTracked, IsStageSound, IsCalm, IsStageSound-calm}
use obs_rvc.Conversion.System.Calm.{
  reset-IsCalm, submit-IsCalm, receive_take-IsKept, receive_finish-IsKept, stop-IsKept,
}
use obs_rvc.Conversion.System.Begin.{is_ready→IsReady, take_job-IsSound, take_job-IsTracked}
use obs_rvc.Conversion.System.Finish.{
  HasBlock, finish_conversion-HasBlock, deliver-IsSound, adapt-IsSound,
}

pub record IsSystemSound (F : Type 0) (s : System F) : Type 0 where
  pub sound : IsSound F s.worker
  pub staged : IsStageSound F s.worker s.stage

module _ {F : Type 0} ⦃fl : Floats F⦄ where
  called :
      {w' : Impl F} (s : System F)
      → IsSystemSound F s
      → IsSound F w'
      → IsCalm F s.worker w'
      → IsSystemSound F (record s { worker = w' })
  called s v sound calm = record { sound = sound; staged = IsStageSound-calm s.stage calm v.staged }

  stage_after-IsStageSound :
      (w : Impl F) (job : Job F) (stitched : Option (List F))
      → IsTracked F w job
      → HasBlock F job stitched
      → IsStageSound F w (stage_after job stitched)
  stage_after-IsStageSound w job none tracked block = tt
  stage_after-IsStageSound w job (some stitched) tracked block = (tracked, block)

  answered-IsSystemSound :
      (s : System F) (job : Job F) (status : IpcStatus) (response : AudioResponse)
      → IsSystemSound F s
      → IsTracked F s.worker job
      → IsSystemSound F (answered s job status response)
  unfolding answered
  answered-IsSystemSound s job status response v tracked = record {
    sound = v.sound;
    staged =
        stage_after-IsStageSound s.worker job (finish_conversion s.stream job status response).1
          tracked (finish_conversion-HasBlock s.stream job status response);
  }

  delivered-IsSystemSound :
      (s : System F) (job : Job F) (stitched : List F)
      → IsSystemSound F s
      → IsTracked F s.worker job
      → length stitched ≡ job.hop_frames * job.channels
      → IsSystemSound F (delivered s job stitched)
  unfolding delivered
  delivered-IsSystemSound s job stitched v tracked size =
      let out = deliver s.worker job stitched in
      record {
        sound = deliver-IsSound job stitched v.sound tracked size;
        staged = if_cases (IsStageSound F out.0) out.1 (adapting job) waiting (λ _. tt) (λ _. tt);
      }

  Step-IsSystemSound :
      {max_planes : ℕ} {s t : System F}
      → IsSystemSound F s
      → Step max_planes s t
      → IsSystemSound F t
  unfolding begun adapted
  Step-IsSystemSound v (reset_call s options sane more) =
      called s v (reset-IsSound options v.sound sane more) (reset-IsCalm s.worker options more)
  Step-IsSystemSound {max_planes} v
        (submit_call s audio rate channels short rate_fits channels_fit more) =
      called s v
        (submit-IsSound max_planes audio rate channels v.sound short rate_fits channels_fit more)
        (submit-IsCalm s.worker max_planes audio rate channels more)
  Step-IsSystemSound v (take_call s previous frames channels) =
      called s v (receive_take-IsSound previous frames channels v.sound)
        (inr (receive_take-IsKept s.worker previous frames channels))
  Step-IsSystemSound v (finish_call s generation gain) =
      called s v (receive_finish-IsSound generation gain v.sound)
        (inr (receive_finish-IsKept s.worker generation gain))
  Step-IsSystemSound v (stop_call s) =
      called s v (stop-IsSound v.sound) (inr (stop-IsKept s.worker))
  Step-IsSystemSound v (leave s at ready stopping) = record { sound = v.sound; staged = tt }
  Step-IsSystemSound v (begin s input_samples window_samples at ready going) = record {
    sound = take_job-IsSound s.stream input_samples window_samples v.sound;
    staged =
        take_job-IsTracked s.stream input_samples window_samples v.sound
          (is_ready→IsReady s.worker ready going);
  }
  Step-IsSystemSound v (refuse s job last at none_fits) = record { sound = v.sound; staged = tt }
  Step-IsSystemSound v (answer s job last request status response at filled) =
      answered-IsSystemSound s job status response v (subst (IsStageSound F s.worker) at v.staged)
  Step-IsSystemSound v (hand_over s job stitched at) =
      let (tracked, size) = subst (IsStageSound F s.worker) at v.staged in
      delivered-IsSystemSound s job stitched v tracked size
  Step-IsSystemSound v (adjust s job slow at) = record {
    sound = adapt-IsSound job slow v.sound;
    staged = tt;
  }

  pub Reach-IsSystemSound :
      {max_planes : ℕ} {s t : System F}
      → IsSystemSound F s
      → Reach max_planes s t
      → IsSystemSound F t
  Reach-IsSystemSound v here = v
  Reach-IsSystemSound v (next way step) = Step-IsSystemSound (Reach-IsSystemSound v way) step
