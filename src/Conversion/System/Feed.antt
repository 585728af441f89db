-- ===== src/Conversion/System/Feed.antt =====
-- From the samples that `submit` mixes down to the blocks of the windows that are sent.
use mathlib.Core.List.{append_assoc}
use obs_rvc.Prelude.{ℕ, ◌≡◌, sym, ap, ◌∙◌, refl, List, [], ◌++◌, arith}
use obs_rvc.Float.{Floats}
use obs_rvc.Stream.Queue.Window.{contents}
use obs_rvc.Conversion.Worker.{Impl, ConversionOptions, stop}
use obs_rvc.Conversion.Loop.{take_job}
use obs_rvc.Conversion.System.{
  System, begun, answered, delivered, adapted, Step, reset_call, submit_call, take_call,
  finish_call, stop_call, leave, begin, refuse, answer, hand_over, adjust, Reach, here, next,
}
use obs_rvc.Conversion.System.Begin.{is_ready→IsReady}
use obs_rvc.Conversion.System.Intake.{
  Feeds, accepted, block_of, Feeds-same, reset-Feeds, submit-Feeds, receive_take-Feeds,
  receive_finish-Feeds, deliver-Feeds, adapt-Feeds, take_job-Feeds,
}
use obs_rvc.Conversion.System.Reachable.{IsSystemSound, Reach-IsSystemSound}
use obs_rvc.Conversion.System.Promises.{initial, reached}

-- The mono samples that wait in the input of a system.
abbrev pub input_of : {F : Type 0} → System F → List F
input_of s = contents s.worker.input

module _ {F : Type 0} ⦃fl : Floats F⦄ where
  -- What a step submits, and the block of the conversion that it begins.
  abbrev submitted_by : {max_planes : ℕ} {s t : System F} → Step max_planes s t → List F
  submitted_by (reset_call s options sane more) = []
  submitted_by {max_planes} (submit_call s audio rate channels short rate_fits channels_fit more) =
      accepted max_planes s.worker audio rate channels
  submitted_by (take_call s previous frames channels) = []
  submitted_by (finish_call s generation gain) = []
  submitted_by (stop_call s) = []
  submitted_by (leave s at ready stopping) = []
  submitted_by (begin s input_samples window_samples at ready going) = []
  submitted_by (refuse s job last at none_fits) = []
  submitted_by (answer s job last request status response at filled) = []
  submitted_by (hand_over s job stitched at) = []
  submitted_by (adjust s job slow at) = []

  abbrev begun_by : {max_planes : ℕ} {s t : System F} → Step max_planes s t → List F
  begun_by (reset_call s options sane more) = []
  begun_by (submit_call s audio rate channels short rate_fits channels_fit more) = []
  begun_by (take_call s previous frames channels) = []
  begun_by (finish_call s generation gain) = []
  begun_by (stop_call s) = []
  begun_by (leave s at ready stopping) = []
  begun_by (begin s input_samples window_samples at ready going) =
      block_of (take_job s.worker s.stream input_samples window_samples).2
  begun_by (refuse s job last at none_fits) = []
  begun_by (answer s job last request status response at filled) = []
  begun_by (hand_over s job stitched at) = []
  begun_by (adjust s job slow at) = []

  abbrev pub submitted : {max_planes : ℕ} {s t : System F} → Reach max_planes s t → List F
  submitted here = []
  submitted (next way step) = submitted way ++ submitted_by step

  abbrev pub blocks : {max_planes : ℕ} {s t : System F} → Reach max_planes s t → List F
  blocks here = []
  blocks (next way step) = blocks way ++ begun_by step

  Step-Feeds :
      {max_planes : ℕ} {s t : System F} (step : Step max_planes s t)
      → IsSystemSound F s
      → Feeds s.worker t.worker (submitted_by step) (begun_by step)
  unfolding begun answered delivered adapted stop
  Step-Feeds (reset_call s options sane more) v = reset-Feeds s.worker options more
  Step-Feeds {max_planes} (submit_call s audio rate channels short rate_fits channels_fit more) v =
      submit-Feeds max_planes s.worker audio rate channels v.sound short more
  Step-Feeds (take_call s previous frames channels) v =
      receive_take-Feeds s.worker previous frames channels
  Step-Feeds (finish_call s generation gain) v = receive_finish-Feeds s.worker generation gain
  Step-Feeds (stop_call s) v = Feeds-same s.worker (stop s.worker) refl refl
  Step-Feeds (leave s at ready stopping) v = Feeds-same s.worker s.worker refl refl
  Step-Feeds (begin s input_samples window_samples at ready going) v =
      take_job-Feeds s.worker s.stream input_samples window_samples v.sound
        (is_ready→IsReady s.worker ready going)
  Step-Feeds (refuse s job last at none_fits) v = Feeds-same s.worker s.worker refl refl
  Step-Feeds (answer s job last request status response at filled) v =
      Feeds-same s.worker s.worker refl refl
  Step-Feeds (hand_over s job stitched at) v = deliver-Feeds s.worker job stitched
  Step-Feeds (adjust s job slow at) v = adapt-Feeds s.worker job slow

  Feeds-join :
      (u v w : Impl F) (first second sent later : List F)
      → Feeds u v first sent
      → Feeds v w second later
      → Feeds u w (first ++ second) (sent ++ later)
  Feeds-join u v w first second sent later (from, before) (on, after) = (
    omega arith,
    λ same.
        sym (append_assoc (contents u.input) first second)
        ∙ ap (λ xs. xs ++ second) (before (omega arith))
        ∙ append_assoc sent (contents v.input) second
        ∙ ap (λ xs. sent ++ xs) (after (omega arith))
        ∙ sym (append_assoc sent later (contents w.input)),
  )

  Reach-Feeds :
      {max_planes : ℕ} {s t : System F}
      → IsSystemSound F s
      → (way : Reach max_planes s t) → Feeds s.worker t.worker (submitted way) (blocks way)
  Reach-Feeds {s = s} v here = Feeds-same s.worker s.worker refl refl
  Reach-Feeds {s = s} {t = t} v (next {t = m} way step) =
      Feeds-join s.worker m.worker t.worker (submitted way) (submitted_by step) (blocks way)
        (begun_by step) (Reach-Feeds v way) (Step-Feeds step (Reach-IsSystemSound v way))

  -- From any state that a new worker reaches, over any steps that end in the same generation: the
  -- mono samples that waited, followed by those that `submit` accepts, are the blocks within the
  -- windows of the conversions that the thread begins, followed by what then waits. So every sample
  -- is in one block, in order; only a new generation drops any.
  pub input_flows :
      {max_planes : ℕ} (options : ConversionOptions F) (stream_id : ℕ) {s t : System F}
      → Reach max_planes (initial options stream_id) s
      → (way : Reach max_planes s t) → t.worker.generation ≡ s.worker.generation
      → input_of s ++ submitted way ≡ blocks way ++ input_of t
  input_flows options stream_id past way same =
      (Reach-Feeds (reached options stream_id past) way).1 same
