-- ===== src/Conversion/System/Flow.antt =====
-- From the blocks that the thread hands over to the samples that `receive` takes.
use mathlib.Core.List.{append-nil, append_assoc}
use obs_rvc.Prelude.{
  ℕ, ◌≡◌, sym, ap, ◌∙◌, inl, inr, true, List, [], ◌++◌, if◌then◌else◌, Bool-cases,
}
use obs_rvc.Float.{Floats}
use obs_rvc.Stream.Queue.Window.{contents}
use obs_rvc.Conversion.Worker.{ConversionOptions, receive_take, stop}
use obs_rvc.Conversion.Loop.{Job, is_stale, take_job}
use obs_rvc.Conversion.System.{
  delivering, System, begun, answered, delivered, adapted, Step, reset_call, submit_call, take_call,
  finish_call, stop_call, leave, begin, refuse, answer, hand_over, adjust, Reach, here, next,
}
use obs_rvc.Conversion.System.Exit.{reset-stopping}
use obs_rvc.Conversion.System.Reachable.{IsSystemSound, Reach-IsSystemSound}
use obs_rvc.Conversion.System.Promises.{initial, output_of, reached, delivers-append}
use obs_rvc.Conversion.System.Output.{
  samples_of, submit-output, receive_take-output, receive_finish-output, adapt-output,
  deliver-stale,
}

module _ {F : Type 0} ⦃fl : Floats F⦄ where
  -- What a step takes out to be played, and what it hands over.
  abbrev taken_by : {max_planes : ℕ} {s t : System F} → Step max_planes s t → List F
  taken_by (reset_call s options sane more) = []
  taken_by (submit_call s audio rate channels short rate_fits channels_fit more) = []
  taken_by (take_call s previous frames channels) =
      samples_of (receive_take s.worker previous frames channels).0
  taken_by (finish_call s generation gain) = []
  taken_by (stop_call s) = []
  taken_by (leave s at ready stopping) = []
  taken_by (begin s input_samples window_samples at ready going) = []
  taken_by (refuse s job last at none_fits) = []
  taken_by (answer s job last request status response at filled) = []
  taken_by (hand_over s job stitched at) = []
  taken_by (adjust s job slow at) = []

  abbrev pub handed_by : {max_planes : ℕ} {s t : System F} → Step max_planes s t → List F
  handed_by (reset_call s options sane more) = []
  handed_by (submit_call s audio rate channels short rate_fits channels_fit more) = []
  handed_by (take_call s previous frames channels) = []
  handed_by (finish_call s generation gain) = []
  handed_by (stop_call s) = []
  handed_by (leave s at ready stopping) = []
  handed_by (begin s input_samples window_samples at ready going) = []
  handed_by (refuse s job last at none_fits) = []
  handed_by (answer s job last request status response at filled) = []
  handed_by (hand_over s job stitched at) = if is_stale s.worker job then [] else stitched
  handed_by (adjust s job slow at) = []

  -- A step that does not empty the output: no reset that has an effect, and no change of format.
  abbrev KeepsOutput : {max_planes : ℕ} {s t : System F} → Step max_planes s t → Type 0
  KeepsOutput (reset_call s options sane more) = s.worker.stopping ≡ true
  KeepsOutput (submit_call s audio rate channels short rate_fits channels_fit more) =
      (s.worker.sample_rate ≡ rate) × (s.worker.channels ≡ channels)
  KeepsOutput (take_call s previous frames channels) = Unit
  KeepsOutput (finish_call s generation gain) = Unit
  KeepsOutput (stop_call s) = Unit
  KeepsOutput (leave s at ready stopping) = Unit
  KeepsOutput (begin s input_samples window_samples at ready going) = Unit
  KeepsOutput (refuse s job last at none_fits) = Unit
  KeepsOutput (answer s job last request status response at filled) = Unit
  KeepsOutput (hand_over s job stitched at) = Unit
  KeepsOutput (adjust s job slow at) = Unit

  abbrev pub taken : {max_planes : ℕ} {s t : System F} → Reach max_planes s t → List F
  taken here = []
  taken (next way step) = taken way ++ taken_by step

  abbrev pub handed : {max_planes : ℕ} {s t : System F} → Reach max_planes s t → List F
  handed here = []
  handed (next way step) = handed way ++ handed_by step

  abbrev KeepOutput : {max_planes : ℕ} {s t : System F} → Reach max_planes s t → Type 0
  KeepOutput here = Unit
  KeepOutput (next way step) = KeepOutput way × KeepsOutput step

  hand_over-output :
      (s : System F) (job : Job F) (stitched : List F)
      → IsSystemSound F s
      → s.stage ≡ delivering job stitched
      → output_of s ++ (if is_stale s.worker job then [] else stitched)
        ≡ output_of (delivered s job stitched)
  unfolding delivered
  hand_over-output s job stitched v at = elim (Bool-cases (is_stale s.worker job)) [
    | inl stale ↦ rw stale (
        append-nil _
        ∙ ap (λ out. contents out.0.output) (sym (deliver-stale s.worker job stitched stale)))
    | inr current ↦ rw current (sym (delivers-append job stitched v at current))
  ]

  -- One step: what waited and what is handed over is what is taken and what then waits.
  abbrev Balances : {max_planes : ℕ} {s t : System F} → Step max_planes s t → Type 0
  Balances {s = s} {t = t} step = output_of s ++ handed_by step ≡ taken_by step ++ output_of t

  Step-Balances :
      {max_planes : ℕ} {s t : System F} (step : Step max_planes s t)
      → IsSystemSound F s
      → KeepsOutput step
      → Balances step
  unfolding begun take_job answered adapted stop
  Step-Balances (reset_call s options sane more) v told =
      append-nil _ ∙ ap (λ w. contents w.output) (sym (reset-stopping s.worker options told))
  Step-Balances {max_planes} (submit_call s audio rate channels short rate_fits channels_fit more) v
        (same_rate, same_channels) =
      append-nil _
      ∙ ap contents
          (sym (submit-output max_planes s.worker audio rate channels same_rate same_channels))
  Step-Balances (take_call s previous frames channels) v _ =
      append-nil _ ∙ receive_take-output s.worker previous frames channels v.sound.output_valid
  Step-Balances (finish_call s generation gain) v _ =
      append-nil _ ∙ ap contents (sym (receive_finish-output s.worker generation gain))
  Step-Balances (stop_call s) v _ = append-nil _
  Step-Balances (leave s at ready stopping) v _ = append-nil _
  Step-Balances (begin s input_samples window_samples at ready going) v _ = append-nil _
  Step-Balances (refuse s job last at none_fits) v _ = append-nil _
  Step-Balances (answer s job last request status response at filled) v _ = append-nil _
  Step-Balances (hand_over s job stitched at) v _ = hand_over-output s job stitched v at
  Step-Balances (adjust s job slow at) v _ =
      append-nil _ ∙ ap contents (sym (adapt-output s.worker job slow))

  -- From any state that a new worker reaches, over any steps that do not empty the output: what
  -- waited to be played, followed by the blocks that the thread hands over, is what `receive` takes
  -- out, followed by what then waits. So every sample is played once, in order, and none is lost.
  pub output_flows :
      {max_planes : ℕ} (options : ConversionOptions F) (stream_id : ℕ) {s t : System F}
      → Reach max_planes (initial options stream_id) s
      → (way : Reach max_planes s t) → KeepOutput way
      → output_of s ++ handed way ≡ taken way ++ output_of t
  output_flows options stream_id past here kept = append-nil _
  output_flows options stream_id past (next {t = m} way step) (kept, keeps) =
      let v = Reach-IsSystemSound (reached options stream_id past) way in
      sym (append_assoc _ (handed way) (handed_by step))
      ∙ ap (λ xs. xs ++ handed_by step) (output_flows options stream_id past way kept)
      ∙ append_assoc (taken way) (output_of m) (handed_by step)
      ∙ ap (λ xs. taken way ++ xs) (Step-Balances step v keeps)
      ∙ sym (append_assoc (taken way) (taken_by step) _)
