-- ===== src/Conversion/System/Tail.antt =====
-- The tail that a crossfade reads: it has the size of the overlap, or there is none.
use mathlib.Core.Path.{subst}
use obs_rvc.Prelude.{
  not_both, ℕ, ◌*◌, ◌%◌, ◌^◌, ◌≡◌, refl, sym, ap₂, ◌∙◌, ◌⊎◌, inl, inr, true, not, ◌||◌, ◌==◌,
  if_cases, Option, none, some, List, [], length, Option-cases, Bool-cases,
}
use obs_rvc.Float.{Floats}
use obs_rvc.Ipc.Transport.{AudioResponse}
use obs_rvc.Ipc.Status.{IpcStatus, is_ok}
use obs_rvc.Stream.Assembler
use obs_rvc.Stream.Assembler.{StreamAssembler}
use obs_rvc.Stream.Assembler.Stitch.{length-stitch}
use obs_rvc.Conversion.Frames.{overlap_frames, search_frames}
use obs_rvc.Conversion.Codec.{decode_to_input_format}
use obs_rvc.Conversion.Worker.{
  Impl, ConversionOptions, reset, submit, stop, receive_take, receive_finish,
}
use obs_rvc.Conversion.Loop.{Job, take_job, finish_conversion, deliver, adapt}
use obs_rvc.Conversion.System.{
  Stage, waiting, converting, delivering, adapting, exited, System, begun, answered, delivered,
  adapted, stage_after, Step, reset_call, submit_call, take_call, finish_call, stop_call, leave,
  begin, refuse, answer, hand_over, adjust, Reach, here, next,
}
use obs_rvc.Conversion.System.Promises.{initial}
use obs_rvc.Conversion.System.Steady.{
  IsSteady, reset-IsSteady, submit-IsSteady, receive_take-IsSteady, receive_finish-IsSteady,
  stop-IsSteady, deliver-IsSteady, adapt-IsSteady,
}

abbrev IsFit : {F : Type 0} → List F → ℕ → ℕ → Type 0
IsFit tail sample_rate channels =
    (tail ≡ []) ⊎ (length tail ≡ overlap_frames sample_rate * channels)

-- The tail fits the conversion under way. Elsewhere it fits the worker's format, or a discontinuity
-- waits, which clears it.
abbrev IsTailed : (F : Type 0) → Impl F → StreamAssembler F → Stage F → Type 0
IsTailed F w stream (converting job) =
    IsFit stream.tail job.sample_rate job.channels
    × ((w.discontinuity ≡ true) ⊎ ((job.sample_rate ≡ w.sample_rate) × (job.channels ≡ w.channels)))
IsTailed F w stream waiting = (w.discontinuity ≡ true) ⊎ IsFit stream.tail w.sample_rate w.channels
IsTailed F w stream (delivering job stitched) =
    (w.discontinuity ≡ true) ⊎ IsFit stream.tail w.sample_rate w.channels
IsTailed F w stream (adapting job) =
    (w.discontinuity ≡ true) ⊎ IsFit stream.tail w.sample_rate w.channels
IsTailed F w stream exited = (w.discontinuity ≡ true) ⊎ IsFit stream.tail w.sample_rate w.channels

module _ {F : Type 0} ⦃fl : Floats F⦄ where
  IsFit-steady :
      (w w' : Impl F) (tail : List F)
      → IsSteady w w'
      → (w.discontinuity ≡ true) ⊎ IsFit tail w.sample_rate w.channels
      → (w'.discontinuity ≡ true) ⊎ IsFit tail w'.sample_rate w'.channels
  IsFit-steady w w' tail (inl cut) v = inl cut
  IsFit-steady w w' tail (inr (same, rate, channels)) (inl cut) = inl (same ∙ cut)
  IsFit-steady w w' tail (inr (same, rate, channels)) (inr (inl empty)) = inr (inl empty)
  IsFit-steady w w' tail (inr (same, rate, channels)) (inr (inr size)) =
      inr (inr (size ∙ sym (ap₂ (λ r c. overlap_frames r * c) rate channels)))

  IsTailed-steady :
      (w w' : Impl F) (stream : StreamAssembler F) (stage : Stage F)
      → IsSteady w w'
      → IsTailed F w stream stage
      → IsTailed F w' stream stage
  IsTailed-steady w w' stream (converting job) (inl cut) (fit, v) = (fit, inl cut)
  IsTailed-steady w w' stream (converting job) (inr (same, rate, channels)) (fit, inl cut) =
      (fit, inl (same ∙ cut))
  IsTailed-steady w w' stream (converting job) (inr (same, rate, channels))
        (fit, inr (of_rate, of_channels)) =
      (fit, inr (of_rate ∙ sym rate, of_channels ∙ sym channels))
  IsTailed-steady w w' stream waiting steady v = IsFit-steady w w' stream.tail steady v
  IsTailed-steady w w' stream (delivering job stitched) steady v =
      IsFit-steady w w' stream.tail steady v
  IsTailed-steady w w' stream (adapting job) steady v = IsFit-steady w w' stream.tail steady v
  IsTailed-steady w w' stream exited steady v = IsFit-steady w w' stream.tail steady v

  -- A conversion that ends leaves no tail, or one of the overlap.
  finish_conversion-IsFit :
      (stream : StreamAssembler F) (job : Job F) (status : IpcStatus) (response : AudioResponse)
      → IsFit (finish_conversion stream job status response).0.tail job.sample_rate job.channels
  unfolding finish_conversion Assembler.reset
  finish_conversion-IsFit stream job status response =
      let frames = length job.window_samples % 2 ^ 32 in
      let rate = job.sample_rate in
      if_cases (λ (r : StreamAssembler F × Option (List F)). IsFit r.0.tail rate job.channels)
        (not (is_ok status) || response.audio_size == 0) _ _ (λ _. inl refl)
        (λ _.
          elim (Option-cases (decode_to_input_format {F = F} response rate job.channels frames)) [
            | inl e ↦ rw e (inl refl)
            | inr (converted, e) ↦
                let stitched =
                  Assembler.stitch stream converted job.hop_frames job.context_frames
                    (overlap_frames rate) (search_frames rate) job.channels in
                rw e (elim (Option-cases stitched) [
                  | inl e' ↦ rw e' (inl refl)
                  | inr (out, e') ↦ rw e' (
                      inr
                        (length-stitch stream converted job.hop_frames job.context_frames
                          (overlap_frames rate) (search_frames rate) job.channels e').1)
                ])
          ])

  -- Wherever the thread goes on to behind a conversion.
  IsTailed-after :
      (w : Impl F) (stream : StreamAssembler F) (job : Job F) (stitched : Option (List F))
      → (w.discontinuity ≡ true) ⊎ IsFit stream.tail w.sample_rate w.channels
      → IsTailed F w stream (stage_after job stitched)
  IsTailed-after w stream job none v = v
  IsTailed-after w stream job (some stitched) v = v

  answered-IsTailed :
      (s : System F) (job : Job F) (status : IpcStatus) (response : AudioResponse)
      → IsTailed F s.worker s.stream (converting job)
      → let s' = answered s job status response in IsTailed F s'.worker s'.stream s'.stage
  unfolding answered
  answered-IsTailed s job status response (_, current) =
      let out = finish_conversion s.stream job status response in
      let fit = finish_conversion-IsFit s.stream job status response in
      IsTailed-after s.worker out.0 job out.1 (elim current [
        | inl cut ↦ inl cut
        | inr (rate, channels) ↦ inr (elim fit [
          | inl empty ↦ inl empty
          | inr size ↦ inr (size ∙ ap₂ (λ r c. overlap_frames r * c) rate channels)
        ])
      ])

  -- A request that is refused leaves the tail.
  after_refusal :
      (s : System F) (job : Job F)
      → IsTailed F s.worker s.stream (converting job)
      → (s.worker.discontinuity ≡ true) ⊎ IsFit s.stream.tail s.worker.sample_rate s.worker.channels
  after_refusal s job (fit, inl cut) = inl cut
  after_refusal s job (inl empty, inr (rate, channels)) = inr (inl empty)
  after_refusal s job (inr size, inr (rate, channels)) =
      inr (inr (size ∙ ap₂ (λ r c. overlap_frames r * c) rate channels))

  begun-IsTailed :
      (s : System F) (input_samples window_samples : List F)
      → (s.worker.discontinuity ≡ true) ⊎ IsFit s.stream.tail s.worker.sample_rate s.worker.channels
      → let s' = begun s input_samples window_samples in IsTailed F s'.worker s'.stream s'.stage
  unfolding begun take_job Assembler.window Assembler.reset
  begun-IsTailed s input_samples window_samples v = (
    elim (Bool-cases s.worker.discontinuity) [
      | inl cut ↦ rw cut (inl refl)
      | inr going ↦ rw going (elim v [ inl cut ↦ absurd (not_both going cut) | inr fit ↦ fit ])
    ],
    inr (refl, refl),
  )

  delivered-IsTailed :
      (s : System F) (job : Job F) (stitched : List F)
      → (s.worker.discontinuity ≡ true) ⊎ IsFit s.stream.tail s.worker.sample_rate s.worker.channels
      → let s' = delivered s job stitched in IsTailed F s'.worker s'.stream s'.stage
  unfolding delivered
  delivered-IsTailed s job stitched v =
      let out = deliver s.worker job stitched in
      let kept =
        IsFit-steady s.worker out.0 s.stream.tail (deliver-IsSteady s.worker job stitched) v in
      if_cases (IsTailed F out.0 s.stream) out.1 (adapting job) waiting (λ _. kept) (λ _. kept)

  Step-IsTailed :
      {max_planes : ℕ} {s t : System F}
      → IsTailed F s.worker s.stream s.stage
      → Step max_planes s t
      → IsTailed F t.worker t.stream t.stage
  unfolding adapted
  Step-IsTailed v (reset_call s options sane more) =
      IsTailed-steady s.worker (reset s.worker options) s.stream s.stage
        (reset-IsSteady s.worker options) v
  Step-IsTailed {max_planes} v
        (submit_call s audio rate channels short rate_fits channels_fit more) =
      IsTailed-steady s.worker (submit max_planes s.worker audio rate channels) s.stream s.stage
        (submit-IsSteady s.worker max_planes audio rate channels) v
  Step-IsTailed v (take_call s previous frames channels) =
      IsTailed-steady s.worker (receive_take s.worker previous frames channels).1 s.stream s.stage
        (receive_take-IsSteady s.worker previous frames channels) v
  Step-IsTailed v (finish_call s generation gain) =
      IsTailed-steady s.worker (receive_finish s.worker generation gain) s.stream s.stage
        (receive_finish-IsSteady s.worker generation gain) v
  Step-IsTailed v (stop_call s) =
      IsTailed-steady s.worker (stop s.worker) s.stream s.stage (stop-IsSteady s.worker) v
  Step-IsTailed v (leave s at ready stopping) = subst (IsTailed F s.worker s.stream) at v
  Step-IsTailed v (begin s input_samples window_samples at ready going) =
      begun-IsTailed s input_samples window_samples (subst (IsTailed F s.worker s.stream) at v)
  Step-IsTailed v (refuse s job last at none_fits) =
      after_refusal s job (subst (IsTailed F s.worker s.stream) at v)
  Step-IsTailed v (answer s job last request status response at filled) =
      answered-IsTailed s job status response (subst (IsTailed F s.worker s.stream) at v)
  Step-IsTailed v (hand_over s job stitched at) =
      delivered-IsTailed s job stitched (subst (IsTailed F s.worker s.stream) at v)
  Step-IsTailed v (adjust s job slow at) =
      IsFit-steady s.worker (adapt s.worker job slow).0 s.stream.tail
        (adapt-IsSteady s.worker job slow) (subst (IsTailed F s.worker s.stream) at v)

  Reach-IsTailed :
      {max_planes : ℕ} {s t : System F}
      → IsTailed F s.worker s.stream s.stage
      → Reach max_planes s t
      → IsTailed F t.worker t.stream t.stage
  Reach-IsTailed v here = v
  Reach-IsTailed v (next way step) = Step-IsTailed (Reach-IsTailed v way) step

  -- Whatever conversion a new worker comes to, the tail that the crossfade reads then is empty or has
  -- as many samples as the overlap of that conversion's own format.
  pub Reach-tail :
      {max_planes : ℕ} (options : ConversionOptions F) (stream_id : ℕ) {s : System F} (job : Job F)
      → Reach max_planes (initial options stream_id) s
      → s.stage ≡ converting job
      → (s.stream.tail ≡ [])
        ⊎ (length s.stream.tail ≡ overlap_frames job.sample_rate * job.channels)
  Reach-tail options stream_id {s} job way at =
      (subst (IsTailed F s.worker s.stream) at (Reach-IsTailed (inr (inl refl)) way)).0
