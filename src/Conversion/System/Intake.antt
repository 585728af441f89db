-- ===== src/Conversion/System/Intake.antt =====
-- What the critical sections of the worker do to its input, within one generation.
use mathlib.Core.List.{append-nil}
use mathlib.Core.Path.{subst}
use obs_rvc.Prelude.{
  ℕ, ◌+◌, ◌*◌, ◌≤◌, ◌<◌, ◌^◌, ◌≡◌, refl, sym, ap, ◌∙◌, inl, inr, Bool, true, false, not, ◌||◌, ◌==◌,
  none, some, List, [], ◌++◌, take, drop, min, length, take-append-drop, drop-append_past,
  take-take, ltb, length-take, ap₂, arith, if_cases, Option-cases, Bool-cases, if◌then◌else◌,
}
use obs_rvc.Float.{Floats, nought}
use obs_rvc.Stream.Queue
use obs_rvc.Stream.Queue.{AudioSampleQueue}
use obs_rvc.Stream.Queue.Window.{contents}
use obs_rvc.Stream.Queue.Refine.{copy_front_lem, discard_lem, size-eq-length}
use obs_rvc.Stream.Queue.Append.{append_lem}
use obs_rvc.Stream.Assembler
use obs_rvc.Stream.Assembler.{StreamAssembler, leading}
use obs_rvc.Stream.Assembler.Windows.{window_lem, length-leading}
use obs_rvc.Conversion.Frames.{history_frames}
use obs_rvc.Conversion.Codec.{AudioData, copy_audio_to_mono}
use obs_rvc.Conversion.Codec.Pcm.{length-copy_audio_to_mono}
use obs_rvc.Conversion.Worker.{
  ConversionOptions, Impl, adopt_format, trim_input, enqueue, submit, block_frames, needed_frames,
  maximum_samples, take_samples, receive_take, receive_finish, reset,
}
use obs_rvc.Conversion.Loop.{Job, take_job, deliver, make_room, adapt}
use obs_rvc.Conversion.System.Sound.{IsSound}
use obs_rvc.Conversion.System.Calls.{maximum_samples-le, generation-adopt_format}
use obs_rvc.Conversion.System.Calm.{adopt_format-IsCalm}
use obs_rvc.Conversion.System.Begin.{IsReady}

-- The worker goes on to `w'`, never to an older generation; and if it stays in its generation, what
-- waited and what is submitted are what is sent and what then waits.
abbrev pub Feeds : {F : Type 0} → Impl F → Impl F → List F → List F → Type 0
Feeds w w' submitted sent =
    (w.generation ≤ w'.generation)
    × (w'.generation ≡ w.generation → contents w.input ++ submitted ≡ sent ++ contents w'.input)

module _ {F : Type 0} ⦃fl : Floats F⦄ where
  -- The mono samples of a call of `submit` that come into the input.
  abbrev pub accepted : ℕ → Impl F → AudioData F → ℕ → ℕ → List F
  accepted max_planes w audio sample_rate channels =
      if sample_rate == 0 || not w.configured || w.stopping
      then []
      else elim (copy_audio_to_mono max_planes audio channels) [
        | none ↦ []
        | some samples ↦ samples
      ]

  -- The part of a job's window that becomes its block.
  abbrev pub block_of : Job F → List F
  block_of job = take job.hop_frames (drop job.context_frames job.window_samples)

  pub Feeds-same :
      (w w' : Impl F) → w'.generation ≡ w.generation → w'.input ≡ w.input → Feeds w w' [] []
  Feeds-same w w' generation input =
      (omega arith, λ _. append-nil (contents w.input) ∙ ap contents (sym input))

  pub reset-Feeds :
      (w : Impl F) (options : ConversionOptions F)
      → w.generation + 1 < 2 ^ 64
      → Feeds w (reset w options) [] []
  unfolding reset
  reset-Feeds w options more =
      if_cases (λ w'. Feeds w w' [] []) w.stopping w _ (λ _. Feeds-same w w refl refl)
        (λ _. (omega arith, λ same. absurd (omega (arith, same))))

  trim_input-Feeds :
      (w : Impl F) (samples : List F)
      → IsSound F w
      → length samples < 2 ^ 32
      → w.generation + 1 < 2 ^ 64
      → Feeds w (trim_input (record w { input = Queue.append nought w.input samples })) samples []
  unfolding trim_input
  trim_input-Feeds w samples v short more =
      let input = Queue.append nought w.input samples in
      if_cases (λ w'. Feeds w w' samples []) (ltb (maximum_samples w) (Queue.size input)) _ _
        (λ _. (omega arith, λ same. absurd (omega (arith, same))))
        (λ _. (
          omega arith,
          λ _.
              sym
                (append_lem nought samples v.input_valid
                  (omega (arith, maximum_samples-le w v.rate_fits, v.input_bound))).1,
        ))

  generation-trim_input :
      (w : Impl F) (input : AudioSampleQueue F)
      → w.generation + 1 < 2 ^ 64
      → w.generation ≤ (trim_input (record w { input = input })).generation
  unfolding trim_input
  generation-trim_input w input more = ground arith

  enqueue-Feeds :
      (w : Impl F) (samples : List F) (sample_rate channels : ℕ)
      → IsSound F w
      → length samples < 2 ^ 32
      → w.generation + 2 < 2 ^ 64
      → (not w.configured || w.stopping) ≡ false
      → Feeds w (enqueue w samples sample_rate channels) samples []
  unfolding enqueue
  enqueue-Feeds w samples sample_rate channels v short more open_now =
      let adopted = adopt_format w sample_rate channels in
      let input = Queue.append nought adopted.input samples in
      let few = generation-adopt_format w sample_rate channels in
      let grown = generation-trim_input adopted input (omega arith) in
      rw open_now (elim (adopt_format-IsCalm w sample_rate channels (omega arith)) [
        | inl later ↦ (omega arith, λ e. absurd (omega (arith, e)))
        | inr same ↦
            subst
              (λ (a : Impl F).
                Feeds w (trim_input (record a { input = Queue.append nought a.input samples }))
                  samples [])
              (sym same) (trim_input-Feeds w samples v short (omega arith))
      ])

  enqueue-shut :
      (w : Impl F) (samples : List F) (sample_rate channels : ℕ)
      → (not w.configured || w.stopping) ≡ true
      → enqueue w samples sample_rate channels ≡ w
  unfolding enqueue
  enqueue-shut w samples sample_rate channels shut = rw shut refl

  pub submit-Feeds :
      (max_planes : ℕ) (w : Impl F) (audio : AudioData F) (sample_rate channels : ℕ)
      → IsSound F w
      → audio.frames < 2 ^ 32
      → w.generation + 2 < 2 ^ 64
      → Feeds w
          (submit max_planes w audio sample_rate channels)
          (accepted max_planes w audio sample_rate channels)
          []
  unfolding submit
  submit-Feeds max_planes w audio sample_rate channels v short more =
      elim (Bool-cases (sample_rate == 0)) [
        | inl no_rate ↦ rw no_rate (Feeds-same w w refl refl)
        | inr some_rate ↦ elim (Bool-cases (not w.configured || w.stopping)) [
          | inl shut ↦ elim (Option-cases (copy_audio_to_mono max_planes audio channels)) [
            | inl e ↦ rw (some_rate, e, shut) (Feeds-same w w refl refl)
            | inr (samples, e) ↦
                rw (some_rate, e, enqueue-shut w samples sample_rate channels shut, shut)
                  (Feeds-same w w refl refl)
          ]
          | inr open_now ↦ elim (Option-cases (copy_audio_to_mono max_planes audio channels)) [
            | inl e ↦ rw (some_rate, e, open_now) (Feeds-same w w refl refl)
            | inr (samples, e) ↦
                rw (some_rate, e, open_now)
                  (enqueue-Feeds w samples sample_rate channels v
                    (omega (arith, length-copy_audio_to_mono max_planes audio channels e)) more
                    open_now)
          ]
        ]
      ]

  pub receive_take-Feeds :
      (w : Impl F) (previous : List F) (frames channels : ℕ)
      → Feeds w (receive_take w previous frames channels).1 [] []
  unfolding receive_take take_samples
  receive_take-Feeds w previous frames channels =
      Feeds-same w (receive_take w previous frames channels).1 (ground arith) (ground arith)

  pub receive_finish-Feeds :
      (w : Impl F) (generation : ℕ) (gain : F) → Feeds w (receive_finish w generation gain) [] []
  unfolding receive_finish
  receive_finish-Feeds w generation gain =
      Feeds-same w (receive_finish w generation gain) (ground arith) (ground arith)

  pub deliver-Feeds :
      (w : Impl F) (job : Job F) (stitched : List F) → Feeds w (deliver w job stitched).0 [] []
  unfolding deliver make_room
  deliver-Feeds w job stitched =
      Feeds-same w (deliver w job stitched).0 (ground arith) (ground arith)

  pub adapt-Feeds : (w : Impl F) (job : Job F) (slow : Bool) → Feeds w (adapt w job slow).0 [] []
  unfolding adapt
  adapt-Feeds w job slow = Feeds-same w (adapt w job slow).0 (ground arith) (ground arith)

  -- A job's window holds its block behind the history.
  pub take_job-Feeds :
      (w : Impl F) (stream : StreamAssembler F) (input_samples window_samples : List F)
      → IsSound F w
      → IsReady F w
      → let out = take_job w stream input_samples window_samples in
        Feeds w out.0 [] (block_of out.2)
  unfolding take_job
  take_job-Feeds w stream input_samples window_samples v r =
      let hop = block_frames w in
      let needed = needed_frames w in
      let taken = Queue.copy_front nought w.input input_samples needed in
      let stream' = if w.discontinuity then Assembler.reset stream else stream in
      let context = history_frames w.sample_rate in
      let held = copy_front_lem nought input_samples needed v.input_valid in
      let lead = leading stream' (context * 1) in
      let front : take hop (drop context (lead ++ taken)) ≡ take hop (contents w.input) =
        ap (λ l. take hop l)
          (drop-append_past context 0 lead taken
            (omega (arith, length-leading stream' (context * 1))))
        ∙ ap (λ l. take hop l) held
        ∙ take-take hop needed (contents w.input)
        ∙ ap (λ k. take k (contents w.input)) {x = min hop needed} {y = hop} (omega arith) in
      (
        omega arith,
        λ _.
            append-nil (contents w.input)
            ∙ sym (take-append-drop hop (contents w.input))
            ∙ ap₂ ◌++◌
                (sym (
                  ap (λ l. take hop (drop context l))
                    (window_lem stream' taken hop context 1 window_samples (
                      omega (
                        arith,
                        ap length held,
                        length-take needed (contents w.input),
                        size-eq-length v.input_valid,
                      ))).0
                  ∙ front))
                (sym (discard_lem hop v.input_valid)),
      )
