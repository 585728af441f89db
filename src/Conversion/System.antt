-- ===== src/Conversion/System.antt =====
-- The conversion worker as it runs: the calls of its owner and the steps of its thread, in any
-- order. Every step is one critical section, or the exchange with the worker process.
pub mod Sound
pub mod Calls
pub mod Tracking
pub mod Calm
pub mod Begin
pub mod Finish
pub mod Reachable
pub mod Promises
pub mod Exit
pub mod Output
pub mod Intake
pub mod Feed
pub mod Flow
pub mod Refusal
pub mod Steady
pub mod Tail
use obs_rvc.Prelude.{
  ℕ, ◌+◌, ◌-◌, ◌<◌, ◌^◌, ◌≡◌, Bool, true, false, Option, none, some, List, if◌then◌else◌,
}
use obs_rvc.Prelude.Int.{ℤ, pos, ◌≤ℤ◌}
use obs_rvc.Float.{Floats, nought}
use obs_rvc.Ipc.Transport.{AudioRequest, AudioResponse}
use obs_rvc.Ipc.Status.{IpcStatus}
use obs_rvc.Stream.Queue
use obs_rvc.Stream.Assembler.{StreamAssembler}
use obs_rvc.Conversion.Codec.{AudioData}
use obs_rvc.Conversion.Worker.{
  Impl, ConversionOptions, reset, submit, receive_take, receive_finish, stop,
}
use obs_rvc.Conversion.Loop.{
  Job, is_ready, take_job, fill_request, finish_conversion, deliver, adapt,
}

-- Where the thread stands in its loop.
pub data Stage (F : Type 0) : Type 0 where
  waiting : Stage F
  converting : Job F → Stage F
  delivering : Job F → List F → Stage F
  adapting : Job F → Stage F
  exited : Stage F

pub record System (F : Type 0) : Type 0 where
  pub worker : Impl F
  pub stream : StreamAssembler F
  pub stage : Stage F

-- What the filter passes to `reset`: the first block is not longer than the longest, and both are
-- positive values of `int32_t`.
pub record IsSane (F : Type 0) (options : ConversionOptions F) : Type 0 where
  pub positive : pos 1 ≤ℤ options.initial_chunk_duration_ms
  pub ordered : options.initial_chunk_duration_ms ≤ℤ options.maximum_chunk_duration_ms
  pub fits : options.maximum_chunk_duration_ms ≤ℤ pos (2 ^ 31 - 1)

module _ {F : Type 0} ⦃fl : Floats F⦄ where
  -- A new worker with the given identity.
  unfoldable pub new_worker : ConversionOptions F → ℕ → Impl F
  new_worker options stream_id = record {
    options = options;
    input = Queue.fresh;
    output = Queue.fresh;
    sample_rate = 0;
    channels = 0;
    stream_id = stream_id;
    generation = 0;
    active_chunk_duration_ms = pos 500;
    startup_chunk_duration_ms = pos 500;
    maximum_chunk_duration_ms = pos 2000;
    configured = false;
    has_completed_conversion = false;
    stopping = false;
    discontinuity = true;
    playback_started = false;
    playback_gain = nought;
    output_underflows = 0;
  }

  unfoldable pub begun : System F → List F → List F → System F
  begun s input_samples window_samples =
      let (worker, stream, job) = take_job s.worker s.stream input_samples window_samples in
      record { worker = worker; stream = stream; stage = converting job }

  abbrev pub stage_after : Job F → Option (List F) → Stage F
  stage_after job none = waiting
  stage_after job (some stitched) = delivering job stitched

  unfoldable pub answered : System F → Job F → IpcStatus → AudioResponse → System F
  answered s job status response =
      let (stream, stitched) = finish_conversion s.stream job status response in
      record s { stream = stream; stage = stage_after job stitched }

  unfoldable pub delivered : System F → Job F → List F → System F
  delivered s job stitched =
      let (worker, taken) = deliver s.worker job stitched in
      record s { worker = worker; stage = if taken then adapting job else waiting }

  unfoldable pub adapted : System F → Job F → Bool → System F
  adapted s job slow = record s { worker = (adapt s.worker job slow).0; stage = waiting }

  -- The steps. A call that may begin a new generation is one that does not use up the 64-bit
  -- counter, and the integers of a call have the widths of the source.
  pub data Step (max_planes : ℕ) : System F → System F → Type 0 where
    reset_call :
        (s : System F) (options : ConversionOptions F)
        → IsSane F options
        → s.worker.generation + 1 < 2 ^ 64
        → Step max_planes s (record s { worker = reset s.worker options })
    submit_call :
        (s : System F) (audio : AudioData F) (sample_rate channels : ℕ)
        → audio.frames < 2 ^ 32
        → sample_rate < 2 ^ 32
        → channels < 2 ^ 16
        → s.worker.generation + 2 < 2 ^ 64
        → Step max_planes s
            (record s { worker = submit max_planes s.worker audio sample_rate channels })
    take_call :
        (s : System F) (previous : List F) (frames channels : ℕ)
        → Step max_planes s
            (record s { worker = (receive_take s.worker previous frames channels).1 })
    finish_call :
        (s : System F) (generation : ℕ) (gain : F)
        → Step max_planes s (record s { worker = receive_finish s.worker generation gain })
    stop_call : (s : System F) → Step max_planes s (record s { worker = stop s.worker })
    leave :
        (s : System F)
        → s.stage ≡ waiting
        → is_ready s.worker ≡ true
        → s.worker.stopping ≡ true
        → Step max_planes s (record s { stage = exited })
    begin :
        (s : System F) (input_samples window_samples : List F)
        → s.stage ≡ waiting
        → is_ready s.worker ≡ true
        → s.worker.stopping ≡ false
        → Step max_planes s (begun s input_samples window_samples)
    refuse :
        (s : System F) (job : Job F) (last : AudioRequest F)
        → s.stage ≡ converting job
        → fill_request last s.worker.stream_id job ≡ none
        → Step max_planes s (record s { stage = waiting })
    answer :
        (s : System F) (job : Job F) (last request : AudioRequest F) (status : IpcStatus)
        (response : AudioResponse)
        → s.stage ≡ converting job
        → fill_request last s.worker.stream_id job ≡ some request
        → Step max_planes s (answered s job status response)
    hand_over :
        (s : System F) (job : Job F) (stitched : List F)
        → s.stage ≡ delivering job stitched
        → Step max_planes s (delivered s job stitched)
    adjust :
        (s : System F) (job : Job F) (slow : Bool)
        → s.stage ≡ adapting job
        → Step max_planes s (adapted s job slow)

  pub data Reach (max_planes : ℕ) (s : System F) : System F → Type 0 where
    here : Reach max_planes s s
    next : {t u : System F} → Reach max_planes s t → Step max_planes t u → Reach max_planes s u
