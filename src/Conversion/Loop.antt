-- ===== src/Conversion/Loop.antt =====
-- The loop of `ConversionWorker::Impl::run` in
-- plugin/src/rvc/filter/rvc-filter-conversion.cpp, cut at its locks and at the call of the worker
-- process.
use obs_rvc.Prelude.{
  ℕ, ◌+◌, ◌-◌, ◌*◌, ◌%◌, ◌^◌, Bool, true, false, not, ◌||◌, ◌&&◌, Option, none, some, List, ltb,
  leb, ◌==◌, if◌then◌else◌, length, memcpy,
}
use obs_rvc.Prelude.Int.{ℤ, pos, negsuc, ltb_ℤ, ◌+ℤ◌}
use obs_rvc.Float.{Floats, nought}
use obs_rvc.Utils.Strings.{copy_string}
use obs_rvc.Ipc.Transport.{AudioRequest, AudioResponse}
use obs_rvc.Ipc.Status.{IpcStatus, is_ok}
use obs_rvc.Stream.Queue
use obs_rvc.Stream.Assembler
use obs_rvc.Stream.Assembler.{StreamAssembler}
use obs_rvc.Conversion.Frames.{history_frames, overlap_frames, search_frames}
use obs_rvc.Conversion.Codec.{decode_to_input_format, pcm_bytes, pcm_of}
use obs_rvc.Conversion.Worker.{ConversionOptions, Impl, block_frames, needed_frames}

-- The locals of one round of the loop, the window included.
pub record Job (F : Type 0) : Type 0 where
  pub sample_rate : ℕ
  pub channels : ℕ
  pub options : ConversionOptions F
  pub generation : ℕ
  pub first_conversion : Bool
  pub hop_frames : ℕ
  pub context_frames : ℕ
  pub window_samples : List F

abbrev pub int32_of : ℕ → ℤ
int32_of n = if ltb n (2 ^ 31) then pos n else negsuc (2 ^ 32 - 1 - n)

abbrev pub min_ℤ : ℤ → ℤ → ℤ
min_ℤ a b = if ltb_ℤ b a then b else a

module _ {F : Type 0} ⦃fl : Floats F⦄ where
  -- The predicate that the loop waits for.
  unfoldable pub is_ready : Impl F → Bool
  is_ready w =
      if w.stopping || not w.configured || w.sample_rate == 0 || w.channels == 0
      then w.stopping
      else ltb 0 (block_frames w)
        && leb (needed_frames w) (Queue.size w.input)
        && leb (Queue.size w.output) (block_frames w * w.channels)

  -- The first critical section, where the worker is not stopping, and the window behind it. The
  -- lists are what `input_samples` and `window_samples` held.
  unfoldable pub take_job :
      Impl F → StreamAssembler F → List F → List F → Impl F × StreamAssembler F × Job F
  take_job w stream input_samples window_samples =
      let hop = block_frames w in
      let context = history_frames w.sample_rate in
      let taken = Queue.copy_front nought w.input input_samples (needed_frames w) in
      let stream' = if w.discontinuity then Assembler.reset stream else stream in
      let out = Assembler.window stream' taken hop context 1 window_samples in
      (
        record w { input = Queue.discard w.input hop; discontinuity = false },
        out.0,
        record {
          sample_rate = w.sample_rate;
          channels = w.channels;
          options = w.options;
          generation = w.generation;
          first_conversion = not w.has_completed_conversion;
          hop_frames = hop;
          context_frames = context;
          window_samples = out.1;
        },
      )

  -- The request, over what the last one held; `none` where a setting exceeds its limit.
  unfoldable pub fill_request : AudioRequest F → ℕ → Job F → Option (AudioRequest F)
  fill_request last stream_id job =
      let o = job.options in
      let bytes = pcm_bytes (pcm_of job.window_samples) in
      let audio_size = length bytes % 2 ^ 32 in
      elim (copy_string last.model (some o.model)) [
        | none ↦ none
        | some model ↦ elim (copy_string last.index_path (some o.index_path)) [
          | none ↦ none
          | some index_path ↦ elim (copy_string last.f0_method (some o.f0_method)) [
            | none ↦ none
            | some f0_method ↦ some (record {
              audio_size = audio_size;
              sample_rate = job.sample_rate;
              stream_id = stream_id;
              stream_generation = job.generation;
              model = model;
              index_path = index_path;
              speaker = o.speaker;
              f0_up_key = o.f0_up_key;
              f0_method = f0_method;
              filter_radius = o.filter_radius;
              resample_sr =
                  if ltb_ℤ (pos 0) o.resample_sr then o.resample_sr else int32_of job.sample_rate;
              rms_mix_rate = o.rms_mix_rate;
              protect = o.protect;
              index_rate = o.index_rate;
              audio = memcpy last.audio 0 bytes 0 audio_size;
            })
          ]
        ]
      ]

  abbrev timeout_of : Job F → ℕ
  timeout_of job = if job.first_conversion then 180_000 else 60_000

  -- From the answer of the worker process to the stitched audio; where there is none, the stream
  -- is reset.
  unfoldable pub finish_conversion :
      StreamAssembler F → Job F → IpcStatus → AudioResponse → StreamAssembler F × Option (List F)
  finish_conversion stream job status response =
      let failed : StreamAssembler F × Option (List F) = (Assembler.reset stream, none) in
      let rate = job.sample_rate in
      if not (is_ok status) || response.audio_size == 0
      then failed
      else elim (decode_to_input_format response rate job.channels
          (length job.window_samples % 2 ^ 32)) [
            | none ↦ failed
            | some converted ↦
                elim (Assembler.stitch stream converted job.hop_frames job.context_frames
                  (overlap_frames rate) (search_frames rate) job.channels) [
                    | none ↦ failed
                    | some (stream', stitched) ↦ (stream', some stitched)
                  ]
          ]

  -- The worker has moved on since the job was taken.
  abbrev pub is_stale : Impl F → Job F → Bool
  is_stale w job =
      w.stopping
      || not (w.generation == job.generation)
      || not (w.sample_rate == job.sample_rate)
      || not (w.channels == job.channels)

  -- The bound on the output before `append`.
  unfoldable pub make_room : Impl F → Job F → List F → Impl F
  make_room w job stitched =
      let maximum_output = 4 * job.hop_frames * job.channels in
      let size = Queue.size w.output + length stitched in
      if ltb maximum_output size
      then record w { output = Queue.discard w.output (size - maximum_output) }
      else w

  -- The second critical section: the worker, and whether the audio was taken.
  unfoldable pub deliver : Impl F → Job F → List F → Impl F × Bool
  deliver w job stitched =
      let w' = make_room w job stitched in
      if is_stale w job then (w, false) else (
        record w' {
          output = Queue.append nought w'.output stitched;
          has_completed_conversion = true;
        },
        true,
      )

  -- The last critical section, where `slow` says that the conversion took longer than its block
  -- lasts. The second result is `increased_duration`.
  unfoldable pub adapt : Impl F → Job F → Bool → Impl F × ℤ
  adapt w job slow =
      let longer = min_ℤ w.maximum_chunk_duration_ms (w.active_chunk_duration_ms +ℤ pos 250) in
      if slow
        && not job.first_conversion
        && ltb_ℤ w.active_chunk_duration_ms w.maximum_chunk_duration_ms
      then (record w { active_chunk_duration_ms = longer }, longer)
      else (w, pos 0)
