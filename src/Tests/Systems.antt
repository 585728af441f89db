-- ===== src/Tests/Systems.antt =====
-- A worker at 100 Hz with blocks of four frames, from its first call to the audio it hands over.
use obs_rvc.Prelude.{
  ◌↔◌, ◌⊎◌, ℕ, ◌+◌, ◌-◌, ◌*◌, ◌≤◌, ◌<◌, ◌≡◌, ◌++◌, refl, true, false, List, [], ◌∷◌, arith, Option,
  none, some, length, replicate, memcpy, get_or, if◌then◌else◌,
}
use obs_rvc.Prelude.Int.{pos, ◌≤ℤ◌}
use obs_rvc.Ipc.Transport.{AudioRequest, AudioResponse, max_input_bytes}
use obs_rvc.Ipc.Status.{IpcStatus}
use obs_rvc.Stream.Queue
use obs_rvc.Stream.Assembler
use obs_rvc.Conversion.Frames
use obs_rvc.Conversion.Frames.{overlap_frames, history_frames, lookahead_frames, bytes_per_sample}
use obs_rvc.Conversion.Codec
use obs_rvc.Conversion.Codec.{AudioData}
use obs_rvc.Conversion.Worker
use obs_rvc.Conversion.Worker.{
  Impl, ConversionOptions, receive_take, stop, block_frames, needed_frames, reset, submit, may_play,
}
use obs_rvc.Conversion.Loop.{Job, is_ready, is_stale, take_job, fill_request, finish_conversion}
use obs_rvc.Conversion.System.{
  System, Stage, waiting, converting, delivering, IsSane, begun, answered, delivered, Step,
  reset_call, submit_call, hand_over, take_call, leave, exited, begin, answer, Reach, here, next,
}
use obs_rvc.Conversion.System.Promises.{
  initial, output_of, Reach-bounds, Reach-request, Reach-delivers, Reach-starts,
}
use obs_rvc.Conversion.System.Tail.{Reach-tail}
use obs_rvc.Float.{nought, clamp_single}
use obs_rvc.Conversion.Codec.{load_sample}
use obs_rvc.Conversion.Request.Samples.{request_samples}
use obs_rvc.Tests.Sample.{whole_floats, whole-CastFits, options, ten_frames}

options-IsSane : IsSane ℕ options
options-IsSane = omega arith

abbrev set_up : System ℕ
set_up = record (initial options 1) { worker = reset (initial options 1).worker options }

abbrev pub filled : System ℕ
filled = record set_up { worker = submit 8 set_up.worker ten_frames 100 1 }

pub filled-Reach : Reach 8 (initial options 1) filled
unfolding reset obs_rvc.Conversion.System.new_worker
filled-Reach =
    next (next here (reset_call (initial options 1) options options-IsSane (omega arith)))
      (submit_call set_up ten_frames 100 1 (omega arith) (omega arith) (omega arith) (omega arith))

Reach-bounds_example :
    let w = filled.worker in
    (Queue.size w.input ≤ 2 * block_frames w + lookahead_frames w.sample_rate)
    × (Queue.size w.output ≤ 2 * block_frames w * w.channels)
    × (w.startup_chunk_duration_ms ≤ℤ w.active_chunk_duration_ms)
    × (w.active_chunk_duration_ms ≤ℤ w.maximum_chunk_duration_ms)
Reach-bounds_example = Reach-bounds options 1 filled-Reach

abbrev pub started : System ℕ
started = begun filled [] []

abbrev pub first_job : Job ℕ
first_job = (take_job filled.worker filled.stream [] []).2

pub filled_ready : is_ready filled.worker ≡ true
unfolding is_ready submit Codec.copy_audio_to_mono Codec.has_planes Worker.enqueue reset
    obs_rvc.Conversion.System.new_worker Worker.trim_input Frames.conversion_frame_count
    Worker.adopt_format Frames.frame_count_for_duration Queue.append Queue.grow Codec.mono_from
    Queue.write_back Queue.ensure_capacity Queue.clear
filled_ready = refl

pub filled_going : filled.worker.stopping ≡ false
unfolding submit Codec.copy_audio_to_mono Codec.has_planes Worker.enqueue reset
    obs_rvc.Conversion.System.new_worker Worker.trim_input Frames.conversion_frame_count
    Worker.adopt_format Frames.frame_count_for_duration Queue.append Queue.grow Codec.mono_from
    Queue.write_back Queue.ensure_capacity Queue.clear
filled_going = refl

started-Reach : Reach 8 (initial options 1) started
started-Reach = next filled-Reach (begin filled [] [] refl filled_ready filled_going)

Reach-request_example :
    (0 < first_job.hop_frames)
    × (length first_job.window_samples
        ≡ history_frames first_job.sample_rate
          + first_job.hop_frames
          + lookahead_frames first_job.sample_rate)
    × (length first_job.window_samples * bytes_per_sample ≤ max_input_bytes)
unfolding begun
Reach-request_example = Reach-request options 1 first_job started-Reach refl

Reach-tail_example :
    (started.stream.tail ≡ [])
    ⊎ (length started.stream.tail ≡ overlap_frames first_job.sample_rate * first_job.channels)
unfolding begun
Reach-tail_example = Reach-tail options 1 first_job started-Reach refl

Reach-starts_example : is_ready filled.worker ≡ true
unfolding submit Codec.copy_audio_to_mono Codec.has_planes Worker.enqueue reset
    obs_rvc.Conversion.System.new_worker Worker.trim_input Frames.conversion_frame_count
    Worker.adopt_format Frames.frame_count_for_duration Queue.append Queue.grow Codec.mono_from
    Queue.write_back Queue.ensure_capacity Queue.clear
Reach-starts_example =
    Reach-starts options 1 filled-Reach refl refl (omega arith) (omega arith) (omega arith)
      (omega arith) refl

-- The buffers of the thread, and the answer of the worker process: the 14 samples of the window.
abbrev blank_request : AudioRequest ℕ
blank_request = record {
  audio_size = 0;
  sample_rate = 0;
  stream_id = 0;
  stream_generation = 0;
  model = replicate 4 0;
  index_path = replicate 4 0;
  speaker = pos 0;
  f0_up_key = pos 0;
  f0_method = replicate 4 0;
  filter_radius = pos 0;
  resample_sr = pos 0;
  rms_mix_rate = 0;
  protect = 0;
  index_rate = 0;
  audio = replicate 40 0;
}

abbrev answer_of_14 : AudioResponse
answer_of_14 = record {
  status = 0;
  audio_size = 28;
  sample_rate = 100;
  error_size = 0;
  error = [];
  audio = replicate 28 0;
}

abbrev first_request : AudioRequest ℕ
first_request = record blank_request {
  audio_size = 28;
  sample_rate = 100;
  stream_id = 1;
  stream_generation = 2;
  model = 109 ∷ 0 ∷ 0 ∷ 0 ∷ [];
  f0_method = 114 ∷ 0 ∷ 0 ∷ 0 ∷ [];
  filter_radius = pos 3;
  resample_sr = pos 100;
  audio =
      0
      ∷ 0
      ∷ 0
      ∷ 0
      ∷ 0
      ∷ 0
      ∷ 0
      ∷ 0
      ∷ 255
      ∷ 127
      ∷ 255
      ∷ 127
      ∷ 255
      ∷ 127
      ∷ 255
      ∷ 127
      ∷ 255
      ∷ 127
      ∷ 255
      ∷ 127
      ∷ 255
      ∷ 127
      ∷ 255
      ∷ 127
      ∷ 255
      ∷ 127
      ∷ 255
      ∷ 127
      ∷ replicate 12 0;
}

first_request_filled :
    fill_request blank_request started.worker.stream_id first_job ≡ some first_request
unfolding begun fill_request obs_rvc.Utils.Strings.copy_string Codec.bytes_of Codec.pcm_bytes
    Codec.pcm_of Codec.quantize take_job submit Codec.copy_audio_to_mono Codec.has_planes
    Worker.enqueue reset obs_rvc.Conversion.System.new_worker Worker.trim_input
    Frames.conversion_frame_count Worker.adopt_format Frames.frame_count_for_duration Queue.append
    Queue.grow Codec.mono_from Queue.write_back Queue.ensure_capacity Queue.clear Codec.mix_frame
    memcpy obs_rvc.Prelude.resize Assembler.joined Assembler.leading Assembler.reset
    Assembler.window Queue.copy_front Queue.copy_out Queue.discard Queue.expanded Queue.write_at
    Worker.frames_to_discard
first_request_filled = refl

window_of_14 : length first_job.window_samples ≡ 14
unfolding take_job submit Codec.copy_audio_to_mono Codec.has_planes Worker.enqueue reset
    obs_rvc.Conversion.System.new_worker Worker.trim_input Frames.conversion_frame_count
    Worker.adopt_format Frames.frame_count_for_duration Queue.append Queue.grow Codec.mono_from
    Queue.write_back Queue.ensure_capacity Queue.clear Codec.mix_frame memcpy obs_rvc.Prelude.resize
    Assembler.joined Assembler.leading Assembler.reset Assembler.window Queue.copy_front
    Queue.copy_out Queue.discard Queue.expanded Queue.write_at
window_of_14 = refl

-- The seventh sample of the request.
request_samples_example :
    let x = get_or first_job.window_samples 6 nought in
    let finite = if whole_floats.is_finite x then x else nought in
    (first_request.audio_size ≡ length first_job.window_samples * 2)
    × (load_sample first_request.audio 6
        ≡ whole_floats.to_int16 (
            clamp_single
              (whole_floats.floor
                (whole_floats.single.mul finite (whole_floats.single.of_nat 32768)))
              whole_floats.lowest_sample
              whole_floats.highest_sample))
request_samples_example =
    request_samples blank_request started.worker.stream_id first_job {request = first_request} 6
      whole-CastFits first_request_filled (omega (arith, window_of_14)) (omega arith)
      (omega (arith, window_of_14))

abbrev pub handing_over : System ℕ
handing_over = answered started first_job IpcStatus.ok answer_of_14

pub handing_over-Reach : Reach 8 (initial options 1) handing_over
unfolding begun
handing_over-Reach = next started-Reach (
    answer started first_job blank_request first_request IpcStatus.ok answer_of_14 refl
      first_request_filled)

abbrev pub first_block : List ℕ
first_block = 0 ∷ 0 ∷ 0 ∷ 0 ∷ []

pub handing_over_stage : handing_over.stage ≡ delivering first_job first_block
unfolding answered begun take_job submit Codec.copy_audio_to_mono Codec.has_planes Worker.enqueue
    reset obs_rvc.Conversion.System.new_worker Worker.trim_input Frames.conversion_frame_count
    Worker.adopt_format Frames.frame_count_for_duration Queue.append Queue.grow Codec.mono_from
    Queue.write_back Queue.ensure_capacity Queue.clear Codec.mix_frame memcpy obs_rvc.Prelude.resize
    Assembler.joined Assembler.leading Assembler.reset Assembler.window Queue.copy_front
    Queue.copy_out Queue.discard Queue.expanded Queue.write_at Worker.frames_to_discard
    Codec.decode_from Codec.decode_to_input_format Codec.decoded_sample Codec.int16_of
    Codec.interpolate Codec.load_sample finish_conversion Assembler.correlate Assembler.fade_of
    Assembler.mix_channels Assembler.mix_frames Assembler.score Assembler.search_from
    Assembler.stitch Assembler.stitch_offset Assembler.mix
handing_over_stage = refl

handing_over_current : is_stale handing_over.worker first_job ≡ false
unfolding answered begun take_job submit Codec.copy_audio_to_mono Codec.has_planes Worker.enqueue
    reset obs_rvc.Conversion.System.new_worker Worker.trim_input Frames.conversion_frame_count
    Worker.adopt_format Frames.frame_count_for_duration Queue.append Queue.grow Codec.mono_from
    Queue.write_back Queue.ensure_capacity Queue.clear Codec.mix_frame memcpy obs_rvc.Prelude.resize
    Assembler.joined Assembler.leading Assembler.reset Assembler.window Queue.copy_front
    Queue.copy_out Queue.discard Queue.expanded Queue.write_at Worker.frames_to_discard
    Codec.decode_from Codec.decode_to_input_format Codec.decoded_sample Codec.int16_of
    Codec.interpolate Codec.load_sample finish_conversion Assembler.correlate Assembler.fade_of
    Assembler.mix_channels Assembler.mix_frames Assembler.score Assembler.search_from
    Assembler.stitch Assembler.stitch_offset Assembler.mix
handing_over_current = refl

Reach-delivers_example :
    output_of (delivered handing_over first_job first_block) ≡ output_of handing_over ++ first_block
Reach-delivers_example =
    Reach-delivers options 1 first_job first_block handing_over-Reach handing_over_stage
      handing_over_current
