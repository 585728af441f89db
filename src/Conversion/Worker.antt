-- ===== src/Conversion/Worker.antt =====
-- The state of `ConversionWorker` of plugin/src/rvc/filter/rvc-filter-conversion.cpp and what its
-- owner calls: `reset`, `submit`, `receive` and `stop`. Each function is one section under the
-- worker's lock.
use obs_rvc.Prelude.{
  ℕ, zero, suc, ◌+◌, ◌-◌, ◌*◌, ◌/◌, ◌%◌, ◌^◌, max, Bool, true, false, not, ◌||◌, Option, none, some,
  List, ltb, leb, ◌==◌, if◌then◌else◌, get_or, set,
}
use mathlib.Core.Option
use obs_rvc.Prelude.Int.{ℤ}
use obs_rvc.Float.{Floats, nought, one, min_single}
use obs_rvc.Stream.Queue
use obs_rvc.Stream.Queue.{AudioSampleQueue}
use obs_rvc.Conversion.Frames.{conversion_frame_count, lookahead_frames}
use obs_rvc.Conversion.Codec.{AudioData, copy_audio_to_mono}

-- A `std::string` is its bytes.
pub record ConversionOptions (F : Type 0) : Type 0 where
  pub model : List ℕ
  pub index_path : List ℕ
  pub f0_method : List ℕ
  pub speaker : ℤ
  pub f0_up_key : ℤ
  pub filter_radius : ℤ
  pub resample_sr : ℤ
  pub rms_mix_rate : F
  pub protect : F
  pub index_rate : F
  pub initial_chunk_duration_ms : ℤ
  pub maximum_chunk_duration_ms : ℤ

-- `ConversionWorker::Impl`, without the lock, the condition variable and the thread.
pub record Impl (F : Type 0) : Type 0 where
  pub options : ConversionOptions F
  pub input : AudioSampleQueue F
  pub output : AudioSampleQueue F
  pub sample_rate : ℕ
  pub channels : ℕ
  pub stream_id : ℕ
  pub generation : ℕ
  pub active_chunk_duration_ms : ℤ
  pub startup_chunk_duration_ms : ℤ
  pub maximum_chunk_duration_ms : ℤ
  pub configured : Bool
  pub has_completed_conversion : Bool
  pub stopping : Bool
  pub discontinuity : Bool
  pub playback_started : Bool
  pub playback_gain : F
  pub output_underflows : ℕ

-- `++` on a `uint64_t`.
abbrev pub next_word : ℕ → ℕ
next_word n = (n + 1) % 2 ^ 64

abbrev initial_output_blocks : ℕ
initial_output_blocks = 2

-- The frames of a conversion block, and the one that playback waits for.
abbrev pub block_frames : {F : Type 0} → Impl F → ℕ
block_frames w = conversion_frame_count w.sample_rate w.active_chunk_duration_ms

abbrev pub startup_frames : {F : Type 0} → Impl F → ℕ
startup_frames w = conversion_frame_count w.sample_rate w.startup_chunk_duration_ms

-- What a conversion takes from the input: a block and the lookahead behind it.
abbrev pub needed_frames : {F : Type 0} → Impl F → ℕ
needed_frames w = block_frames w + lookahead_frames w.sample_rate

-- The most that `submit` leaves in the input.
abbrev pub maximum_samples : {F : Type 0} → Impl F → ℕ
maximum_samples w = 2 * block_frames w + lookahead_frames w.sample_rate

-- How much `submit` discards of an input that is `excess` too long, in whole blocks.
unfoldable pub frames_to_discard : ℕ → ℕ → ℕ
frames_to_discard excess hop = if hop == 0 then excess else (excess + hop - 1) / hop * hop

module _ {F : Type 0} ⦃fl : Floats F⦄ where
  -- What `reset` and a change of format have in common.
  abbrev flushed : Impl F → Impl F
  flushed w = record w {
    input = Queue.clear w.input;
    output = Queue.clear w.output;
    playback_gain = nought;
    playback_started = false;
    output_underflows = 0;
    generation = next_word w.generation;
    discontinuity = true;
  }

  unfoldable pub reset : Impl F → ConversionOptions F → Impl F
  reset w options = if w.stopping then w else record (flushed w) {
    options = options;
    active_chunk_duration_ms = options.initial_chunk_duration_ms;
    startup_chunk_duration_ms = options.initial_chunk_duration_ms;
    maximum_chunk_duration_ms = options.maximum_chunk_duration_ms;
    configured = true;
    has_completed_conversion = false;
  }

  -- The change of format in `submit`.
  unfoldable pub adopt_format : Impl F → ℕ → ℕ → Impl F
  adopt_format w sample_rate channels =
      if not (w.sample_rate == sample_rate) || not (w.channels == channels)
      then record (flushed w) { sample_rate = sample_rate; channels = channels }
      else w

  -- The bound on the input in `submit`.
  unfoldable pub trim_input : Impl F → Impl F
  trim_input w =
      let excess = Queue.size w.input - maximum_samples w in
      if ltb (maximum_samples w) (Queue.size w.input)
      then record w {
        input = Queue.discard w.input (frames_to_discard excess (block_frames w));
        generation = next_word w.generation;
        discontinuity = true;
      }
      else w

  -- `submit` with the mono samples at hand.
  unfoldable pub enqueue : Impl F → List F → ℕ → ℕ → Impl F
  enqueue w samples sample_rate channels =
      let w' = adopt_format w sample_rate channels in
      if not w.configured || w.stopping
      then w
      else trim_input (record w' { input = Queue.append nought w'.input samples })

  -- The first argument is `MAX_AV_PLANES` of OBS.
  unfoldable pub submit : ℕ → Impl F → AudioData F → ℕ → ℕ → Impl F
  submit max_planes w audio sample_rate channels =
      if sample_rate == 0 then w else elim (copy_audio_to_mono max_planes audio channels) [
        | none ↦ w
        | some samples ↦ enqueue w samples sample_rate channels
      ]

  unfoldable pub stop : Impl F → Impl F
  stop w = record w { stopping = true }

-- What `receive` takes out of its first critical section.
pub record Playback (F : Type 0) : Type 0 where
  pub samples : List F
  pub gain : F
  pub gain_step : F
  pub generation : ℕ

module _ {F : Type 0} ⦃fl : Floats F⦄ where
  -- The output is long enough to begin playing, or playing has begun.
  abbrev pub may_play : Impl F → ℕ → Bool
  may_play w channels =
      w.playback_started
      || leb (startup_frames w * initial_output_blocks * channels) (Queue.size w.output)

  -- The playing part of the first critical section, behind its tests on the format and the start.
  unfoldable pub take_samples : Impl F → List F → ℕ → Option (Playback F) × Impl F
  take_samples w previous sample_count =
      if ltb (Queue.size w.output) sample_count
      then (
        none,
        record w { playback_gain = nought; output_underflows = next_word w.output_underflows },
      )
      else (
        some (record {
          samples = Queue.copy_front nought w.output previous sample_count;
          gain = w.playback_gain;
          gain_step = fl.single.div one (fl.single.of_nat (max 1 (w.sample_rate / 200)));
          generation = w.generation;
        }),
        record w { output = Queue.discard w.output sample_count },
      )

  -- The first critical section of `receive`; `none` is `false`. `previous` is what the thread's
  -- buffer held.
  unfoldable pub receive_take : Impl F → List F → ℕ → ℕ → Option (Playback F) × Impl F
  receive_take w previous frames channels =
      if channels == 0 || not (channels == w.channels)
      then (none, w)
      else if may_play w channels
      then take_samples (record w { playback_started = true }) previous (frames * channels)
      else (none, w)

  -- The loops of `receive` over the channels of a frame and over the frames.
  unfoldable pub play_channels :
      (ℕ → Option (List F)) → List F → ℕ → ℕ → F → ℕ → ℕ → ℕ → Option (List F)
  play_channels planes samples frame channels gain zero channel = planes
  play_channels planes samples frame channels gain (suc left) channel =
      let value = fl.single.mul (get_or samples (frame * channels + channel) nought) gain in
      play_channels
        (λ c.
          if c == channel then Option.map (λ plane. set plane frame value) (planes c) else planes c)
        samples frame channels gain left (suc channel)

  unfoldable pub play_frames :
      (ℕ → Option (List F)) → List F → ℕ → F → F → ℕ → ℕ → (ℕ → Option (List F)) × F
  play_frames planes samples channels step gain zero frame = (planes, gain)
  play_frames planes samples channels step gain (suc left) frame =
      let gain' = min_single one (fl.single.add gain step) in
      play_frames (play_channels planes samples frame channels gain' channels 0) samples channels
        step gain' left (suc frame)

  -- The second critical section of `receive`.
  unfoldable pub receive_finish : Impl F → ℕ → F → Impl F
  receive_finish w playback_generation gain =
      if w.generation == playback_generation then record w { playback_gain = gain } else w

  -- `receive` with nothing between its two critical sections: the planes, the worker, and whether
  -- there was audio.
  unfoldable pub receive : Impl F → List F → AudioData F → ℕ → (ℕ → Option (List F)) × Impl F × Bool
  receive w previous audio channels =
      let (playback, w') = receive_take w previous audio.frames channels in
      elim playback [
        | none ↦ (audio.data_of, w', false)
        | some p ↦
            let (planes, gain) =
              play_frames audio.data_of p.samples channels p.gain_step p.gain audio.frames 0 in
            (planes, receive_finish w' p.generation gain, true)
      ]
