-- ===== src/Tests/Codecs.antt =====
-- The frame counts and the codec at concrete values.
use obs_rvc.Prelude.{
  ℕ, ◌+◌, ◌*◌, ◌≤◌, ◌<◌, ◌≡◌, ◌⊎◌, refl, true, List, [], ◌∷◌, arith, drop, length, get_or,
  replicate,
}
use obs_rvc.Prelude.Int.{pos}
use obs_rvc.Float.{nought}
use obs_rvc.Ipc.Transport.{AudioResponse}
use obs_rvc.Stream.Queue
use obs_rvc.Stream.Queue.{AudioSampleQueue}
use obs_rvc.Stream.Queue.Window.{contents}
use obs_rvc.Conversion.Frames.{frame_count_for_duration, conversion_frame_count}
use obs_rvc.Conversion.Codec.{
  load_sample, int16_of, decode_from, decoded_sample, decode_to_input_format, interpolate,
}
use obs_rvc.Conversion.Codec.Decode.{available, position_of, between, decode_lem}
use obs_rvc.Conversion.Worker.{
  Impl, block_frames, needed_frames, maximum_samples, trim_input, next_word,
}
use obs_rvc.Conversion.Input.{trim_input_lem}
use obs_rvc.Conversion.System.{new_worker}
use obs_rvc.Tests.Sample.{whole_floats}

-- Three samples at 100 Hz.
abbrev short_response : AudioResponse
short_response = record {
  status = 0;
  audio_size = 6;
  sample_rate = 100;
  error_size = 0;
  error = [];
  audio = 1 ∷ 0 ∷ 2 ∷ 0 ∷ 3 ∷ 0 ∷ [];
}

-- The four frames of two channels that it yields at 200 Hz.
abbrev decoded : List ℕ
decoded = 1 ∷ 1 ∷ 1 ∷ 1 ∷ 2 ∷ 2 ∷ 2 ∷ 2 ∷ []

decode_lem_example :
    (length decoded ≡ available short_response 200 4 * 2)
    × (get_or decoded (2 * 2 + 1) nought
        ≡ between short_response (position_of ℕ short_response 200 2) 1)
unfolding decode_to_input_format decode_from interpolate decoded_sample load_sample int16_of
decode_lem_example =
    decode_lem short_response 200 2 4 2 1 {samples = decoded} refl (omega arith) (omega arith)

-- A worker at 1000 Hz with blocks of 10 frames and a hundred samples waiting.
abbrev crowded : Impl ℕ
crowded =
    record (new_worker
      (record {
        model = [];
        index_path = [];
        f0_method = [];
        speaker = pos 0;
        f0_up_key = pos 0;
        filter_radius = pos 3;
        resample_sr = pos 0;
        rms_mix_rate = 0;
        protect = 0;
        index_rate = 0;
        initial_chunk_duration_ms = pos 10;
        maximum_chunk_duration_ms = pos 20;
      })
      1) {
        sample_rate = 1000;
        channels = 1;
        active_chunk_duration_ms = pos 10;
        input = record { storage = replicate 100 2; head = 0; count = 100 };
      }

trim_input_lem_example :
    let w' = trim_input crowded in
    (Queue.size w'.input ≤ maximum_samples crowded)
    × (((100 ≤ maximum_samples crowded) × (w' ≡ crowded))
        ⊎ ((maximum_samples crowded < 100)
            × (needed_frames crowded ≤ Queue.size w'.input)
            × ((k : ℕ) × ((0 < k)
                  × (contents w'.input ≡ drop (k * block_frames crowded) (contents crowded.input))))
            × (w'.generation ≡ next_word crowded.generation)
            × (w'.discontinuity ≡ true)))
unfolding conversion_frame_count frame_count_for_duration
trim_input_lem_example = trim_input_lem crowded (omega arith) (omega arith)
