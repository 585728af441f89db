-- ===== src/Tests/Filters.antt =====
-- The filter at concrete values.
use obs_rvc.Prelude.{
  ℕ, ◌+◌, ◌*◌, ◌≡◌, ◌⊎◌, refl, true, false, [], ◌∷◌, arith, none, some, get_or, ◌==◌, if◌then◌else◌,
}
use obs_rvc.Prelude.Int.{pos, negsuc, ◌≤ℤ◌, +ℤ_parts}
use obs_rvc.Float.{nought}
use obs_rvc.Ipc.Transport.{SettingsRequest, SettingsResponse, blank_response}
use obs_rvc.Ipc.Status.{IpcStatus, is_ok}
use obs_rvc.Utils.Files.{FileSystem}
use obs_rvc.Conversion.Codec.{AudioData, has_planes}
use obs_rvc.Conversion.Worker
use obs_rvc.Conversion.Worker.{Impl, ConversionOptions, Playback, play_frames}
use obs_rvc.Conversion.Playback.{plane_of, ramp}
use obs_rvc.Conversion.System.{new_worker, IsSane}
use obs_rvc.Filter.Threads.{
  Threads, cpu_thread_allocation_modified, update_threads, IsShared, allocation_lem,
  allocation_stable,
}
use obs_rvc.Filter.Validation.{
  ModelPaths, validate_models, model_extension, hubert_extension, rmvpe_filename,
}
use obs_rvc.Filter.Update.{Settings, FilterData, options_of, settings_request, update}
use obs_rvc.Filter.Outcome.{options_of-IsSane, update_lem}
use obs_rvc.Filter.Audio.{AudioInfo, filter_audio, taken, filter_audio_lem}
use obs_rvc.Tests.Sample.{whole_floats}
use obs_rvc.Tests.Contexts.{context}

abbrev too_many : Threads
too_many = record { inference_threads = pos 12; obs_reserved_threads = pos 3 }

allocation_lem_example :
    let (t', shown) = cpu_thread_allocation_modified (pos 8) false too_many in
    IsShared (pos 8) t'
    × (t'.inference_threads ≤ℤ shown.inference_limit)
    × (t'.obs_reserved_threads ≤ℤ shown.reserved_limit)
allocation_lem_example = allocation_lem (pos 8) false too_many (omega arith)

abbrev sound_threads : Threads
sound_threads = record { inference_threads = pos 5; obs_reserved_threads = pos 3 }

sound_threads-IsShared : IsShared (pos 8) sound_threads
sound_threads-IsShared = record {
  some_inference = omega arith;
  some_reserved = omega arith;
  together = omega (arith, +ℤ_parts (pos 5) (pos 3));
}

allocation_stable_example :
    ((cpu_thread_allocation_modified (pos 8) true sound_threads).0 ≡ sound_threads)
    × (update_threads (pos 8) sound_threads ≡ sound_threads)
allocation_stable_example = allocation_stable (pos 8) true sound_threads sound_threads-IsShared

-- Every path leads to a file, under the name that is asked for by its first byte.
abbrev pub files : FileSystem
files = record {
  is_regular = λ path. true;
  extension = λ path. if get_or path 0 0 == 0 then model_extension else hubert_extension;
  filename = λ path. rmvpe_filename;
}

abbrev pub paths : ModelPaths
paths = record {
  model = some (0 ∷ []);
  index = none;
  hubert = some (1 ∷ []);
  rmvpe = some (2 ∷ []);
}

abbrev pub settings : Settings ℕ
settings = record {
  paths = paths;
  f0_method = none;
  speaker = pos 0;
  f0_up_key = negsuc 5;
  filter_radius = pos 3;
  resample_sr = pos 0;
  rms_mix_rate = 1;
  protect = 0;
  index_rate = 1;
  chunk_duration_ms = pos 250;
  has_initial = true;
  initial_chunk_duration_ms = pos 2001;
  maximum_chunk_duration_ms = pos 100;
  threads = too_many;
}

options_of-IsSane_example :
    IsSane ℕ (options_of settings)
    × (pos 250 ≤ℤ (options_of settings).initial_chunk_duration_ms)
    × ((options_of settings).initial_chunk_duration_ms ≤ℤ pos 2000)
options_of-IsSane_example = options_of-IsSane settings

-- The worker process says yes at the second attempt.
abbrev second_time : SettingsRequest → ℕ → IpcStatus × SettingsResponse
second_time request attempt =
    (if attempt == 1 then IpcStatus.ok else IpcStatus.timeout, blank_response)

abbrev pub playing_worker : Impl ℕ
playing_worker = record (new_worker (options_of settings) 1) {
  configured = true;
  playback_started = true;
  sample_rate = 100;
  channels = 2;
  output = record { storage = 1 ∷ 2 ∷ 3 ∷ 4 ∷ 5 ∷ 6 ∷ []; head = 0; count = 6 };
}

abbrev pub playing_filter : FilterData ℕ
playing_filter = record {
  configured = true;
  gpu_accelerated = false;
  conversion_worker = some playing_worker;
}

update_lem_example :
    let threads = update_threads (pos 8) too_many in
    let (filter', s') = update files (pos 8) second_time playing_filter settings in
    ((filter'.configured ≡ false) × (filter'.conversion_worker ≡ some playing_worker))
    ⊎ ((filter'.configured ≡ true)
        × ((validate_models files paths).valid ≡ true)
        × ((request : SettingsRequest) × (settings_request paths threads ≡ some request)
            × ((is_ok (second_time request 0).0 ≡ true) ⊎ (is_ok (second_time request 1).0 ≡ true)))
        × (filter'.conversion_worker ≡ some (Worker.reset playing_worker (options_of settings)))
        × IsShared (pos 8) s'.threads
        × (s'.initial_chunk_duration_ms ≡ (options_of settings).initial_chunk_duration_ms)
        × (s'.maximum_chunk_duration_ms ≡ (options_of settings).maximum_chunk_duration_ms))
update_lem_example = update_lem files (pos 8) second_time playing_filter settings (omega arith)

-- Two frames of two channels.
abbrev audio : AudioData ℕ
audio = record { data_of = λ channel. some (7 ∷ 7 ∷ []); frames = 2 }

abbrev info : AudioInfo
info = record { samples_per_sec = 100; channel_count = 2 }

filter_audio_lem_example :
    let sample =
      get_or
        (plane_of ((filter_audio (some context) 8 (some info) playing_filter [] audio).0 1))
        1
        nought in
    let source = taken 8 playing_worker [] audio 100 2 in
    ((source ≡ none) × (sample ≡ nought))
    ⊎ ((p : Playback ℕ) × (source ≡ some p)
        × (sample
            ≡ whole_floats.single.mul
                (get_or p.samples (1 * 2 + 1) nought)
                (ramp p.gain_step p.gain 2)))
unfolding has_planes
filter_audio_lem_example =
    filter_audio_lem context 8 info playing_filter [] audio 1 1 refl refl (omega arith)
      (omega arith) refl (omega arith) (omega arith) (omega arith)
