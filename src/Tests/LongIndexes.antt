-- ===== src/Tests/LongIndexes.antt =====
-- A long index path, from the update to a conversion, at concrete values.
use obs_rvc.Prelude.{
  refl, replicate, get_or, ◌==◌, if◌then◌else◌, ℕ, ◌≡◌, true, false, some, none, List, [], ◌∷◌,
  arith, length, ◌+◌, ◌<◌, ◌^◌,
}
use obs_rvc.Prelude.Int.{pos}
use obs_rvc.Ipc.Transport.{
  AudioRequest, SettingsRequest, SettingsResponse, blank_response, max_path_bytes,
}
use obs_rvc.Ipc.Status.{IpcStatus}
use obs_rvc.Utils.Files.{FileSystem}
use obs_rvc.Stream.Queue
use obs_rvc.Conversion.Frames
use obs_rvc.Conversion.Codec
use obs_rvc.Conversion.Worker
use obs_rvc.Conversion.Worker.{Impl, reset, submit}
use obs_rvc.Conversion.Loop.{Job, take_job, fill_request, is_ready}
use obs_rvc.Conversion.System.{
  System, Reach, waiting, converting, begun, begin, submit_call, here, next,
}
use obs_rvc.Conversion.System.Flow.{handed}
use obs_rvc.Filter.Update.{Settings, settings_request, options_of, update}
use obs_rvc.Filter.Validation.{model_extension, index_extension, hubert_extension, rmvpe_filename}
use obs_rvc.Filter.LongIndex.{long_index-refused}
use obs_rvc.Tests.Sample.{whole_floats, ten_frames}
use obs_rvc.Tests.Filters.{settings, playing_filter, playing_worker}

abbrev answered : SettingsRequest → ℕ → IpcStatus × SettingsResponse
answered asked attempt = (IpcStatus.ok, blank_response)

-- An index path of 512 bytes, which the file system has.
abbrev long_index : List ℕ
long_index = replicate 512 5

abbrev long_files : FileSystem
long_files = record {
  is_regular = λ path. true;
  extension = λ path.
      if get_or path 0 0 == 0
      then model_extension
      else if get_or path 0 0 == 5
      then index_extension
      else hubert_extension;
  filename = λ path. rmvpe_filename;
}

abbrev long_settings : Settings ℕ
long_settings = record settings {
  initial_chunk_duration_ms = pos 250;
  maximum_chunk_duration_ms = pos 500;
  paths = record {
    model = some (0 ∷ []);
    index = some long_index;
    hubert = some (1 ∷ []);
    rmvpe = some (2 ∷ []);
  };
}

long_accepted :
    (update long_files (pos 8) answered playing_filter long_settings).0.configured ≡ true
unfolding update obs_rvc.Filter.Validation.validate_models obs_rvc.Utils.Files.is_regular_file
    obs_rvc.Utils.Files.same_bytes settings_request obs_rvc.Utils.Strings.copy_string
    obs_rvc.Filter.Update.ask obs_rvc.Filter.Update.try_configure obs_rvc.Filter.Update.accept
long_accepted = refl

long_updated :
    (update long_files (pos 8) answered playing_filter long_settings).0.conversion_worker
    ≡ some (reset playing_worker (options_of long_settings))
unfolding update obs_rvc.Filter.Validation.validate_models obs_rvc.Utils.Files.is_regular_file
    obs_rvc.Utils.Files.same_bytes settings_request obs_rvc.Utils.Strings.copy_string
    obs_rvc.Filter.Update.ask obs_rvc.Filter.Update.try_configure obs_rvc.Filter.Update.accept
    obs_rvc.Filter.Threads.update_threads obs_rvc.Filter.Threads.clamp obs_rvc.Prelude.Int.◌-ℤ◌
    options_of
long_updated = refl

abbrev updated : System ℕ
updated = record {
  worker = reset playing_worker (options_of long_settings);
  stream = record { history = []; tail = [] };
  stage = waiting;
}

-- Ten frames at 20 Hz are enough for a block of five frames and the lookahead.
abbrev filled : System ℕ
filled = record updated { worker = submit 8 updated.worker ten_frames 20 1 }

updated_early : updated.worker.generation + 2 < 2 ^ 64
unfolding reset obs_rvc.Conversion.System.new_worker
updated_early = omega arith

filled_ready : is_ready filled.worker ≡ true
unfolding is_ready begun take_job submit Codec.copy_audio_to_mono Codec.has_planes Worker.enqueue
    reset obs_rvc.Conversion.System.new_worker Worker.trim_input Frames.conversion_frame_count
    Worker.adopt_format Frames.frame_count_for_duration Queue.append Queue.grow Codec.mono_from
    Queue.write_back Queue.ensure_capacity Queue.clear options_of obs_rvc.Filter.Threads.clamp
filled_ready = refl

filled_going : filled.worker.stopping ≡ false
unfolding is_ready begun take_job submit Codec.copy_audio_to_mono Codec.has_planes Worker.enqueue
    reset obs_rvc.Conversion.System.new_worker Worker.trim_input Frames.conversion_frame_count
    Worker.adopt_format Frames.frame_count_for_duration Queue.append Queue.grow Codec.mono_from
    Queue.write_back Queue.ensure_capacity Queue.clear options_of obs_rvc.Filter.Threads.clamp
filled_going = refl

abbrev way : Reach 8 updated (begun filled [] [])
way =
    next
      (next here (
        submit_call updated ten_frames 20 1 (omega arith) (omega arith) (omega arith)
          updated_early))
      (begin filled [] [] refl filled_ready filled_going)

long_index-refused_example :
    (handed way ≡ [])
    × ((job : Job ℕ) (last : AudioRequest ℕ) (stream_id : ℕ)
        → (begun filled [] []).stage ≡ converting job
        → length last.index_path ≡ max_path_bytes
        → fill_request last stream_id job ≡ none)
unfolding obs_rvc.Conversion.System.new_worker
long_index-refused_example =
    long_index-refused long_files (pos 8) answered playing_filter long_settings way (omega arith)
      refl refl (omega arith) long_accepted long_updated refl ((tt, tt), tt)
