-- ===== src/Ipc/Transport.antt =====
-- The payload structures of plugin/src/rvc/ipc/audio/rvc-audio-transport.h and
-- plugin/src/rvc/ipc/settings/rvc-settings-transport.h, with their limits. A `char` or `uint8_t`
-- array is the list of its bytes.
use obs_rvc.Prelude.{ℕ, ◌*◌, List, replicate}
use obs_rvc.Prelude.Int.{ℤ}

abbrev pub max_model_bytes : ℕ
max_model_bytes = 128

abbrev pub max_path_bytes : ℕ
max_path_bytes = 512

abbrev max_error_bytes : ℕ
max_error_bytes = 1024

abbrev max_f0_method_bytes : ℕ
max_f0_method_bytes = 8

abbrev pub max_input_bytes : ℕ
max_input_bytes = 768 * 1024

abbrev pub max_output_bytes : ℕ
max_output_bytes = 768 * 1024

-- `RVC_AUDIO_RESPONSE_OK` and `RVC_SETTINGS_RESPONSE_OK`
abbrev pub response_ok : ℕ
response_ok = 0

pub record AudioRequest (F : Type 0) : Type 0 where
  pub audio_size : ℕ
  pub sample_rate : ℕ
  pub stream_id : ℕ
  pub stream_generation : ℕ
  pub model : List ℕ
  pub index_path : List ℕ
  pub speaker : ℤ
  pub f0_up_key : ℤ
  pub f0_method : List ℕ
  pub filter_radius : ℤ
  pub resample_sr : ℤ
  pub rms_mix_rate : F
  pub protect : F
  pub index_rate : F
  pub audio : List ℕ

pub record AudioResponse : Type 0 where
  pub status : ℕ
  pub audio_size : ℕ
  pub sample_rate : ℕ
  pub error_size : ℕ
  pub error : List ℕ
  pub audio : List ℕ

pub record SettingsRequest : Type 0 where
  pub model : List ℕ
  pub hubert_path : List ℕ
  pub rmvpe_path : List ℕ
  pub inference_threads : ℕ
  pub obs_reserved_threads : ℕ

pub record SettingsResponse : Type 0 where
  pub status : ℕ
  pub gpu_accelerated : ℕ
  pub error_size : ℕ
  pub error : List ℕ

-- `{}` of the structure.
abbrev pub blank_response : SettingsResponse
blank_response = record {
  status = 0;
  gpu_accelerated = 0;
  error_size = 0;
  error = replicate max_error_bytes 0;
}
