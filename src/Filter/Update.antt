-- ===== src/Filter/Update.antt =====
-- `rvc_filter_update` of plugin/src/rvc/filter/rvc-filter.cpp.
use mathlib.Core.Option
use obs_rvc.Prelude.{
  ℕ, zero, suc, ◌-◌, ◌%◌, ◌^◌, Bool, true, false, not, ◌==◌, Option, none, some, List, [], ◌∷◌,
  if◌then◌else◌, replicate,
}
use obs_rvc.Prelude.Int.{ℤ, pos, negsuc, pos_part, ltb_ℤ}
use obs_rvc.Float.{Floats}
use obs_rvc.Ipc.Transport.{
  SettingsRequest, SettingsResponse, blank_response, max_model_bytes, max_path_bytes,
}
use obs_rvc.Ipc.Status.{IpcStatus, is_ok}
use obs_rvc.Utils.Strings.{copy_string, c_string}
use obs_rvc.Utils.Files.{FileSystem}
use obs_rvc.Conversion.Worker
use obs_rvc.Conversion.Worker.{Impl, ConversionOptions}
use obs_rvc.Conversion.Loop.{int32_of}
use obs_rvc.Filter.Threads.{Threads, clamp, update_threads}
use obs_rvc.Filter.Validation.{ModelPaths, validate_models}

-- What the filter reads of its settings, under their keys. `has_initial` says whether the user has
-- set the length of the first block.
pub record Settings (F : Type 0) ⦃fl : Floats F⦄ : Type 0 where
  pub paths : ModelPaths
  pub f0_method : Option (List ℕ)
  pub speaker : ℤ
  pub f0_up_key : ℤ
  pub filter_radius : ℤ
  pub resample_sr : ℤ
  pub rms_mix_rate : fl.Double
  pub protect : fl.Double
  pub index_rate : fl.Double
  pub chunk_duration_ms : ℤ
  pub has_initial : Bool
  pub initial_chunk_duration_ms : ℤ
  pub maximum_chunk_duration_ms : ℤ
  pub threads : Threads

-- `RvcFilterData` without its locks.
pub record FilterData (F : Type 0) : Type 0 where
  pub configured : Bool
  pub gpu_accelerated : Bool
  pub conversion_worker : Option (Impl F)

-- `static_cast<int32_t>` of an `int64_t`.
abbrev to_int32 : ℤ → ℤ
to_int32 (pos n) = int32_of (n % 2 ^ 32)
to_int32 (negsuc n) = int32_of (2 ^ 32 - 1 - n % 2 ^ 32)

abbrev pub initial_duration : ℤ → ℤ
initial_duration saved =
    if ltb_ℤ (pos 2000) saved then pos 250 else clamp saved (pos 250) (pos 2000)

-- "rmvpe"
abbrev pub default_f0_method : List ℕ
default_f0_method = 114 ∷ 109 ∷ 118 ∷ 112 ∷ 101 ∷ []

abbrev pub f0_method_of : Option (List ℕ) → List ℕ
f0_method_of none = default_f0_method
f0_method_of (some name) = name

abbrev pub configure_attempts : ℕ
configure_attempts = 2

-- The loop of attempts; `answer_of` is what each call of the worker process returns, and `last` what
-- the variables held before.
unfoldable pub try_configure :
    (ℕ → IpcStatus × SettingsResponse)
    → ℕ
    → ℕ
    → IpcStatus × SettingsResponse
    → IpcStatus × SettingsResponse
try_configure answer_of zero attempt last = last
try_configure answer_of (suc left) attempt last =
    let rest = try_configure answer_of left (suc attempt) (answer_of attempt) in
    if is_ok (answer_of attempt).0 then answer_of attempt else rest

-- The request, with the strings copied into blank buffers; `none` is a path over the limits.
unfoldable pub settings_request : ModelPaths → Threads → Option SettingsRequest
settings_request paths threads = elim (copy_string (replicate max_model_bytes 0) paths.model) [
  | none ↦ none
  | some model ↦ elim (copy_string (replicate max_path_bytes 0) paths.hubert) [
    | none ↦ none
    | some hubert_path ↦ elim (copy_string (replicate max_path_bytes 0) paths.rmvpe) [
      | none ↦ none
      | some rmvpe_path ↦ some (record {
        model = model;
        hubert_path = hubert_path;
        rmvpe_path = rmvpe_path;
        inference_threads = pos_part threads.inference_threads;
        obs_reserved_threads = pos_part threads.obs_reserved_threads;
      })
    ]
  ]
]

module _ {F : Type 0} ⦃fl : Floats F⦄ where
  unfoldable pub options_of : Settings F → ConversionOptions F
  options_of s =
      let initial =
        initial_duration
          (if s.has_initial then s.initial_chunk_duration_ms else s.chunk_duration_ms) in
      record {
        model = c_string s.paths.model;
        index_path = c_string s.paths.index;
        f0_method = f0_method_of s.f0_method;
        speaker = to_int32 s.speaker;
        f0_up_key = to_int32 s.f0_up_key;
        filter_radius = to_int32 s.filter_radius;
        resample_sr = to_int32 s.resample_sr;
        rms_mix_rate = fl.narrow s.rms_mix_rate;
        protect = fl.narrow s.protect;
        index_rate = fl.narrow s.index_rate;
        initial_chunk_duration_ms = initial;
        maximum_chunk_duration_ms = clamp s.maximum_chunk_duration_ms initial (pos (2 ^ 31 - 1));
      }

  -- The end of an update that the worker process accepted.
  unfoldable pub accept : FilterData F → Settings F → SettingsResponse → FilterData F × Settings F
  accept filter s response =
      let options = options_of s in
      (
        record {
          configured = true;
          gpu_accelerated = not (response.gpu_accelerated == 0);
          conversion_worker = Option.map (λ w. Worker.reset w options) filter.conversion_worker;
        },
        record s {
          has_initial = true;
          initial_chunk_duration_ms = options.initial_chunk_duration_ms;
          maximum_chunk_duration_ms = options.maximum_chunk_duration_ms;
        },
      )

  -- The part that asks the worker process, up to the end.
  unfoldable pub ask :
      (ℕ → IpcStatus × SettingsResponse) → FilterData F → Settings F → FilterData F × Settings F
  ask answers filter s =
      let out =
        try_configure answers configure_attempts 0 (IpcStatus.transport_error, blank_response) in
      if is_ok out.0 then accept filter s out.1 else (record filter { configured = false }, s)

  -- `total` is the number of threads, and `answer_of` what the worker process answers to a request
  -- at each attempt. The filter and its settings afterwards; a filter whose module is shut down is
  -- not updated.
  unfoldable pub update :
      FileSystem
      → ℤ
      → (SettingsRequest → ℕ → IpcStatus × SettingsResponse)
      → FilterData F
      → Settings F
      → FilterData F × Settings F
  update files total answer_of filter s =
      let refused = record filter { configured = false } in
      let threads = update_threads total s.threads in
      if not (validate_models files s.paths).valid
      then (refused, s)
      else elim (settings_request s.paths threads) [
        | none ↦ (refused, s)
        | some request ↦ ask (answer_of request) filter (record s { threads = threads })
      ]
