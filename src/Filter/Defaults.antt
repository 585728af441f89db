-- ===== src/Filter/Defaults.antt =====
-- `rvc_filter_defaults` of plugin/src/rvc/filter/rvc-filter.cpp, with `set_default_module_file` of
-- plugin/src/utils/file-utils.hpp. OBS gives a setting its default where the user has set none.
use obs_rvc.Prelude.{ℕ, Bool, true, false, Option, none, some, List, [], ◌∷◌}
use obs_rvc.Prelude.Int.{ℤ, pos}
use obs_rvc.Float.{Floats}
use obs_rvc.Filter.Threads.{Threads, default_reserved_threads, default_inference_threads}
use obs_rvc.Filter.Update.{Settings, default_f0_method}

-- What the user has set, under the keys of the settings.
pub record UserValues (F : Type 0) ⦃fl : Floats F⦄ : Type 0 where
  pub model : Option (List ℕ)
  pub index : Option (List ℕ)
  pub hubert : Option (List ℕ)
  pub rmvpe : Option (List ℕ)
  pub f0_method : Option (List ℕ)
  pub speaker : Option ℤ
  pub f0_up_key : Option ℤ
  pub filter_radius : Option ℤ
  pub resample_sr : Option ℤ
  pub rms_mix_rate : Option fl.Double
  pub protect : Option fl.Double
  pub index_rate : Option fl.Double
  pub chunk_duration_ms : Option ℤ
  pub initial_chunk_duration_ms : Option ℤ
  pub maximum_chunk_duration_ms : Option ℤ
  pub obs_reserved_threads : Option ℤ
  pub inference_threads : Option ℤ

abbrev is_set {ℓ} : {A : Type ℓ} → Option A → Bool
is_set none = false
is_set (some a) = true

abbrev or_default {ℓ} : {A : Type ℓ} → Option A → A → A
or_default none fallback = fallback
or_default (some a) fallback = a

-- "models/rvc/weights/miku_default_rvc.pth", "models/hubert/hubert_base.pt" and
-- "models/rmvpe/rmvpe.pt"
abbrev pub model_file : List ℕ
model_file =
    109 ∷ 111 ∷ 100 ∷ 101 ∷ 108 ∷ 115 ∷ 47 ∷ 114 ∷ 118 ∷ 99 ∷ 47 ∷ 119 ∷ 101 ∷ 105 ∷ 103 ∷ 104 ∷ 116
    ∷ 115 ∷ 47 ∷ 109 ∷ 105 ∷ 107 ∷ 117 ∷ 95 ∷ 100 ∷ 101 ∷ 102 ∷ 97 ∷ 117 ∷ 108 ∷ 116 ∷ 95 ∷ 114
    ∷ 118 ∷ 99 ∷ 46 ∷ 112 ∷ 116 ∷ 104 ∷ []

abbrev hubert_file : List ℕ
hubert_file =
    109 ∷ 111 ∷ 100 ∷ 101 ∷ 108 ∷ 115 ∷ 47 ∷ 104 ∷ 117 ∷ 98 ∷ 101 ∷ 114 ∷ 116 ∷ 47 ∷ 104 ∷ 117 ∷ 98
    ∷ 101 ∷ 114 ∷ 116 ∷ 95 ∷ 98 ∷ 97 ∷ 115 ∷ 101 ∷ 46 ∷ 112 ∷ 116 ∷ []

abbrev rmvpe_file : List ℕ
rmvpe_file =
    109 ∷ 111 ∷ 100 ∷ 101 ∷ 108 ∷ 115 ∷ 47 ∷ 114 ∷ 109 ∷ 118 ∷ 112 ∷ 101 ∷ 47 ∷ 114 ∷ 109 ∷ 118
    ∷ 112 ∷ 101 ∷ 46 ∷ 112 ∷ 116 ∷ []

-- `set_default_module_file` and the reading of the setting, which is empty without a default.
abbrev file_setting : (List ℕ → Option (List ℕ)) → Option (List ℕ) → List ℕ → Option (List ℕ)
file_setting module_file set relative_path =
    some (or_default set (or_default (module_file relative_path) []))

-- The literal 0.33 is 33 / 100, rounded once, and so are the others.
abbrev hundredths : {F : Type 0} (fl : Floats F) → ℕ → fl.Double
hundredths fl n = fl.double.div (fl.double.of_nat n) (fl.double.of_nat 100)

module _ {F : Type 0} ⦃fl : Floats F⦄ where
  abbrev default_threads : ℕ → UserValues F → Threads
  default_threads total user =
      let reserved = or_default user.obs_reserved_threads (pos (default_reserved_threads total)) in
      record {
        inference_threads =
            or_default user.inference_threads (default_inference_threads total reserved);
        obs_reserved_threads = reserved;
      }

  -- The settings as they read once they have their defaults; `module_file` finds a file of the module.
  unfoldable pub rvc_filter_defaults : (List ℕ → Option (List ℕ)) → ℕ → UserValues F → Settings F
  rvc_filter_defaults module_file total user = record {
    paths = record {
      model = file_setting module_file user.model model_file;
      index = some (or_default user.index []);
      hubert = file_setting module_file user.hubert hubert_file;
      rmvpe = file_setting module_file user.rmvpe rmvpe_file;
    };
    f0_method = some (or_default user.f0_method default_f0_method);
    speaker = or_default user.speaker (pos 0);
    f0_up_key = or_default user.f0_up_key (pos 6);
    filter_radius = or_default user.filter_radius (pos 3);
    resample_sr = or_default user.resample_sr (pos 0);
    rms_mix_rate = or_default user.rms_mix_rate (hundredths fl 100);
    protect = or_default user.protect (hundredths fl 33);
    index_rate = or_default user.index_rate (hundredths fl 75);
    chunk_duration_ms = or_default user.chunk_duration_ms (pos 250);
    has_initial = is_set user.initial_chunk_duration_ms;
    initial_chunk_duration_ms = or_default user.initial_chunk_duration_ms (pos 250);
    maximum_chunk_duration_ms = or_default user.maximum_chunk_duration_ms (pos 1_500);
    threads = default_threads total user;
  }

-- A user who has set nothing.
abbrev pub nothing_set : {F : Type 0} ⦃fl : Floats F⦄ → UserValues F
nothing_set = record {
  model = none;
  index = none;
  hubert = none;
  rmvpe = none;
  f0_method = none;
  speaker = none;
  f0_up_key = none;
  filter_radius = none;
  resample_sr = none;
  rms_mix_rate = none;
  protect = none;
  index_rate = none;
  chunk_duration_ms = none;
  initial_chunk_duration_ms = none;
  maximum_chunk_duration_ms = none;
  obs_reserved_threads = none;
  inference_threads = none;
}
