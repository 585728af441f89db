-- ===== src/Filter/Page.antt =====
-- The settings page: `rvc_filter_properties` of plugin/src/rvc/filter/rvc-filter.cpp, with the labels
-- left out.
pub mod Limits
pub mod Kept
use mathlib.Core.List.{Mem}
use obs_rvc.Prelude.{
  ℕ, ◌^◌, ◌-◌, Bool, true, false, ◌&&◌, not, Option, none, some, List, [], ◌∷◌, ◌++◌, if◌then◌else◌,
}
use obs_rvc.Prelude.Int.{ℤ, pos, negsuc, ◌-ℤ◌, ◌≤ℤ◌}
use obs_rvc.Float.{Floats}
use obs_rvc.Utils.Renderer.{software_rendering_warning}
use obs_rvc.Filter.Threads.{Threads}
use obs_rvc.Filter.Update.{Settings, FilterData, default_f0_method, f0_method_of}

-- The fields for whole numbers, for other numbers and for paths, by their keys.
pub data IntKey : Type 0 where
  speaker f0_up_key filter_radius resample_sr initial_chunk_duration_ms : IntKey
  maximum_chunk_duration_ms inference_threads obs_reserved_threads : IntKey

pub data FloatKey : Type 0 where
  rms_mix_rate protect index_rate : FloatKey

pub data PathKey : Type 0 where
  model index hubert rmvpe : PathKey

-- A number field has its limits and its step, the floating ones in hundredths.
pub data Item : Type 0 where
  rendering_warning : List ℕ → Item
  gpu_warning model_status : Item
  path_field : PathKey → Item
  method_list : List (List ℕ) → Item
  int_field : IntKey → ℤ → ℤ → ℕ → Item
  float_field : FloatKey → ℕ → ℕ → ℕ → Item

-- "harvest", "crepe" and "pm"
abbrev pub harvest : List ℕ
harvest = 104 ∷ 97 ∷ 114 ∷ 118 ∷ 101 ∷ 115 ∷ 116 ∷ []

abbrev pub crepe : List ℕ
crepe = 99 ∷ 114 ∷ 101 ∷ 112 ∷ 101 ∷ []

abbrev pub pm : List ℕ
pm = 112 ∷ 109 ∷ []

abbrev pub rendering_items : Option (List ℕ) → List Item
rendering_items none = []
rendering_items (some renderer) = rendering_warning renderer ∷ []

-- The fields that every page has.
abbrev pub fixed_items : ℤ → List Item
fixed_items total =
    path_field PathKey.model
    ∷ path_field PathKey.index
    ∷ path_field PathKey.hubert
    ∷ path_field PathKey.rmvpe
    ∷ model_status
    ∷ method_list (default_f0_method ∷ harvest ∷ crepe ∷ pm ∷ [])
    ∷ int_field IntKey.speaker (pos 0) (pos 32) 1
    ∷ int_field IntKey.f0_up_key (negsuc 11) (pos 12) 1
    ∷ int_field IntKey.filter_radius (pos 0) (pos 7) 1
    ∷ int_field IntKey.resample_sr (pos 0) (pos 192_000) 1_000
    ∷ float_field FloatKey.rms_mix_rate 0 100 1
    ∷ float_field FloatKey.protect 0 50 1
    ∷ float_field FloatKey.index_rate 0 100 1
    ∷ int_field IntKey.initial_chunk_duration_ms (pos 250) (pos 2_000) 10
    ∷ int_field IntKey.maximum_chunk_duration_ms (pos 250) (pos (2 ^ 31 - 1)) 10
    ∷ int_field IntKey.inference_threads (pos 1) total 1
    ∷ int_field IntKey.obs_reserved_threads (pos 0) (total -ℤ pos 1) 1
    ∷ []

module _ {F : Type 0} ⦃fl : Floats F⦄ where
  abbrev pub shows_gpu_warning : Option (FilterData F) → Bool
  shows_gpu_warning none = false
  shows_gpu_warning (some filter) = filter.configured && not filter.gpu_accelerated

  -- `device_name` is that of the graphics library, and `filter` is `none` where the page is shown for
  -- no filter.
  unfoldable pub rvc_filter_properties :
      (ℕ → ℕ) → Option (List ℕ) → Option (FilterData F) → ℤ → List Item
  rvc_filter_properties to_lower device_name filter total =
      rendering_items (software_rendering_warning to_lower device_name)
      ++ ((if shows_gpu_warning filter then gpu_warning ∷ [] else []) ++ fixed_items total)

  abbrev value_of : IntKey → Settings F → ℤ
  value_of IntKey.speaker s = s.speaker
  value_of IntKey.f0_up_key s = s.f0_up_key
  value_of IntKey.filter_radius s = s.filter_radius
  value_of IntKey.resample_sr s = s.resample_sr
  value_of IntKey.initial_chunk_duration_ms s = s.initial_chunk_duration_ms
  value_of IntKey.maximum_chunk_duration_ms s = s.maximum_chunk_duration_ms
  value_of IntKey.inference_threads s = s.threads.inference_threads
  value_of IntKey.obs_reserved_threads s = s.threads.obs_reserved_threads

  -- What the page can show of the settings: the whole numbers in their limits, and a listed method.
  abbrev FitsItem : Item → Settings F → Type 0
  FitsItem (rendering_warning renderer) s = Unit
  FitsItem gpu_warning s = Unit
  FitsItem model_status s = Unit
  FitsItem (path_field key) s = Unit
  FitsItem (method_list names) s = Mem (f0_method_of s.f0_method) names
  FitsItem (int_field key low high step) s = (low ≤ℤ value_of key s) × (value_of key s ≤ℤ high)
  FitsItem (float_field key low high step) s = Unit

  abbrev pub FitsPage : List Item → Settings F → Type 0
  FitsPage [] s = Unit
  FitsPage (item ∷ items) s = FitsItem item s × FitsPage items s
