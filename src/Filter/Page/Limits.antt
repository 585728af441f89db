-- ===== src/Filter/Page/Limits.antt =====
-- The settings that fit the page, and the defaults among them.
use mathlib.Core.List.{Mem, mem-cons_self}
use mathlib.Core.Path.{subst}
use obs_rvc.Prelude.{
  ℕ, ◌+◌, ◌^◌, ◌-◌, ◌≤◌, Bool, true, false, Option, none, some, List, [], ◌∷◌, ◌++◌, if◌then◌else◌,
  arith,
}
use obs_rvc.Prelude.Int.{ℤ, pos, negsuc, ◌-ℤ◌, ◌≤ℤ◌, -ℤ_parts, +ℤ_parts}
use obs_rvc.Float.{Floats}
use obs_rvc.Utils.Renderer.{software_rendering_warning}
use obs_rvc.Filter.Threads.{
  Threads, IsShared, clamp_within, default_reserved_threads, default_inference_threads,
  defaults-IsShared,
}
use obs_rvc.Filter.Update.{Settings, FilterData, default_f0_method, f0_method_of}
use obs_rvc.Filter.Page.{
  Item, harvest, crepe, pm, gpu_warning, rendering_items, fixed_items, shows_gpu_warning,
  rvc_filter_properties, FitsPage,
}
use obs_rvc.Filter.Defaults.{nothing_set, rvc_filter_defaults}

pub IsShared-limits :
    (total : ℤ) (t : Threads)
    → IsShared total t
    → (t.inference_threads ≤ℤ total) × (t.obs_reserved_threads ≤ℤ (total -ℤ pos 1))
IsShared-limits total t v =
    let a = v.some_inference in
    let b = v.some_reserved in
    let c = v.together in
    let sum = +ℤ_parts t.inference_threads t.obs_reserved_threads in
    let rest = -ℤ_parts total (pos 1) in
    (omega (arith, a, b, c, sum), omega (arith, a, b, c, sum, rest))

-- The threads that OBS keeps by default are fewer than there are.
default_reserved-limit :
    (total : ℕ) → 1 ≤ total → pos (default_reserved_threads total) ≤ℤ (pos total -ℤ pos 1)
unfolding default_reserved_threads
default_reserved-limit total some_thread =
    let parts = -ℤ_parts (pos total) (pos 1) in
    let few : default_reserved_threads total + 1 ≤ total = ground arith in omega (arith, parts, few)

default_threads-IsShared :
    (total : ℕ)
    → 1 ≤ total
    → IsShared (pos total) (record {
      inference_threads = default_inference_threads total (pos (default_reserved_threads total));
      obs_reserved_threads = pos (default_reserved_threads total);
    })
default_threads-IsShared total some_thread =
    let reserved = pos (default_reserved_threads total) in
    subst
      (λ r. IsShared (pos total) (record {
        inference_threads = default_inference_threads total reserved;
        obs_reserved_threads = r;
      }))
      (clamp_within reserved (pos 0) (pos total -ℤ pos 1) (omega arith)
        (default_reserved-limit total some_thread))
      (defaults-IsShared total reserved some_thread)

module _ {F : Type 0} ⦃fl : Floats F⦄ where
  warned :
      (renderer : Option (List ℕ)) (on_cpu : Bool) (items : List Item) (s : Settings F)
      → FitsPage items s
      → FitsPage
          (rendering_items renderer ++ ((if on_cpu then gpu_warning ∷ [] else []) ++ items))
          s
  warned none false items s fits = fits
  warned none true items s fits = (tt, fits)
  warned (some name) false items s fits = (tt, fits)
  warned (some name) true items s fits = (tt, (tt, fits))

  -- The warnings ask nothing of the settings.
  pub fixed-FitsPage :
      (to_lower : ℕ → ℕ) (device_name : Option (List ℕ)) (filter : Option (FilterData F))
      (total : ℤ) (s : Settings F)
      → FitsPage (fixed_items total) s
      → FitsPage (rvc_filter_properties to_lower device_name filter total) s
  unfolding rvc_filter_properties
  fixed-FitsPage to_lower device_name filter total s fits =
      warned (software_rendering_warning to_lower device_name) (shows_gpu_warning filter)
        (fixed_items total) s fits

  pub fixed_of :
      (renderer : Option (List ℕ)) (on_cpu : Bool) (items : List Item) (s : Settings F)
      → FitsPage
          (rendering_items renderer ++ ((if on_cpu then gpu_warning ∷ [] else []) ++ items))
          s
      → FitsPage items s
  fixed_of none false items s fits = fits
  fixed_of none true items s fits = fits.1
  fixed_of (some name) false items s fits = fits.1
  fixed_of (some name) true items s fits = fits.1.1

  -- The fields of every page that ask for something.
  pub record FitsFields (total : ℤ) (s : Settings F) : Type 0 where
    pub method_listed :
        Mem (f0_method_of s.f0_method) (default_f0_method ∷ harvest ∷ crepe ∷ pm ∷ [])
    pub speaker_fits : (pos 0 ≤ℤ s.speaker) × (s.speaker ≤ℤ pos 32)
    pub f0_fits : (negsuc 11 ≤ℤ s.f0_up_key) × (s.f0_up_key ≤ℤ pos 12)
    pub radius_fits : (pos 0 ≤ℤ s.filter_radius) × (s.filter_radius ≤ℤ pos 7)
    pub resample_fits : (pos 0 ≤ℤ s.resample_sr) × (s.resample_sr ≤ℤ pos 192_000)
    pub initial_fits :
        (pos 250 ≤ℤ s.initial_chunk_duration_ms) × (s.initial_chunk_duration_ms ≤ℤ pos 2_000)
    pub maximum_fits :
        (pos 250 ≤ℤ s.maximum_chunk_duration_ms) × (s.maximum_chunk_duration_ms ≤ℤ pos (2 ^ 31 - 1))
    pub inference_fits :
        (pos 1 ≤ℤ s.threads.inference_threads) × (s.threads.inference_threads ≤ℤ total)
    pub reserved_fits :
        (pos 0 ≤ℤ s.threads.obs_reserved_threads)
        × (s.threads.obs_reserved_threads ≤ℤ (total -ℤ pos 1))

  pub fields-FitsPage :
      (total : ℤ) (s : Settings F) → FitsFields total s → FitsPage (fixed_items total) s
  fields-FitsPage total s v = (
    tt,
    (
      tt,
      (
        tt,
        (
          tt,
          (
            tt,
            (
              v.method_listed,
              (
                v.speaker_fits,
                (
                  v.f0_fits,
                  (
                    v.radius_fits,
                    (
                      v.resample_fits,
                      (
                        tt,
                        (
                          tt,
                          (
                            tt,
                            (
                              v.initial_fits,
                              (v.maximum_fits, (v.inference_fits, (v.reserved_fits, tt))),
                            ),
                          ),
                        ),
                      ),
                    ),
                  ),
                ),
              ),
            ),
          ),
        ),
      ),
    ),
  )

  pub FitsPage-fields :
      (total : ℤ) (s : Settings F) → FitsPage (fixed_items total) s → FitsFields total s
  FitsPage-fields total s
        (
          _,
          (
            _,
            (
              _,
              (
                _,
                (
                  _,
                  (
                    method,
                    (
                      speaker,
                      (
                        f0,
                        (
                          radius,
                          (
                            resample,
                            (_, (_, (_, (initial, (maximum, (inference, (reserved, _))))))),
                          ),
                        ),
                      ),
                    ),
                  ),
                ),
              ),
            ),
          ),
        ) =
      record {
        method_listed = method;
        speaker_fits = speaker;
        f0_fits = f0;
        radius_fits = radius;
        resample_fits = resample;
        initial_fits = initial;
        maximum_fits = maximum;
        inference_fits = inference;
        reserved_fits = reserved;
      }

  -- With no setting of the user, each whole number has a default within the limits of its field, and
  -- the method is one of those listed. This is so for at least one thread.
  pub defaults-FitsPage :
      (to_lower : ℕ → ℕ) (device_name : Option (List ℕ)) (filter : Option (FilterData F))
      (module_file : List ℕ → Option (List ℕ)) (total : ℕ)
      → 1 ≤ total
      → FitsPage {F = F}
          (rvc_filter_properties to_lower device_name filter (pos total))
          (rvc_filter_defaults module_file total nothing_set)
  unfolding rvc_filter_defaults
  defaults-FitsPage to_lower device_name filter module_file total some_thread =
      let shared = default_threads-IsShared total some_thread in
      let (inference, reserved) = IsShared-limits (pos total) _ shared in
      let s : Settings F = rvc_filter_defaults module_file total nothing_set in
      fixed-FitsPage to_lower device_name filter (pos total) s (
        fields-FitsPage (pos total) s (record {
          method_listed = mem-cons_self;
          speaker_fits = omega arith;
          f0_fits = omega arith;
          radius_fits = omega arith;
          resample_fits = omega arith;
          initial_fits = omega arith;
          maximum_fits = omega arith;
          inference_fits = (shared.some_inference, inference);
          reserved_fits = (shared.some_reserved, reserved);
        }))
