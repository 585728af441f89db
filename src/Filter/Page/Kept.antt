-- ===== src/Filter/Page/Kept.antt =====
-- An update writes back what fits the page.
use obs_rvc.Prelude.{ℕ, inl, inr, Option, List, arith, Bool-cases, Option-cases}
use obs_rvc.Prelude.Int.{ℤ, pos, ◌≤ℤ◌}
use obs_rvc.Float.{Floats}
use obs_rvc.Ipc.Transport.{SettingsRequest, SettingsResponse}
use obs_rvc.Ipc.Status.{IpcStatus}
use obs_rvc.Utils.Files.{FileSystem}
use obs_rvc.Utils.Renderer.{software_rendering_warning}
use obs_rvc.Filter.Threads.{Threads, IsShared, update_threads, update_threads-IsShared}
use obs_rvc.Filter.Validation.{validate_models}
use obs_rvc.Filter.Update.{Settings, FilterData, settings_request, accept, update}
use obs_rvc.Filter.Outcome.{options_of-IsSane, ask_lem}
use obs_rvc.Filter.Page.{fixed_items, shows_gpu_warning, rvc_filter_properties, FitsPage}
use obs_rvc.Filter.Page.Limits.{
  IsShared-limits, FitsFields, fields-FitsPage, FitsPage-fields, fixed_of, fixed-FitsPage,
}

module _ {F : Type 0} ⦃fl : Floats F⦄ where
  threads-FitsFields :
      (total : ℤ) (s : Settings F) (t : Threads)
      → IsShared total t
      → FitsFields total s
      → FitsFields total (record s { threads = t })
  threads-FitsFields total s t shared v =
      let (inference, reserved) = IsShared-limits total t shared in
      record {
        method_listed = v.method_listed;
        speaker_fits = v.speaker_fits;
        f0_fits = v.f0_fits;
        radius_fits = v.radius_fits;
        resample_fits = v.resample_fits;
        initial_fits = v.initial_fits;
        maximum_fits = v.maximum_fits;
        inference_fits = (shared.some_inference, inference);
        reserved_fits = (shared.some_reserved, reserved);
      }

  -- What an accepted update writes back.
  accept-FitsFields :
      (total : ℤ) (filter : FilterData F) (s : Settings F) (response : SettingsResponse)
      → FitsFields total s
      → FitsFields total (accept filter s response).1
  unfolding accept
  accept-FitsFields total filter s response v =
      let (sane, low, high) = options_of-IsSane s in
      let ordered = sane.ordered in
      record {
        method_listed = v.method_listed;
        speaker_fits = v.speaker_fits;
        f0_fits = v.f0_fits;
        radius_fits = v.radius_fits;
        resample_fits = v.resample_fits;
        initial_fits = (low, high);
        maximum_fits = (omega (arith, low, ordered), sane.fits);
        inference_fits = v.inference_fits;
        reserved_fits = v.reserved_fits;
      }

  update-FitsFields :
      (files : FileSystem) (total : ℤ)
      (answer_of : SettingsRequest → ℕ → IpcStatus × SettingsResponse) (filter : FilterData F)
      (s : Settings F)
      → pos 1 ≤ℤ total
      → FitsFields total s
      → FitsFields total (update files total answer_of filter s).1
  unfolding update
  update-FitsFields files total answer_of filter s some_thread v =
      let t = update_threads total s.threads in
      let v' =
        threads-FitsFields total s t (update_threads-IsShared total s.threads some_thread) v in
      elim (Bool-cases (validate_models files s.paths).valid) [
        | inr e ↦ rw (update, e) v
        | inl valid ↦ elim (Option-cases (settings_request s.paths t)) [
          | inl e ↦ rw (update, valid, e) v
          | inr (request, e) ↦
              rw (update, valid, e)
                (elim (ask_lem (answer_of request) filter (record s { threads = t })) [
                  | inl none_said ↦ rw none_said v'
                  | inr (_, (response, accepted)) ↦
                      rw accepted (accept-FitsFields total filter _ response v')
                ])
        ]
      ]

  -- Settings that fit the page still fit it after an update, whatever comes of it. This is so for at
  -- least one thread.
  pub update-FitsPage :
      (to_lower : ℕ → ℕ) (device_name : Option (List ℕ)) (shown : Option (FilterData F))
      (files : FileSystem) (total : ℤ)
      (answer_of : SettingsRequest → ℕ → IpcStatus × SettingsResponse) (filter : FilterData F)
      (s : Settings F)
      → pos 1 ≤ℤ total
      → FitsPage (rvc_filter_properties to_lower device_name shown total) s
      → FitsPage
          (rvc_filter_properties to_lower device_name shown total)
          (update files total answer_of filter s).1
  unfolding rvc_filter_properties
  update-FitsPage to_lower device_name shown files total answer_of filter s some_thread fits =
      let fixed =
        fixed_of (software_rendering_warning to_lower device_name) (shows_gpu_warning shown)
          (fixed_items total) s fits in
      fixed-FitsPage to_lower device_name shown total _ (
        fields-FitsPage total _ (
          update-FitsFields files total answer_of filter s some_thread
            (FitsPage-fields total s fixed)))
