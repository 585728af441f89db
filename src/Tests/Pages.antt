-- ===== src/Tests/Pages.antt =====
-- The settings page, and a filter that is created, at concrete values.
use mathlib.Core.Option
use obs_rvc.Prelude.{ℕ, ◌≡◌, ◌⊎◌, true, false, Option, none, some, List, [], ◌∷◌, arith}
use obs_rvc.Prelude.Int.{pos}
use obs_rvc.Ipc.Transport.{SettingsRequest, SettingsResponse, blank_response}
use obs_rvc.Ipc.Status.{IpcStatus}
use obs_rvc.Ipc.Exchange.{arrived}
use obs_rvc.Ipc.Connections.{Context}
use obs_rvc.Conversion.Worker.{Impl, reset}
use obs_rvc.Conversion.Registry.{Registry, no_workers}
use obs_rvc.Filter.Threads.{update_threads}
use obs_rvc.Filter.Update.{Settings, settings_request, options_of, update}
use obs_rvc.Filter.Page.{rvc_filter_properties, FitsPage}
use obs_rvc.Filter.Page.Limits.{defaults-FitsPage}
use obs_rvc.Filter.Page.Kept.{update-FitsPage}
use obs_rvc.Filter.Defaults.{nothing_set, rvc_filter_defaults}
use obs_rvc.Filter.Creation.{
  Service, IsAnsweredAt, rvc_filter_update, rvc_filter_create, rvc_filter_update_lem,
  rvc_filter_create_lem, IsNewWorker,
}
use obs_rvc.Tests.Sample.{whole_floats, options}
use obs_rvc.Tests.Contexts.{context}
use obs_rvc.Tests.Filters.{files, settings, playing_filter}

-- The module has every file, under the name by which the file system knows it.
abbrev module_file : List ℕ → Option (List ℕ)
module_file path = some path

-- "llvmpipe", a renderer in software.
abbrev device_name : Option (List ℕ)
device_name = some (108 ∷ 108 ∷ 118 ∷ 109 ∷ 112 ∷ 105 ∷ 112 ∷ 101 ∷ [])

defaults-FitsPage_example :
    FitsPage {F = ℕ}
      (rvc_filter_properties (λ c. c) device_name (some playing_filter) (pos 12))
      (rvc_filter_defaults module_file 12 nothing_set)
defaults-FitsPage_example =
    defaults-FitsPage (λ c. c) device_name (some playing_filter) module_file 12 (omega arith)

abbrev answered : SettingsRequest → ℕ → IpcStatus × SettingsResponse
answered asked attempt = (IpcStatus.ok, blank_response)

abbrev defaults : Settings ℕ
defaults = rvc_filter_defaults module_file 12 nothing_set

update-FitsPage_example :
    FitsPage
      (rvc_filter_properties (λ c. c) none (some playing_filter) (pos 12))
      (update files (pos 12) answered playing_filter defaults).1
update-FitsPage_example =
    update-FitsPage (λ c. c) none (some playing_filter) files (pos 12) answered playing_filter
      defaults (omega arith)
      (defaults-FitsPage (λ c. c) none (some playing_filter) module_file 12 (omega arith))

-- The worker process answers at once.
abbrev service : Service
service asked attempt client = record {
  lends = true;
  sends = true;
  poll = λ elapsed. arrived blank_response;
}

rvc_filter_update_lem_example :
    let (filter', s') = rvc_filter_update (some context) service files 8 playing_filter settings in
    ((some context ≡ none) × (filter' ≡ playing_filter) × (s' ≡ settings))
    ⊎ (((filter'.configured ≡ false)
          × (filter'.conversion_worker ≡ playing_filter.conversion_worker))
        ⊎ ((filter'.configured ≡ true)
            × (filter'.conversion_worker
                ≡ Option.map (λ w. reset w (options_of settings)) playing_filter.conversion_worker)
            × ((c : Context) × ((some context ≡ some c)
                  × ((asked : SettingsRequest) × ((settings_request settings.paths
                            (update_threads (pos 8) settings.threads)
                          ≡ some asked)
                        × (IsAnsweredAt c service asked 0 ⊎ IsAnsweredAt c service asked 1)))))))
rvc_filter_update_lem_example =
    rvc_filter_update_lem (some context) service files 8 playing_filter settings (omega arith)

-- The workers of the module, with two made before.
abbrev workers : Registry ℕ
workers = record no_workers { next_stream_id = 3 }

rvc_filter_create_lem_example :
    let filter =
      (rvc_filter_create {F = ℕ}
        (some context)
        workers
        service
        files
        module_file
        8
        options
        1000
        nothing_set).0 in
    (w : Impl ℕ) × ((filter.conversion_worker ≡ some w) × IsNewWorker workers filter.configured w)
rvc_filter_create_lem_example =
    rvc_filter_create_lem (some context) workers service files module_file 8 options 1000
      (omega arith)
