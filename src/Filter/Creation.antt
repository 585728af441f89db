-- ===== src/Filter/Creation.antt =====
-- `rvc_filter_update` over the context of the module, and `rvc_filter_create`, both of
-- plugin/src/rvc/filter/rvc-filter.cpp.
use mathlib.Core.Option
use mathlib.Core.Option.{some-injective}
use mathlib.Core.Path.{subst}
use obs_rvc.Prelude.{
  ℕ, ◌≡◌, ◌⊎◌, ◌≤◌, refl, sym, ap, inl, inr, true, false, Option, none, some, List, arith,
  if◌then◌else◌, Bool, not, ◌&&◌, Bool-cases, ◌∙◌, not_both,
}
use obs_rvc.Prelude.Int.{pos}
use obs_rvc.Float.{Floats}
use obs_rvc.Ipc.Transport.{SettingsRequest, SettingsResponse, blank_response}
use obs_rvc.Ipc.Status.{IpcStatus, is_ok}
use obs_rvc.Ipc.Exchange.{Channel}
use obs_rvc.Ipc.Connections.{Context, rvc_ipc_configure}
use obs_rvc.Ipc.Connections.Settings.{IsAnswered, rvc_ipc_configure_ok}
use obs_rvc.Utils.Files.{FileSystem}
use obs_rvc.Conversion.Worker.{Impl, ConversionOptions, reset, stop}
use obs_rvc.Conversion.Registry.{Registry, new_object, registered_at}
use obs_rvc.Conversion.System.{new_worker}
use obs_rvc.Filter.Threads.{clamp, update_threads}
use obs_rvc.Filter.Update.{Settings, FilterData, settings_request, options_of, update}
use obs_rvc.Filter.Outcome.{update_lem}
use obs_rvc.Filter.Defaults.{UserValues, nothing_set, rvc_filter_defaults}

-- `kWorkerStartupTimeoutMs`
abbrev startup_timeout_ms : ℕ
startup_timeout_ms = 30_000

-- What the clients of iceoryx2 do with a request at each attempt.
abbrev pub Service : Type 0
Service = SettingsRequest → ℕ → ℕ → Channel SettingsResponse

-- The answers that the filter gets over a context.
abbrev answers_over : Context → Service → SettingsRequest → ℕ → IpcStatus × SettingsResponse
answers_over context service request attempt =
    rvc_ipc_configure (some context) (service request attempt) blank_response startup_timeout_ms

module _ {F : Type 0} ⦃fl : Floats F⦄ where
  -- `g_ipc` is null before the module is loaded and after it is unloaded.
  unfoldable pub rvc_filter_update :
      Option Context
      → Service
      → FileSystem
      → ℕ
      → FilterData F
      → Settings F
      → FilterData F × Settings F
  rvc_filter_update none service files total filter s = (filter, s)
  rvc_filter_update (some context) service files total filter s =
      update files (pos total) (answers_over context service) filter s

  -- `RvcFilterData{}` with its new worker, as the constructor leaves it among those of `workers`;
  -- `blank_options` are those of a worker without settings.
  abbrev new_filter : Registry F → ConversionOptions F → ℕ → FilterData F
  new_filter workers blank_options address = record {
    configured = false;
    gpu_accelerated = false;
    conversion_worker =
        some
          (registered_at workers.workers_stopping address
            (new_object workers blank_options address)).worker;
  }

  -- A new filter, with its settings afterwards. `workers` are those before it, and `address` is where
  -- its own is made; what becomes of `workers` is `construct` and `register`.
  unfoldable pub rvc_filter_create :
      Option Context
      → Registry F
      → Service
      → FileSystem
      → (List ℕ → Option (List ℕ))
      → ℕ
      → ConversionOptions F
      → ℕ
      → UserValues F
      → FilterData F × Settings F
  rvc_filter_create g_ipc workers service files module_file total blank_options address user =
      rvc_filter_update g_ipc service files total (new_filter workers blank_options address)
        (rvc_filter_defaults module_file total user)

-- The worker process answered the request of these settings well, at this attempt.
abbrev pub IsAnsweredAt : Context → Service → SettingsRequest → ℕ → Type 0
IsAnsweredAt context service request attempt =
    IsAnswered context.settings.client (service request attempt) startup_timeout_ms
      (answers_over context service request attempt).1

answered_at :
    (context : Context) (service : Service) (request : SettingsRequest) (attempt : ℕ)
    → is_ok (answers_over context service request attempt).0 ≡ true
    → IsAnsweredAt context service request attempt
answered_at context service request attempt good =
    let (_, (c, (same, answered))) =
      rvc_ipc_configure_ok (some context) (service request attempt) blank_response
        startup_timeout_ms good in
    subst
      (λ x.
        IsAnswered x.settings.client (service request attempt) startup_timeout_ms
          (answers_over context service request attempt).1)
      (some-injective c context (sym same)) answered

module _ {F : Type 0} ⦃fl : Floats F⦄ where
  -- What an update over the context may come to. Without a context nothing changes. Otherwise the
  -- filter is left unconfigured, its worker as it was; or the worker process answered the request of
  -- the settings well, over the settings client of the context and at the first attempt or the
  -- second, and the worker is reset with their options. This is so for at least one thread.
  pub rvc_filter_update_lem :
      (g_ipc : Option Context) (service : Service) (files : FileSystem) (total : ℕ)
      (filter : FilterData F) (s : Settings F)
      → 1 ≤ total
      → let (filter', s') = rvc_filter_update g_ipc service files total filter s in
        ((g_ipc ≡ none) × (filter' ≡ filter) × (s' ≡ s))
        ⊎ (((filter'.configured ≡ false) × (filter'.conversion_worker ≡ filter.conversion_worker))
            ⊎ ((filter'.configured ≡ true)
                × (filter'.conversion_worker
                    ≡ Option.map (λ w. reset w (options_of s)) filter.conversion_worker)
                × ((context : Context) × ((g_ipc ≡ some context)
                      × ((request : SettingsRequest) × ((settings_request s.paths
                                (update_threads (pos total) s.threads)
                              ≡ some request)
                            × (IsAnsweredAt context service request 0
                                ⊎ IsAnsweredAt context service request 1)))))))
  unfolding rvc_filter_update
  rvc_filter_update_lem none service files total filter s some_thread = inl (refl, refl, refl)
  rvc_filter_update_lem (some context) service files total filter s some_thread =
      elim (update_lem files (pos total) (answers_over context service) filter s (omega arith)) [
        | inl (off, same) ↦ inr (inl (off, same))
        | inr (on, _, (request, fits, said), worker, _, _, _) ↦ inr (
            inr (
              on,
              worker,
              (
                context,
                (
                  refl,
                  (
                    request,
                    (
                      fits,
                      elim said [
                        | inl good ↦ inl (answered_at context service request 0 good)
                        | inr good ↦ inr (answered_at context service request 1 good)
                      ],
                    ),
                  ),
                ),
              ),
            ))
      ]

  abbrev made : Registry F → ConversionOptions F → Impl F
  made workers blank_options =
      let w = new_worker blank_options workers.next_stream_id in
      if workers.workers_stopping then stop w else w

  -- The worker of a new filter: stopped, if the workers have been stopped.
  new_filter-worker :
      (workers : Registry F) (blank_options : ConversionOptions F) (address : ℕ)
      → (new_filter workers blank_options address).conversion_worker
        ≡ some (made workers blank_options)
  new_filter-worker workers blank_options address = ground arith

  -- A worker that stops is not configured by a reset, and one that goes on is.
  pub record IsNewWorker (workers : Registry F) (configured : Bool) (w : Impl F) : Type 0 where
    identity : w.stream_id ≡ workers.next_stream_id
    stops : w.stopping ≡ workers.workers_stopping
    sets_up : w.configured ≡ configured && not workers.workers_stopping
    durations :
        w.configured ≡ true
        → (w.active_chunk_duration_ms ≡ pos 250) × (w.maximum_chunk_duration_ms ≡ pos 1_500)

  made-IsNewWorker :
      (workers : Registry F) (blank_options : ConversionOptions F)
      → IsNewWorker workers false (made workers blank_options)
  unfolding new_worker stop
  made-IsNewWorker workers blank_options = elim (Bool-cases workers.workers_stopping) [
    | inl told ↦ record {
      identity = rw told refl;
      stops = rw told refl;
      sets_up = rw told refl;
      durations = λ on. absurd (not_both (rw told refl) on);
    }
    | inr going ↦ record {
      identity = rw going refl;
      stops = rw going refl;
      sets_up = rw going refl;
      durations = λ on. absurd (not_both (rw going refl) on);
    }
  ]

  reset-IsNewWorker :
      (workers : Registry F) (blank_options options : ConversionOptions F)
      → options.initial_chunk_duration_ms ≡ pos 250
      → options.maximum_chunk_duration_ms ≡ pos 1_500
      → IsNewWorker workers true (reset (made workers blank_options) options)
  unfolding new_worker stop reset
  reset-IsNewWorker workers blank_options options first longest =
      elim (Bool-cases workers.workers_stopping) [
        | inl told ↦ record {
          identity = rw told refl;
          stops = rw told refl;
          sets_up = rw told refl;
          durations = λ on. absurd (not_both (rw told refl) on);
        }
        | inr going ↦ record {
          identity = rw going refl;
          stops = rw going refl;
          sets_up = rw going refl;
          durations = λ _. (rw going first, rw going longest);
        }
      ]

  -- What a filter is after its creation for a user who has set nothing. Its worker has the next
  -- identity, and is stopping exactly if `stop_all` has been called. It is configured where the
  -- filter is and the worker is not stopping; it then begins with blocks of 250 ms that may grow to
  -- 1500 ms. This is so for at least one thread.
  pub rvc_filter_create_lem :
      (g_ipc : Option Context) (workers : Registry F) (service : Service) (files : FileSystem)
      (module_file : List ℕ → Option (List ℕ)) (total : ℕ) (blank_options : ConversionOptions F)
      (address : ℕ)
      → 1 ≤ total
      → let filter =
          (rvc_filter_create g_ipc workers service files module_file total blank_options address
            nothing_set).0 in
        (w : Impl F) × ((filter.conversion_worker ≡ some w)
          × IsNewWorker workers filter.configured w)
  unfolding rvc_filter_create options_of rvc_filter_defaults clamp
  rvc_filter_create_lem g_ipc workers service files module_file total blank_options address
        some_thread =
      let filter = new_filter workers blank_options address in
      let s : Settings F = rvc_filter_defaults module_file total nothing_set in
      let has_worker = new_filter-worker workers blank_options address in
      let new = made-IsNewWorker workers blank_options in
      elim (rvc_filter_update_lem g_ipc service files total filter s some_thread) [
        | inl (_, same, _) ↦ (
          made workers blank_options,
          (ap (λ f. f.conversion_worker) same ∙ has_worker, rw (ap (λ f. f.configured) same) new),
        )
        | inr (inl (off, same)) ↦ (made workers blank_options, (same ∙ has_worker, rw off new))
        | inr (inr (on, worker, _)) ↦ (
          reset (made workers blank_options) (options_of s),
          (
            worker ∙ ap (Option.map (λ w. reset w (options_of s))) has_worker,
            rw on (reset-IsNewWorker workers blank_options (options_of s) refl refl),
          ),
        )
      ]
