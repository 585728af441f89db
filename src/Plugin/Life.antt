-- ===== src/Plugin/Life.antt =====
-- The module from its load to its unload.
use mathlib.Core.Option.{some-injective, none-ne-some}
use mathlib.Core.Path.{subst}
use obs_rvc.Prelude.{
  ℕ, suc, ◌*◌, ◌≤◌, ◌≡◌, refl, ap, ◌∙◌, inl, inr, Bool, true, false, Option, none, some, List, [],
  ◌∷◌, ◌++◌, map, ◌==◌, arith, Option-cases,
}
use obs_rvc.Prelude.Int.{pos}
use obs_rvc.Float.{Floats}
use obs_rvc.Ipc.Connections.{Context, rvc_ipc_create}
use obs_rvc.Ipc.Connections.Contexts.{IsReady, rvc_ipc_create_lem}
use obs_rvc.Launcher.{
  WorkerProcess, Host, Started, returned, in_child, rvc_worker_start, Effect, delete_process,
  exit_timeout_ms,
}
use obs_rvc.Launcher.Wait.{IsTicking}
use obs_rvc.Launcher.Lifetime.{IsStart, rvc_worker_start_lem, signals_of, rvc_worker_stop_lem}
use obs_rvc.Conversion.Registry
use obs_rvc.Conversion.Registry.{Registry, History, no_workers, nothing}
use obs_rvc.Conversion.Registry.Shutdown.{AllStopped, stop_all-lasts}
use obs_rvc.Plugin.{
  Module, Event, ipc_destroyed, workers_stopped, stopping_process, IpcHost, Waiting, stop_process,
  Loaded, loaded, became, unfinished, rvc_filter_register, rvc_filter_shutdown, load_ipc, load_from,
  obs_module_load, obs_module_unload,
}
use obs_rvc.Plugin.Monitor.{Held, nothing_held, watch_event, watch}

-- The clocks of the waits go on, and each wait has the rounds that its five seconds may take.
pub record IsPatient (waiting : Waiting) : Type 0 where
  pub first_ticks : IsTicking waiting.first
  pub second_ticks : IsTicking waiting.second
  pub enough : exit_timeout_ms ≤ 10 * waiting.more_rounds

abbrev pub child_process : ℕ → WorkerProcess
child_process n = record { pid = pos (suc n) }

signals-watched :
    (n : ℕ) (gone : Bool)
    → watch
        (record nothing_held { child = some (suc n) })
        (map stopping_process (signals_of (pos (suc n)) gone ++ (delete_process ∷ [])))
      ≡ some nothing_held
unfolding watch
signals-watched n true = let own : (suc n == suc n) ≡ true = ground arith in rw (watch, own) refl
signals-watched n false =
    let own : (suc n == suc n) ≡ true = ground arith in rw (watch, own, watch, own) refl

watch-append :
    (h h' : Held) (es es' : List Event) → watch h es ≡ some h' → watch h (es ++ es') ≡ watch h' es'
unfolding watch
watch-append h h' [] es' e = ap (λ k. watch k es') (some-injective _ _ e)
watch-append h h' (x ∷ es) es' e = elim (Option-cases (watch_event h x)) [
  | inl refused ↦ absurd (none-ne-some _ (rw (watch, refused) at e))
  | inr (h'', s) ↦ rw (watch, s) (watch-append h'' h' es es' (rw (watch, s) at e))
]

-- What a stop of the process sends and frees leaves nothing held.
stop-watched :
    (n : ℕ) (waiting : Waiting)
    → IsPatient waiting
    → (effects : List Effect) × ((stop_process waiting (some (child_process n)) ≡ some effects)
        × (watch (record nothing_held { child = some (suc n) }) (map stopping_process effects)
            ≡ some nothing_held))
unfolding watch
stop-watched n waiting v =
    let (gone, (e, _)) =
      rvc_worker_stop_lem n waiting.first waiting.second waiting.more_rounds v.first_ticks
        v.second_ticks v.enough in
    (_, (e, signals-watched n gone))

abbrev held_by : ℕ → Held
held_by n = record { child = some (suc n); has_context = true; in_use = true }

module _ {F : Type 0} ⦃fl : Floats F⦄ where
  -- The module as the program starts, or with the filters still to be destroyed.
  abbrev pub unloaded : Registry F → Module F
  unloaded registry = record {
    rvc_worker = none;
    rvc_ipc = none;
    g_ipc = none;
    is_registered = false;
    registry = registry;
  }

  -- A module that holds the process with this pid and a ready context.
  pub record IsLoaded (n : ℕ) (registry : Registry F) (m : Module F) : Type 0 where
    pub context : Context
    has_process : m.rvc_worker ≡ some (child_process n)
    pub has_context : m.rvc_ipc ≡ some context
    filters_have : m.g_ipc ≡ some context
    pub is_ready : IsReady context
    offers : m.is_registered ≡ true
    same_registry : m.registry ≡ registry

  -- What may come of a load.
  abbrev pub IsLoad : Host → Registry F → Loaded F → Type 0
  IsLoad host registry (loaded true m events) =
      (n : ℕ) × ((host.fork ≡ pos (suc n))
        × (watch nothing_held events ≡ some (held_by n))
        × IsLoaded n registry m)
  IsLoad host registry (loaded false m events) =
      (m ≡ unloaded registry) × (watch nothing_held events ≡ some nothing_held)
  IsLoad host registry (became fate) = host.fork ≡ pos 0
  IsLoad host registry unfinished = ⊥

  load_ipc-IsLoad :
      (host : Host) (ipc : IpcHost) (waiting : Waiting) (registry : Registry F) (n : ℕ)
      → IsPatient waiting
      → host.fork ≡ pos (suc n)
      → IsLoad host registry (
          load_ipc waiting
            (some (child_process n))
            (unloaded registry)
            (rvc_ipc_create ipc.has_node ipc.settings_opening ipc.audio_opening ipc.thread))
  unfolding load_ipc watch rvc_filter_register
  load_ipc-IsLoad host ipc waiting registry n v forked =
      elim (rvc_ipc_create_lem ipc.has_node ipc.settings_opening ipc.audio_opening ipc.thread) [
        | inl (e, _) ↦
            let (effects, (e', seen)) = stop-watched n waiting v in
            rw (e, load_ipc, e') (refl, seen)
        | inr (context, (e, ready)) ↦ rw e (
          n,
          (
            forked,
            refl,
            record {
              context = context;
              has_process = refl;
              has_context = refl;
              filters_have = refl;
              is_ready = ready;
              offers = refl;
              same_registry = refl;
            },
          ),
        )
      ]

  load_from-IsLoad :
      (host : Host) (ipc : IpcHost) (waiting : Waiting) (registry : Registry F) (started : Started)
      → IsPatient waiting
      → IsStart host none started
      → IsLoad host registry (load_from ipc waiting (unloaded registry) started)
  unfolding load_from watch
  load_from-IsLoad host ipc waiting registry (in_child fate) v (worker, (forked, _, _)) = forked
  load_from-IsLoad host ipc waiting registry (returned true process) v
        (n, (worker, (forked, after, _, _))) =
      rw after (load_ipc-IsLoad host ipc waiting registry n v forked)
  load_from-IsLoad host ipc waiting registry (returned false process) v s =
      let same : process ≡ none = elim s [ inl e ↦ e | inr e ↦ e ] in rw same (refl, refl)

  -- A load ends. If it returns true, the process of a fork runs, and the filters have a context
  -- whose clients are connected; if it returns false, all is as before it, and what it took it has
  -- given back, in order; it goes on in the child only. Each wait has the rounds that it may take.
  pub obs_module_load_lem :
      (host : Host) (ipc : IpcHost) (waiting : Waiting) (registry : Registry F)
      → IsPatient waiting
      → IsLoad host registry (obs_module_load host ipc waiting (unloaded registry))
  obs_module_load_lem host ipc waiting registry v =
      load_from-IsLoad host ipc waiting registry (rvc_worker_start host none) v
        (rvc_worker_start_lem host none)

  -- An unload: it ends, clears the globals, and leaves no registered worker running.
  pub record IsUnload (before : List Event) (out : Option (Module F × List Event)) : Type 0 where
    pub after : Module F
    events : List Event
    ends : out ≡ some (after, events)
    in_order : watch nothing_held (before ++ events) ≡ some nothing_held
    no_process : after.rvc_worker ≡ none
    no_context : after.rvc_ipc ≡ none
    no_filter_context : after.g_ipc ≡ none
    pub shut : {later : Registry F} → History after.registry later → AllStopped later.objects

  IsUnload-watched :
      (n : ℕ) (registry : Registry F) (m : Module F) (waiting : Waiting) (before : List Event)
      → IsPatient waiting
      → watch nothing_held before ≡ some (held_by n)
      → IsLoaded n registry m
      → {now : Registry F} → History no_workers now
      → IsUnload before (obs_module_unload waiting (record m { registry = now }))
  unfolding obs_module_unload rvc_filter_shutdown watch
  IsUnload-watched n registry m waiting before v seen l {now} past =
      let (effects, (e, given_back)) = stop-watched n waiting v in
      record {
        after = record (unloaded (Registry.stop_all now)) { is_registered = m.is_registered };
        events = workers_stopped ∷ ipc_destroyed ∷ map stopping_process effects;
        ends = rw (obs_module_unload, l.has_process, e, l.has_context) refl;
        in_order = watch-append nothing_held (held_by n) before _ seen ∙ given_back;
        no_process = refl;
        no_context = refl;
        no_filter_context = refl;
        shut = λ later. stop_all-lasts past later;
      }

  -- After a load that returned true, whatever the filters construct, call and destroy, an unload
  -- ends and clears the globals. All that was taken has then been given back, the workers stopped
  -- before the context goes, and the context gone before the process is stopped; and no registered
  -- worker runs on, then or later.
  pub load-IsUnload :
      (host : Host) (ipc : IpcHost) (waiting : Waiting) {m : Module F} {before : List Event}
      → IsPatient waiting
      → obs_module_load host ipc waiting (unloaded no_workers) ≡ loaded true m before
      → {now : Registry F} → History no_workers now
      → IsUnload before (obs_module_unload waiting (record m { registry = now }))
  load-IsUnload host ipc waiting {m} {before} v returned_true past =
      let (n, (_, seen, l)) =
        subst (IsLoad host no_workers) returned_true
          (obs_module_load_lem host ipc waiting no_workers v) in
      IsUnload-watched n no_workers m waiting before v seen l past
