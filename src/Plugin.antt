-- ===== src/Plugin.antt =====
-- The entry points of the module: plugin/src/plugin-main.c, with `rvc_filter_register` and
-- `rvc_filter_shutdown` of plugin/src/rvc/filter/rvc-filter.cpp.
pub mod Monitor
pub mod Life
use obs_rvc.Prelude.{ℕ, suc, Bool, true, false, Option, none, some, List, [], ◌∷◌, ◌++◌, map}
use obs_rvc.Prelude.Int.{ℤ}
use obs_rvc.Float.{Floats}
use obs_rvc.Ipc.Connections.{Opening, Context, rvc_ipc_create}
use obs_rvc.Launcher.{
  Watch, WorkerProcess, Fate, Host, Started, returned, in_child, rvc_worker_start, Effect,
  rvc_worker_stop,
}
use obs_rvc.Conversion.Registry
use obs_rvc.Conversion.Registry.{Registry}

-- The globals of plugin-main.c and rvc-filter.cpp, and the workers of all filters.
pub record Module (F : Type 0) : Type 0 where
  pub rvc_worker : Option WorkerProcess
  pub rvc_ipc : Option Context
  pub g_ipc : Option Context
  pub is_registered : Bool
  pub registry : Registry F

-- What the entry points do, in order.
pub data Event : Type 0 where
  launched : Option WorkerProcess → Event
  ipc_created ipc_destroyed filter_registered workers_stopped : Event
  stopping_process : Effect → Event

-- What iceoryx2 does when the context is created, and the thread that creates it.
pub record IpcHost : Type 0 where
  pub has_node : Bool
  pub settings_opening : Opening
  pub audio_opening : Opening
  pub thread : ℕ

-- How the two waits of a stop go: each may have the first round and `more_rounds`.
pub record Waiting : Type 0 where
  pub first : Watch
  pub second : Watch
  pub more_rounds : ℕ

abbrev pub stop_process : Waiting → Option WorkerProcess → Option (List Effect)
stop_process w process = rvc_worker_stop process w.first w.second (suc w.more_rounds)

-- A null context is deleted by no one.
abbrev rvc_ipc_destroy : Option Context → List Event
rvc_ipc_destroy none = []
rvc_ipc_destroy (some context) = ipc_destroyed ∷ []

-- A load that returns, one that goes on in the child, and one whose waits have not ended on their
-- fuel.
pub data Loaded (F : Type 0) : Type 0 where
  loaded : Bool → Module F → List Event → Loaded F
  became : Fate → Loaded F
  unfinished : Loaded F

module _ {F : Type 0} ⦃fl : Floats F⦄ where
  unfoldable pub rvc_filter_register : Module F → Option Context → Module F
  rvc_filter_register m ipc = record m { g_ipc = ipc; is_registered = true }

  unfoldable pub rvc_filter_shutdown : Module F → Module F
  rvc_filter_shutdown m = record m { registry = Registry.stop_all m.registry; g_ipc = none }

  -- `obs_module_load` after the process has been launched, by what the creation of the context gave.
  unfoldable pub load_ipc :
      Waiting → Option WorkerProcess → Module F → Bool × Option Context → Loaded F
  load_ipc waiting process m (true, context) =
      loaded true
        (rvc_filter_register (record m { rvc_worker = process; rvc_ipc = context }) context)
        (launched process ∷ ipc_created ∷ filter_registered ∷ [])
  load_ipc waiting process m (false, context) = elim (stop_process waiting process) [
    | none ↦ unfinished
    | some effects ↦
        loaded false (record m { rvc_worker = none; rvc_ipc = context })
          (launched process ∷ map stopping_process effects)
  ]

  -- `obs_module_load` after `rvc_worker_start`.
  unfoldable pub load_from : IpcHost → Waiting → Module F → Started → Loaded F
  load_from ipc waiting m (in_child fate) = became fate
  load_from ipc waiting m (returned false process) =
      loaded false (record m { rvc_worker = process }) []
  load_from ipc waiting m (returned true process) =
      load_ipc waiting process m
        (rvc_ipc_create ipc.has_node ipc.settings_opening ipc.audio_opening ipc.thread)

  abbrev pub obs_module_load : Host → IpcHost → Waiting → Module F → Loaded F
  obs_module_load host ipc waiting m = load_from ipc waiting m (rvc_worker_start host m.rvc_worker)

  -- `none` is a wait that has not ended on its fuel.
  unfoldable pub obs_module_unload : Waiting → Module F → Option (Module F × List Event)
  obs_module_unload waiting m = elim (stop_process waiting m.rvc_worker) [
    | none ↦ none
    | some effects ↦ some (
      record (rvc_filter_shutdown m) { rvc_ipc = none; rvc_worker = none },
      (workers_stopped ∷ rvc_ipc_destroy m.rvc_ipc) ++ map stopping_process effects,
    )
  ]
