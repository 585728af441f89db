-- ===== src/Tests/Modules.antt =====
-- The module, loaded and unloaded, with a filter in between.
use obs_rvc.Prelude.{ℕ, ◌≡◌, refl, true, none, some, List, [], ◌∷◌, arith}
use obs_rvc.Launcher.{rvc_worker_start}
use obs_rvc.Conversion.Registry.{no_workers}
use obs_rvc.Plugin.{
  Module, Event, launched, ipc_created, filter_registered, IpcHost, Waiting, Loaded, loaded,
  obs_module_load, obs_module_unload,
}
use obs_rvc.Plugin.Life.{
  IsPatient, unloaded, child_process, IsLoad, obs_module_load_lem, IsUnload, load-IsUnload,
}
use obs_rvc.Tests.Sample.{whole_floats}
use obs_rvc.Tests.Launches.{soon, never, soon-IsTicking, never-IsTicking, host}
use obs_rvc.Tests.Contexts.{opening_of, context}
use obs_rvc.Tests.Registries.{one, one-History}

abbrev waits : Waiting
waits = record { first = never; second = soon; more_rounds = 500 }

waits-IsPatient : IsPatient waits
waits-IsPatient = record {
  first_ticks = never-IsTicking;
  second_ticks = soon-IsTicking;
  enough = omega arith;
}

abbrev ipc : IpcHost
ipc = record {
  has_node = true;
  settings_opening = opening_of 1;
  audio_opening = opening_of 2;
  thread = 10;
}

-- The second client cannot be created.
abbrev broken_ipc : IpcHost
broken_ipc = record ipc { audio_opening = record (opening_of 2) { client = none } }

obs_module_load_lem_example :
    IsLoad {F = ℕ} host no_workers (obs_module_load host broken_ipc waits (unloaded no_workers))
obs_module_load_lem_example = obs_module_load_lem host broken_ipc waits no_workers waits-IsPatient

abbrev loaded_module : Module ℕ
loaded_module = record {
  rvc_worker = some (child_process 41);
  rvc_ipc = some context;
  g_ipc = some context;
  is_registered = true;
  registry = no_workers;
}

abbrev loading : List Event
loading = launched (some (child_process 41)) ∷ ipc_created ∷ filter_registered ∷ []

returned_true :
    obs_module_load host ipc waits (unloaded no_workers) ≡ loaded true loaded_module loading
unfolding obs_rvc.Plugin.load_from obs_rvc.Launcher.start_file obs_rvc.Launcher.launched
    obs_rvc.Launcher.forked obs_rvc.Plugin.load_ipc obs_rvc.Ipc.Connections.rvc_ipc_create
    obs_rvc.Ipc.Connections.open_service obs_rvc.Ipc.Connections.with_client
    obs_rvc.Ipc.Connections.new_audio_client obs_rvc.Plugin.rvc_filter_register
returned_true = refl

load-IsUnload_example :
    IsUnload loading (obs_module_unload waits (record loaded_module { registry = one }))
load-IsUnload_example = load-IsUnload host ipc waits waits-IsPatient returned_true one-History
