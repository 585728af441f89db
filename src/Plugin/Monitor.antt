-- ===== src/Plugin/Monitor.antt =====
-- The order in which the module must take and give back what it holds: an automaton over the events,
-- which refuses one that comes out of turn.
use obs_rvc.Prelude.{
  ℕ, zero, suc, Bool, true, false, Option, none, some, List, [], ◌∷◌, ◌==◌, not, ◌&&◌,
  if◌then◌else◌,
}
use obs_rvc.Prelude.Int.{ℤ, pos, negsuc}
use obs_rvc.Launcher.{WorkerProcess, kill, delete_process}
use obs_rvc.Plugin.{
  Event, launched, ipc_created, ipc_destroyed, filter_registered, workers_stopped, stopping_process,
}

-- What is held: the child with its pid, the context, and whether filters may use the context.
pub record Held : Type 0 where
  pub child : Option ℕ
  pub has_context : Bool
  pub in_use : Bool

abbrev pub nothing_held : Held
nothing_held = record { child = none; has_context = false; in_use = false }

-- A signal may go to the child alone, and only when no context is there to reach it.
abbrev signal_ok : Held → ℤ → Bool
signal_ok h (negsuc n) = false
signal_ok h (pos n) = elim h.child [ none ↦ false | some pid ↦ pid == n && not h.has_context ]

abbrev hold_child : Held → ℤ → Option Held
hold_child h (negsuc n) = none
hold_child h (pos zero) = none
hold_child h (pos (suc n)) = elim h.child [
  | none ↦ some (record h { child = some (suc n) })
  | some other ↦ none
]

abbrev launch_child : Held → Option WorkerProcess → Option Held
launch_child h none = none
launch_child h (some process) = hold_child h process.pid

abbrev pub watch_event : Held → Event → Option Held
watch_event h (launched process) = launch_child h process
watch_event h ipc_created = if h.has_context then none else some (record h { has_context = true })
watch_event h filter_registered = if h.has_context then some (record h { in_use = true }) else none
watch_event h workers_stopped = some (record h { in_use = false })
watch_event h ipc_destroyed =
    if h.has_context && not h.in_use then some (record h { has_context = false }) else none
watch_event h (stopping_process (kill pid signal)) = if signal_ok h pid then some h else none
watch_event h (stopping_process delete_process) = elim h.child [
  | none ↦ none
  | some pid ↦ some (record h { child = none })
]

-- What is held after the events, or `none` where one came out of turn.
unfoldable pub watch : Held → List Event → Option Held
watch h [] = some h
watch h (e ∷ es) = elim (watch_event h e) [ none ↦ none | some h' ↦ watch h' es ]
