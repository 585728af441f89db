-- ===== src/Launcher.antt =====
-- The launcher of the worker process: plugin/src/rvc/worker/rvc-worker-process.cpp, its branch for
-- POSIX. What the operating system answers is a parameter.
pub mod Wait
pub mod Lifetime
use obs_rvc.Prelude.{
  ℕ, zero, suc, ◌+◌, Bool, true, false, not, ◌||◌, Option, none, some, List, [], ◌∷◌, ◌++◌, leb,
  if◌then◌else◌,
}
use obs_rvc.Prelude.Int.{ℤ, pos, negsuc, ltb_ℤ}

-- What `waitpid` with `WNOHANG` says of a child: its pid, 0, or -1 with `ECHILD`, `EINTR` or
-- another error.
pub data Waited : Type 0 where
  reaped running no_child interrupted failed : Waited

-- One call of `wait_for_exit`: the clock as the deadline is set, what each round hears of the
-- child, and the clock as the round compares it.
pub record Watch : Type 0 where
  pub start : ℕ
  pub heard : ℕ → Waited
  pub clock : ℕ → ℕ

-- The rounds, of which `fuel` may be run; `none` is a loop that has not ended by then.
unfoldable pub wait_from : Watch → ℕ → ℕ → ℕ → Option Bool
wait_from watch deadline zero round = none
wait_from watch deadline (suc fuel) round =
    let rest = wait_from watch deadline fuel (suc round) in
    let late = leb deadline (watch.clock round) in
    elim (watch.heard round) [
      | reaped ↦ some true
      | no_child ↦ some true
      | failed ↦ some false
      | running ↦ if late then some false else rest
      | interrupted ↦ if late then some false else rest
    ]

unfoldable pub wait_for_exit : Watch → ℕ → ℕ → Option Bool
wait_for_exit watch timeout_ms fuel = wait_from watch (watch.start + timeout_ms) fuel 0

pub record WorkerProcess : Type 0 where
  pub pid : ℤ

-- What the child sees between `fork` and the end of `launch`.
pub record ChildHost : Type 0 where
  pub prctl_fails : Bool
  pub is_orphan : Bool
  pub chdir_fails : Bool
  pub execl_fails : Bool

-- The child leaves with a status, or runs the worker.
pub data Fate : Type 0 where
  exits : ℕ → Fate
  runs : List ℕ → Fate

unfoldable pub run_child : ChildHost → List ℕ → Fate
run_child host path =
    if host.prctl_fails || host.is_orphan
    then exits 127
    else if host.chdir_fails
    then exits 127
    else if host.execl_fails
    then exits 127
    else runs path

-- What `fork` returns, and what follows in a child.
pub record Host : Type 0 where
  pub module_file : Option (List ℕ)
  pub is_regular_file : List ℕ → Bool
  pub fork : ℤ
  pub child : ChildHost

-- A call that returns says whether it went well and what the pointer to the process then is; in
-- the child it does not return.
pub data Started : Type 0 where
  returned : Bool → Option WorkerProcess → Started
  in_child : Fate → Started

-- The rest of `launch` after its `fork`.
unfoldable pub forked : ChildHost → List ℕ → ℤ → Started
forked child path (negsuc n) = returned false (some (record { pid = negsuc n }))
forked child path (pos zero) = in_child (run_child child path)
forked child path (pos (suc n)) = returned true (some (record { pid = pos (suc n) }))

-- `launch` of a new process object.
abbrev launch : Host → List ℕ → Started
launch host path = forked host.child path host.fork

-- What `rvc_worker_start` makes of `launch`: a process that cannot be started is deleted.
unfoldable pub launched : Started → Started
launched (in_child fate) = in_child fate
launched (returned true process) = returned true process
launched (returned false process) = returned false none

-- The rest of `rvc_worker_start` behind the search for the file of the module.
unfoldable pub start_file : Host → Option WorkerProcess → Option (List ℕ) → Started
start_file host process none = returned false process
start_file host process (some worker) =
    if host.is_regular_file worker then launched (launch host worker) else returned false process

-- `process` is what the caller's pointer holds before; the pointer to it is not null.
abbrev pub rvc_worker_start : Host → Option WorkerProcess → Started
rvc_worker_start host process = start_file host process host.module_file

pub data Signal : Type 0 where
  sigterm sigkill : Signal

-- What a stop does outside the plugin.
pub data Effect : Type 0 where
  kill : ℤ → Signal → Effect
  delete_process : Effect

-- `seconds(5)`
abbrev pub exit_timeout_ms : ℕ
exit_timeout_ms = 5_000

-- The rest of a stop after the first wait.
unfoldable pub insist : ℤ → Watch → ℕ → Bool → Option (List Effect)
insist pid watch fuel true = some []
insist pid watch fuel false = elim (wait_for_exit watch exit_timeout_ms fuel) [
  | none ↦ none
  | some gone ↦ some (kill pid sigkill ∷ [])
]

-- The signals that a process with this pid gets; `none` is a wait that has not ended on its fuel.
unfoldable pub terminate : ℤ → Watch → Watch → ℕ → Option (List Effect)
terminate pid first second fuel = elim (wait_for_exit first exit_timeout_ms fuel) [
  | none ↦ none
  | some gone ↦ elim (insist pid second fuel gone) [
    | none ↦ none
    | some effects ↦ some (kill pid sigterm ∷ effects)
  ]
]

unfoldable pub rvc_worker_stop : Option WorkerProcess → Watch → Watch → ℕ → Option (List Effect)
rvc_worker_stop none first second fuel = some []
rvc_worker_stop (some process) first second fuel =
    let signals = terminate process.pid first second fuel in
    elim (if ltb_ℤ (pos 0) process.pid then signals else some []) [
      | none ↦ none
      | some effects ↦ some (effects ++ (delete_process ∷ []))
    ]
