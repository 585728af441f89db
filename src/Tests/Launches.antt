-- ===== src/Tests/Launches.antt =====
-- A worker process that is started, and one that outlives its SIGTERM.
use obs_rvc.Prelude.{
  suc, ◌+◌, ◌*◌, ◌≡◌, true, false, Bool, some, [], ◌∷◌, ◌++◌, arith, ◌==◌, if◌then◌else◌,
}
use obs_rvc.Prelude.Int.{pos}
use obs_rvc.Launcher.{
  reaped, running, Watch, Host, delete_process, exit_timeout_ms, rvc_worker_stop,
}
use obs_rvc.Launcher.Wait.{IsTicking, IsEnd}
use obs_rvc.Launcher.Lifetime.{signals_of, rvc_worker_stop_lem}

-- The child is gone at the third round.
abbrev pub soon : Watch
soon = record {
  start = 7;
  heard = λ round. if round == 2 then reaped else running;
  clock = λ round. 8 + 11 * round;
}

abbrev pub never : Watch
never = record { start = 0; heard = λ round. running; clock = λ round. 10 * round }

pub soon-IsTicking : IsTicking soon
soon-IsTicking = record { begins = omega arith; ticks = λ round. omega arith }

pub never-IsTicking : IsTicking never
never-IsTicking = record { begins = omega arith; ticks = λ round. omega arith }

abbrev pub host : Host
host = record {
  module_file = some (47 ∷ 119 ∷ []);
  is_regular_file = λ path. true;
  fork = pos 42;
  child = record {
    prctl_fails = false;
    is_orphan = false;
    chdir_fails = false;
    execl_fails = false;
  };
}

rvc_worker_stop_lem_example :
    (gone : Bool) × ((rvc_worker_stop (some (record { pid = pos (suc 41) })) never soon (suc 500)
        ≡ some (signals_of (pos (suc 41)) gone ++ (delete_process ∷ [])))
      × IsEnd never (never.start + exit_timeout_ms) 0 (suc 500) gone)
rvc_worker_stop_lem_example =
    rvc_worker_stop_lem 41 never soon 500 never-IsTicking soon-IsTicking (omega arith)
