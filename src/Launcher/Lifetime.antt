-- ===== src/Launcher/Lifetime.antt =====
-- From the start of the worker process to its stop: `rvc_worker_start` and `rvc_worker_stop`.
use obs_rvc.Prelude.{
  ℕ, zero, suc, ◌+◌, ◌*◌, ◌≤◌, ◌≡◌, refl, ◌⊎◌, inl, inr, Bool, true, false, Option, none, some,
  List, [], ◌∷◌, ◌++◌, arith, if_cases,
}
use obs_rvc.Prelude.Int.{ℤ, pos, negsuc, ltb_ℤ}
use obs_rvc.Launcher.{
  Watch, WorkerProcess, run_child, Host, Started, returned, in_child, forked, launched, start_file,
  rvc_worker_start, sigterm, sigkill, Effect, kill, delete_process, exit_timeout_ms, insist,
  terminate, rvc_worker_stop,
}
use obs_rvc.Launcher.Wait.{IsTicking, IsEnd, wait_for_exit-Ends}

-- What a call that returned leaves: a process with the positive pid that `fork` gave, for the file
-- of the module; or a failure, with a pointer as it was or to nothing.
abbrev IsOutcome : Host → Option WorkerProcess → Bool → Option WorkerProcess → Type 0
IsOutcome host before true after =
    (n : ℕ) × ((worker : List ℕ) × ((host.fork ≡ pos (suc n))
        × (after ≡ some (record { pid = pos (suc n) }))
        × (host.module_file ≡ some worker)
        × (host.is_regular_file worker ≡ true)))
IsOutcome host before false after = (after ≡ before) ⊎ (after ≡ none)

-- What may come of a start, in the parent and in the child.
abbrev pub IsStart : Host → Option WorkerProcess → Started → Type 0
IsStart host before (returned went_well after) = IsOutcome host before went_well after
IsStart host before (in_child fate) =
    (worker : List ℕ) × ((host.fork ≡ pos 0)
      × (host.module_file ≡ some worker)
      × (fate ≡ run_child host.child worker))

launched-IsStart :
    (host : Host) (before : Option WorkerProcess) (worker : List ℕ) (fork : ℤ)
    → host.module_file ≡ some worker
    → host.is_regular_file worker ≡ true
    → host.fork ≡ fork
    → IsStart host before (launched (forked host.child worker fork))
unfolding launched forked
launched-IsStart host before worker (negsuc n) found regular at = inr refl
launched-IsStart host before worker (pos zero) found regular at = (worker, (at, found, refl))
launched-IsStart host before worker (pos (suc n)) found regular at =
    (n, (worker, (at, refl, found, regular)))

start_file-IsStart :
    (host : Host) (before : Option WorkerProcess) (file : Option (List ℕ))
    → host.module_file ≡ file
    → IsStart host before (start_file host before file)
unfolding start_file
start_file-IsStart host before none found = inl refl
start_file-IsStart host before (some worker) found =
    if_cases (IsStart host before) (host.is_regular_file worker) _ _
      (λ regular. launched-IsStart host before worker host.fork found regular refl) (λ _. inl refl)

-- A start that returns true leaves a process whose positive pid is that of the fork, of a module
-- file that is regular; one that returns false leaves the pointer as it was, or null; and it goes
-- on in the child only, which runs that file or leaves.
pub rvc_worker_start_lem :
    (host : Host) (before : Option WorkerProcess)
    → IsStart host before (rvc_worker_start host before)
rvc_worker_start_lem host before = start_file-IsStart host before host.module_file refl

-- The signals to a process that a stop waited for as `gone` says.
abbrev pub signals_of : ℤ → Bool → List Effect
signals_of pid true = kill pid sigterm ∷ []
signals_of pid false = kill pid sigterm ∷ kill pid sigkill ∷ []

insist-ends :
    (pid : ℤ) (watch : Watch) (fuel : ℕ) (gone : Bool)
    → IsTicking watch
    → exit_timeout_ms ≤ 10 * fuel
    → (rest : List Effect) × ((insist pid watch (suc fuel) gone ≡ some rest)
        × (kill pid sigterm ∷ rest ≡ signals_of pid gone))
unfolding insist
insist-ends pid watch fuel true t enough = ([], (refl, refl))
insist-ends pid watch fuel false t enough =
    let (gone, (e, _)) = wait_for_exit-Ends watch exit_timeout_ms fuel t enough in
    (kill pid sigkill ∷ [], (rw (insist, e) refl, refl))

terminate-ends :
    (pid : ℤ) (first second : Watch) (fuel : ℕ)
    → IsTicking first
    → IsTicking second
    → exit_timeout_ms ≤ 10 * fuel
    → (gone : Bool) × ((terminate pid first second (suc fuel) ≡ some (signals_of pid gone))
        × IsEnd first (first.start + exit_timeout_ms) 0 (suc fuel) gone)
unfolding terminate
terminate-ends pid first second fuel t t' enough =
    let (gone, (e, v)) = wait_for_exit-Ends first exit_timeout_ms fuel t enough in
    let (rest, (e', same)) = insist-ends pid second fuel gone t' enough in
    (gone, (rw (terminate, e, e', same) refl, v))

-- A stop of a process with a positive pid ends, on clocks that go on by 10 ms a round and 501
-- rounds for each wait. It sends SIGTERM to that pid, then SIGKILL just where the wait for the end
-- of the process said that it is not gone, and frees the object.
pub rvc_worker_stop_lem :
    (n : ℕ) (first second : Watch) (fuel : ℕ)
    → IsTicking first
    → IsTicking second
    → exit_timeout_ms ≤ 10 * fuel
    → (gone : Bool) × ((rvc_worker_stop
            (some (record { pid = pos (suc n) }))
            first
            second
            (suc fuel)
          ≡ some (signals_of (pos (suc n)) gone ++ (delete_process ∷ [])))
        × IsEnd first (first.start + exit_timeout_ms) 0 (suc fuel) gone)
unfolding rvc_worker_stop
rvc_worker_stop_lem n first second fuel t t' enough =
    let (gone, (e, v)) = terminate-ends (pos (suc n)) first second fuel t t' enough in
    let positive : ltb_ℤ (pos 0) (pos (suc n)) ≡ true = ground arith in
    (gone, (rw (rvc_worker_stop, positive, e) refl, v))
