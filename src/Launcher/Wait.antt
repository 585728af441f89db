-- ===== src/Launcher/Wait.antt =====
-- The loop of `wait_for_exit` ends, and says what it has heard.
use obs_rvc.Prelude.{
  ℕ, zero, suc, ◌+◌, ◌*◌, ◌≤◌, ◌<◌, ◌≡◌, refl, sym, ◌⊎◌, inl, inr, Bool, true, false, Option, some,
  leb, arith, if_cases, if◌then◌else◌, leb→le, ℕ_discrete,
}
use obs_rvc.Launcher.{
  Waited, reaped, running, no_child, interrupted, failed, Watch, wait_from, wait_for_exit,
}

abbrev is_gone : Waited → Bool
is_gone reaped = true
is_gone no_child = true
is_gone running = false
is_gone interrupted = false
is_gone failed = false

-- The child may yet be heard of.
abbrev is_pending : Waited → Bool
is_pending reaped = false
is_pending no_child = false
is_pending running = true
is_pending interrupted = true
is_pending failed = false

-- The clock of a watch goes on by the pause between two rounds, or more.
pub record IsTicking (watch : Watch) : Type 0 where
  pub begins : watch.start ≤ watch.clock 0
  pub ticks : (round : ℕ) → watch.clock round + 10 ≤ watch.clock (suc round)

-- An end of the loop: the round that ends it, with every earlier one in time and pending.
pub record IsEnd (watch : Watch) (deadline from fuel : ℕ) (gone : Bool) : Type 0 where
  pub round : ℕ
  not_before : from ≤ round
  in_fuel : round < from + fuel
  pub waited :
      (i : ℕ)
      → from ≤ i
      → i < round
      → (is_pending (watch.heard i) ≡ true) × (watch.clock i < deadline)
  says : gone ≡ is_gone (watch.heard round)
  decides : (is_pending (watch.heard round) ≡ false) ⊎ (deadline ≤ watch.clock round)

differs : {i from : ℕ} → ¬ i ≡ from → from ≤ i → suc from ≤ i
differs other low = omega arith

IsEnd-later :
    (watch : Watch) (deadline from fuel : ℕ) (gone : Bool)
    → is_pending (watch.heard from) ≡ true
    → watch.clock from < deadline
    → IsEnd watch deadline (suc from) fuel gone
    → IsEnd watch deadline from (suc fuel) gone
IsEnd-later watch deadline from fuel gone pending early v = record {
  round = v.round;
  not_before = let b = v.not_before in omega (arith, b);
  in_fuel = let b = v.in_fuel in omega (arith, b);
  waited = λ i low high. elim (ℕ_discrete i from) [
    | yes e ↦ rw e (pending, early)
    | no other ↦ v.waited i (differs other low) high
  ];
  says = v.says;
  decides = v.decides;
}

IsEnd-now :
    (watch : Watch) (deadline from fuel : ℕ) (gone : Bool)
    → gone ≡ is_gone (watch.heard from)
    → (is_pending (watch.heard from) ≡ false) ⊎ (deadline ≤ watch.clock from)
    → IsEnd watch deadline from (suc fuel) gone
IsEnd-now watch deadline from fuel gone says decides = record {
  round = from;
  not_before = omega arith;
  in_fuel = omega arith;
  waited = λ i low high. absurd (omega (arith, low, high));
  says = says;
  decides = decides;
}

-- The rounds end within the fuel where the clock reaches the deadline within it.
abbrev Ends : Watch → ℕ → ℕ → ℕ → Option Bool → Type 0
Ends watch deadline fuel from out =
    (gone : Bool) × ((out ≡ some gone) × IsEnd watch deadline from fuel gone)

Ends-pending :
    (watch : Watch) (deadline fuel from : ℕ) (rest : Option Bool)
    → is_pending (watch.heard from) ≡ true
    → is_gone (watch.heard from) ≡ false
    → (watch.clock from < deadline → Ends watch deadline fuel (suc from) rest)
    → Ends watch deadline
        (suc fuel)
        from
        (if leb deadline (watch.clock from) then some false else rest)
Ends-pending watch deadline fuel from rest pending here go =
    if_cases (Ends watch deadline (suc fuel) from) (leb deadline (watch.clock from)) (some false)
      rest
      (λ late. (
        false,
        (refl, IsEnd-now watch deadline from fuel false (sym here) (inr (leb→le _ _ late))),
      ))
      (λ early.
        let before : watch.clock from < deadline = ground arith in
        let (gone, (e, v)) = go before in
        (gone, (e, IsEnd-later watch deadline from fuel gone pending before v)))

wait_from-round :
    (watch : Watch) (deadline fuel from : ℕ) (heard : Waited)
    → watch.heard from ≡ heard
    → (watch.clock from < deadline
        → Ends watch deadline fuel (suc from) (wait_from watch deadline fuel (suc from)))
    → Ends watch deadline (suc fuel) from (wait_from watch deadline (suc fuel) from)
unfolding wait_from
wait_from-round watch deadline fuel from reaped at go =
    rw (wait_from, at)
      (true, (refl, IsEnd-now watch deadline from fuel true (rw at refl) (inl (rw at refl))))
wait_from-round watch deadline fuel from no_child at go =
    rw (wait_from, at)
      (true, (refl, IsEnd-now watch deadline from fuel true (rw at refl) (inl (rw at refl))))
wait_from-round watch deadline fuel from failed at go =
    rw (wait_from, at)
      (false, (refl, IsEnd-now watch deadline from fuel false (rw at refl) (inl (rw at refl))))
wait_from-round watch deadline fuel from running at go =
    rw (wait_from, at) (Ends-pending watch deadline fuel from _ (rw at refl) (rw at refl) go)
wait_from-round watch deadline fuel from interrupted at go =
    rw (wait_from, at) (Ends-pending watch deadline fuel from _ (rw at refl) (rw at refl) go)

wait_from-Ends :
    (watch : Watch) (deadline fuel from : ℕ)
    → IsTicking watch
    → deadline ≤ watch.clock from + 10 * fuel
    → Ends watch deadline (suc fuel) from (wait_from watch deadline (suc fuel) from)
wait_from-Ends watch deadline zero from t reach =
    wait_from-round watch deadline zero from _ refl (λ early. absurd (omega (arith, reach, early)))
wait_from-Ends watch deadline (suc fuel) from t reach =
    let tick = t.ticks from in
    wait_from-round watch deadline (suc fuel) from _ refl
      (λ early. wait_from-Ends watch deadline fuel (suc from) t (omega (arith, reach, tick)))

-- A wait ends: with a clock that goes on by 10 ms a round, a tenth of the timeout and one more round
-- are enough. It has then waited for each round before the last, none of which was late or final, and
-- it says that the child is gone where the last one heard so.
pub wait_for_exit-Ends :
    (watch : Watch) (timeout_ms fuel : ℕ)
    → IsTicking watch
    → timeout_ms ≤ 10 * fuel
    → Ends watch (watch.start + timeout_ms) (suc fuel) 0 (wait_for_exit watch timeout_ms (suc fuel))
unfolding wait_for_exit
wait_for_exit-Ends watch timeout_ms fuel t enough =
    let begins = t.begins in
    wait_from-Ends watch (watch.start + timeout_ms) fuel 0 t (omega (arith, enough, begins))
