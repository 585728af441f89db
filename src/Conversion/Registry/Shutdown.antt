-- ===== src/Conversion/Registry/Shutdown.antt =====
-- Every worker has an identity of its own, and none outlives `stop_all` unstopped.
use mathlib.Core.HLevel.{⊥_prop}
use mathlib.Core.Logic.Or
use mathlib.Core.List.{Nodup, Nodup-cons, Nodup-nil, Mem, eq-or-mem_of_mem-cons, not-mem-nil}
use obs_rvc.Prelude.{
  not_both, ℕ, ◌≤◌, ◌<◌, ◌≡◌, refl, ◌⊎◌, inl, inr, Bool, true, false, ◌==◌, List, [], ◌∷◌, map,
  arith, if_cases, Bool-cases,
}
use obs_rvc.Float.{Floats}
use obs_rvc.Conversion.Worker.{stop}
use obs_rvc.Conversion.System.{new_worker}
use obs_rvc.Conversion.Registry.Keeps.{perform-same_stream, perform-still_stopping}
use obs_rvc.Conversion.Registry.{
  Object, Registry, no_workers, construct, stopped, registered_at, register, without, destroy,
  stopped_if_registered, stop_all, called_at, called, Call, Act, constructing, registering,
  destroying, stopping_all, calling, History, nothing, after,
}

abbrev pub stream_of : {F : Type 0} → Object F → ℕ
stream_of o = o.worker.stream_id

-- The identities fall from a bound on: newer objects stand in front.
abbrev IsFalling : {F : Type 0} → ℕ → List (Object F) → Type 0
IsFalling bound [] = Unit
IsFalling bound (o ∷ os) = (stream_of o < bound) × IsFalling (stream_of o) os

-- No registered worker runs on.
abbrev pub AllStopped : {F : Type 0} → List (Object F) → Type 0
AllStopped [] = Unit
AllStopped (o ∷ os) = ((o.registered ≡ false) ⊎ (o.worker.stopping ≡ true)) × AllStopped os

record IsOrderly (F : Type 0) (r : Registry F) : Type 0 where
  numbered : IsFalling r.next_stream_id r.objects
  shut : (r.workers_stopping ≡ false) ⊎ AllStopped r.objects

IsFalling-higher :
    {F : Type 0} (low high : ℕ) (os : List (Object F))
    → low ≤ high
    → IsFalling low os
    → IsFalling high os
IsFalling-higher low high [] le v = tt
IsFalling-higher low high (o ∷ os) le (below, rest) = (omega arith, rest)

IsFalling-map :
    {F : Type 0} (f : Object F → Object F) (bound : ℕ) (os : List (Object F))
    → ((o : Object F) → stream_of (f o) ≡ stream_of o)
    → IsFalling bound os
    → IsFalling bound (map f os)
IsFalling-map f bound [] same v = tt
IsFalling-map f bound (o ∷ os) same (below, rest) =
    (rw (same o) below, rw (same o) (IsFalling-map f (stream_of o) os same rest))

AllStopped-map :
    {F : Type 0} (f : Object F → Object F) (os : List (Object F))
    → ((o : Object F)
        → (o.registered ≡ false) ⊎ (o.worker.stopping ≡ true)
        → ((f o).registered ≡ false) ⊎ ((f o).worker.stopping ≡ true))
    → AllStopped os
    → AllStopped (map f os)
AllStopped-map f [] keep v = tt
AllStopped-map f (o ∷ os) keep (first, rest) = (keep o first, AllStopped-map f os keep rest)

module _ {F : Type 0} ⦃fl : Floats F⦄ where
  IsFalling-without :
      (address bound : ℕ) (os : List (Object F))
      → IsFalling bound os
      → IsFalling bound (without address os)
  unfolding without
  IsFalling-without address bound [] v = tt
  IsFalling-without address bound (o ∷ os) (below, rest) =
      let kept = IsFalling-without address (stream_of o) os rest in
      if_cases (IsFalling bound) (o.address == address) _ _
        (λ _. IsFalling-higher (stream_of o) bound (without address os) (omega arith) kept)
        (λ _. (below, kept))

  AllStopped-without :
      (address : ℕ) (os : List (Object F)) → AllStopped os → AllStopped (without address os)
  unfolding without
  AllStopped-without address [] v = tt
  AllStopped-without address (o ∷ os) (first, rest) =
      let kept = AllStopped-without address os rest in
      if_cases AllStopped (o.address == address) _ _ (λ _. kept) (λ _. (first, kept))

  stream_of-registered_at :
      (stopping : Bool) (address : ℕ) (o : Object F)
      → stream_of (registered_at stopping address o) ≡ stream_of o
  unfolding stop
  stream_of-registered_at stopping address o = ground arith

  stream_of-stopped_if_registered :
      (o : Object F) → stream_of (stopped_if_registered o) ≡ stream_of o
  unfolding stop
  stream_of-stopped_if_registered o = ground arith

  stream_of-called_at :
      (address : ℕ) (call : Call F)
      → (o : Object F) → stream_of (called_at address call o) ≡ stream_of o
  stream_of-called_at address call o =
      if_cases (λ p. stream_of p ≡ stream_of o) (o.address == address) _ o
        (λ _. perform-same_stream call o.worker) (λ _. refl)

  -- A registered worker that is not to run on.
  abbrev IsShut : Object F → Type 0
  IsShut o = (o.registered ≡ false) ⊎ (o.worker.stopping ≡ true)

  IsShut-stopped_if_registered : (o : Object F) → IsShut (stopped_if_registered o)
  unfolding stop
  IsShut-stopped_if_registered o =
      if_cases IsShut o.registered (stopped o) o (λ _. inr refl) (λ out. inl out)

  IsShut-registered_at :
      (address : ℕ) (o : Object F) → IsShut o → IsShut (registered_at true address o)
  unfolding stop
  IsShut-registered_at address o shut =
      if_cases IsShut (o.address == address) _ o (λ _. inr refl) (λ _. shut)

  IsShut-called_at :
      (address : ℕ) (call : Call F) → (o : Object F) → IsShut o → IsShut (called_at address call o)
  IsShut-called_at address call o shut =
      if_cases IsShut (o.address == address) _ o
        (λ _. elim shut [
          | inl out ↦ inl out
          | inr told ↦ inr (perform-still_stopping call o.worker told)
        ])
        (λ _. shut)

  stop_all-stops : (os : List (Object F)) → AllStopped (map stopped_if_registered os)
  stop_all-stops [] = tt
  stop_all-stops (o ∷ os) = (IsShut-stopped_if_registered o, stop_all-stops os)

  register-IsOrderly :
      (r : Registry F) (address : ℕ) → IsOrderly F r → IsOrderly F (register r address)
  unfolding register
  register-IsOrderly r address v = record {
    numbered =
        IsFalling-map (registered_at r.workers_stopping address) _ r.objects
          (stream_of-registered_at r.workers_stopping address) v.numbered;
    shut = elim (Bool-cases r.workers_stopping) [
      | inr going ↦ inl going
      | inl over ↦ elim v.shut [
        | inl going ↦ absurd (not_both going over)
        | inr all ↦ inr (
            rw over (
              AllStopped-map (registered_at true address) r.objects (IsShut-registered_at address)
                all))
      ]
    ];
  }

  Act-IsOrderly : {r s : Registry F} → IsOrderly F r → Act r s → IsOrderly F s
  unfolding construct destroy stop_all called new_worker
  Act-IsOrderly v (constructing r options address fits) = record {
    numbered = (omega (arith, fits), v.numbered);
    shut = elim v.shut [ inl going ↦ inl going | inr all ↦ inr (inl refl, all) ];
  }
  Act-IsOrderly v (registering r address) = register-IsOrderly r address v
  Act-IsOrderly v (destroying r address) = record {
    numbered = IsFalling-without address _ r.objects v.numbered;
    shut = elim v.shut [
      | inl going ↦ inl going
      | inr all ↦ inr (AllStopped-without address r.objects all)
    ];
  }
  Act-IsOrderly v (stopping_all r) = record {
    numbered =
        IsFalling-map stopped_if_registered _ r.objects stream_of-stopped_if_registered v.numbered;
    shut = inr (stop_all-stops r.objects);
  }
  Act-IsOrderly v (calling r address call) = record {
    numbered =
        IsFalling-map (called_at address call) _ r.objects (stream_of-called_at address call)
          v.numbered;
    shut = elim v.shut [
      | inl going ↦ inl going
      | inr all ↦
          inr
            (AllStopped-map (called_at address call) r.objects (IsShut-called_at address call) all)
    ];
  }

  History-IsOrderly : {r s : Registry F} → IsOrderly F r → History r s → IsOrderly F s
  History-IsOrderly v nothing = v
  History-IsOrderly v (after past act) = Act-IsOrderly (History-IsOrderly v past) act

  no_workers-IsOrderly : IsOrderly F no_workers
  unfolding no_workers
  no_workers-IsOrderly = record { numbered = tt; shut = inl refl }

  not_above :
      (bound n : ℕ) (os : List (Object F))
      → bound ≤ n
      → IsFalling bound os
      → ¬ Mem n (map stream_of os)
  not_above bound n [] high v = not-mem-nil
  not_above bound n (o ∷ os) high (below, rest) = λ inside.
      Or.elim ⊥_prop (eq-or-mem_of_mem-cons inside)
        (λ here. let same : n ≡ stream_of o = here in absurd (omega (arith, same)))
        (not_above (stream_of o) n os (omega arith) rest)

  IsFalling-Nodup :
      (bound : ℕ) (os : List (Object F)) → IsFalling bound os → Nodup (map stream_of os)
  IsFalling-Nodup bound [] v = Nodup-nil
  IsFalling-Nodup bound (o ∷ os) (below, rest) = Nodup-cons.1 (
    not_above (stream_of o) (stream_of o) os (omega arith) rest,
    IsFalling-Nodup (stream_of o) os rest,
  )

  -- Whatever is constructed, registered, called and destroyed, the workers that exist have
  -- identities of their own, fewer than 2^64 being given out.
  pub identities_distinct :
      {r : Registry F} → History no_workers r → Nodup (map stream_of r.objects)
  identities_distinct past =
      let v = History-IsOrderly no_workers-IsOrderly past in IsFalling-Nodup _ _ v.numbered

  still_shut :
      {r s : Registry F} → r.workers_stopping ≡ true → History r s → s.workers_stopping ≡ true
  unfolding construct register destroy stop_all called
  still_shut over nothing = over
  still_shut over (after past (constructing r options address fits)) = still_shut over past
  still_shut over (after past (registering r address)) = still_shut over past
  still_shut over (after past (destroying r address)) = still_shut over past
  still_shut over (after past (stopping_all r)) = refl
  still_shut over (after past (calling r address call)) = still_shut over past

  -- After `stop_all`, no registered worker runs on, a worker that is constructed later neither,
  -- whatever else is done.
  pub stop_all-lasts :
      {r s : Registry F} → History no_workers r → History (stop_all r) s → AllStopped s.objects
  unfolding stop_all
  stop_all-lasts {r} {s} past later =
      let v = Act-IsOrderly (History-IsOrderly no_workers-IsOrderly past) (stopping_all r) in
      elim (History-IsOrderly v later).shut [
        | inl going ↦ absurd (not_both going (still_shut refl later))
        | inr all ↦ all
      ]
