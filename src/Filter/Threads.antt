-- ===== src/Filter/Threads.antt =====
-- The threads of the settings page in plugin/src/rvc/filter/rvc-filter.cpp: the defaults, and
-- `cpu_thread_allocation_modified`.
use obs_rvc.Prelude.{
  ℕ, ◌/◌, ◌≤◌, ◌≡◌, refl, max, Bool, true, false, leb, arith, if◌then◌else◌, Bool-cases, inl, inr,
}
use obs_rvc.Prelude.Int.{ℤ, pos, ◌-ℤ◌, ◌+ℤ◌, -ℤ_parts, +ℤ_parts, ◌≤ℤ◌, ltb_ℤ}

-- `std::clamp`
unfoldable pub clamp : ℤ → ℤ → ℤ → ℤ
clamp value low high = if ltb_ℤ value low then low else if ltb_ℤ high value then high else value

pub record Threads : Type 0 where
  pub inference_threads : ℤ
  pub obs_reserved_threads : ℤ

-- The upper limits of the two fields of the page; the lower ones are 1 and 0.
pub record ThreadLimits : Type 0 where
  pub inference_limit : ℤ
  pub reserved_limit : ℤ

-- The settings hold numbers of `int32_t`. The Boolean says that the field for inference changed.
unfoldable pub cpu_thread_allocation_modified : ℤ → Bool → Threads → Threads × ThreadLimits
cpu_thread_allocation_modified total inference_changed t =
    let given_inference = clamp t.inference_threads (pos 1) total in
    let left_reserved = clamp t.obs_reserved_threads (pos 0) (total -ℤ given_inference) in
    let given_reserved = clamp t.obs_reserved_threads (pos 0) (total -ℤ pos 1) in
    let left_inference = clamp t.inference_threads (pos 1) (total -ℤ given_reserved) in
    let out : Threads =
      if inference_changed
      then record { inference_threads = given_inference; obs_reserved_threads = left_reserved }
      else record { inference_threads = left_inference; obs_reserved_threads = given_reserved } in
    (
      out,
      record {
        inference_limit = total -ℤ out.obs_reserved_threads;
        reserved_limit = total -ℤ out.inference_threads;
      },
    )

-- The clamps of `rvc_filter_update`.
unfoldable pub update_threads : ℤ → Threads → Threads
update_threads total t =
    let reserved = clamp t.obs_reserved_threads (pos 0) (total -ℤ pos 1) in
    record {
      inference_threads = clamp t.inference_threads (pos 1) (total -ℤ reserved);
      obs_reserved_threads = reserved;
    }

-- The threads of `rvc_filter_defaults`, where `chosen` is the setting for OBS that is read back.
unfoldable pub default_reserved_threads : ℕ → ℕ
default_reserved_threads total = if leb 4 total then max 1 (total / 8) else 0

unfoldable pub default_inference_threads : ℕ → ℤ → ℤ
default_inference_threads total chosen =
    let left = pos total -ℤ clamp chosen (pos 0) (pos total -ℤ pos 1) in
    let few = if ltb_ℤ left (pos 8) then left else pos 8 in if ltb_ℤ (pos 1) few then few else pos 1

-- At least one thread for inference, none below zero for OBS, and both together no more than there
-- are.
pub record IsShared (total : ℤ) (t : Threads) : Type 0 where
  pub some_inference : pos 1 ≤ℤ t.inference_threads
  pub some_reserved : pos 0 ≤ℤ t.obs_reserved_threads
  pub together : t.inference_threads +ℤ t.obs_reserved_threads ≤ℤ total

pub clamp_bounds :
    (value low high : ℤ)
    → low ≤ℤ high
    → (low ≤ℤ clamp value low high) × (clamp value low high ≤ℤ high)
unfolding clamp
clamp_bounds value low high le = ground arith

-- A value within the bounds stays.
pub clamp_within :
    (value low high : ℤ) → low ≤ℤ value → value ≤ℤ high → clamp value low high ≡ value
unfolding clamp
clamp_within value low high above below = ground arith

-- The reserved threads first, and then those for inference out of the rest.
pub update_threads-IsShared :
    (total : ℤ) (t : Threads) → pos 1 ≤ℤ total → IsShared total (update_threads total t)
unfolding update_threads
update_threads-IsShared total t some_thread =
    let reserved = clamp t.obs_reserved_threads (pos 0) (total -ℤ pos 1) in
    let (low, high) =
      clamp_bounds t.obs_reserved_threads (pos 0) (total -ℤ pos 1)
        (omega (arith, -ℤ_parts total (pos 1))) in
    let left = total -ℤ reserved in
    let (low', high') =
      clamp_bounds t.inference_threads (pos 1) left
        (omega (arith, -ℤ_parts total (pos 1), -ℤ_parts total reserved)) in
    let inference = clamp t.inference_threads (pos 1) left in
    record {
      some_inference = low';
      some_reserved = low;
      together = omega (arith, -ℤ_parts total reserved, +ℤ_parts inference reserved);
    }

-- The threads for inference first, and then the reserved ones out of the rest.
inference_first-IsShared :
    (total : ℤ) (t : Threads)
    → pos 1 ≤ℤ total
    → let inference = clamp t.inference_threads (pos 1) total in
      IsShared total (record {
        inference_threads = inference;
        obs_reserved_threads = clamp t.obs_reserved_threads (pos 0) (total -ℤ inference);
      })
inference_first-IsShared total t some_thread =
    let inference = clamp t.inference_threads (pos 1) total in
    let (low, high) = clamp_bounds t.inference_threads (pos 1) total some_thread in
    let left = total -ℤ inference in
    let (low', high') =
      clamp_bounds t.obs_reserved_threads (pos 0) left (omega (arith, -ℤ_parts total inference)) in
    let reserved = clamp t.obs_reserved_threads (pos 0) left in
    record {
      some_inference = low;
      some_reserved = low';
      together = omega (arith, -ℤ_parts total inference, +ℤ_parts inference reserved);
    }

-- A sound allocation lies within the limits that go with it.
IsShared-limits :
    {total : ℤ} {t : Threads}
    → IsShared total t
    → (t.inference_threads ≤ℤ total -ℤ t.obs_reserved_threads)
      × (t.obs_reserved_threads ≤ℤ total -ℤ t.inference_threads)
IsShared-limits {total} {t} v =
    let both = +ℤ_parts t.inference_threads t.obs_reserved_threads in
    (
      omega (arith, both, -ℤ_parts total t.obs_reserved_threads),
      omega (arith, both, -ℤ_parts total t.inference_threads),
    )

-- Where there is a thread at all, a change of either field leaves a sound allocation, in which each
-- field lies within the limit that the page shows for it.
pub allocation_lem :
    (total : ℤ) (inference_changed : Bool) (t : Threads)
    → pos 1 ≤ℤ total
    → let (t', limits) = cpu_thread_allocation_modified total inference_changed t in
      IsShared total t'
      × (t'.inference_threads ≤ℤ limits.inference_limit)
      × (t'.obs_reserved_threads ≤ℤ limits.reserved_limit)
unfolding cpu_thread_allocation_modified update_threads
allocation_lem total true t some_thread =
    let v = inference_first-IsShared total t some_thread in
    (v, (IsShared-limits v).0, (IsShared-limits v).1)
allocation_lem total false t some_thread =
    let v = update_threads-IsShared total t some_thread in
    (v, (IsShared-limits v).0, (IsShared-limits v).1)

-- A sound allocation stays as it is, whichever field is said to have changed, and an update of the
-- filter keeps it too.
pub allocation_stable :
    (total : ℤ) (inference_changed : Bool) (t : Threads)
    → IsShared total t
    → ((cpu_thread_allocation_modified total inference_changed t).0 ≡ t)
      × (update_threads total t ≡ t)
unfolding cpu_thread_allocation_modified update_threads
allocation_stable total inference_changed t v =
    let both = +ℤ_parts t.inference_threads t.obs_reserved_threads in
    let (below, below') = IsShared-limits v in
    let inference =
      clamp_within t.inference_threads (pos 1) total v.some_inference (omega (arith, both)) in
    let reserved =
      clamp_within t.obs_reserved_threads (pos 0) (total -ℤ pos 1) v.some_reserved
        (omega (arith, both, -ℤ_parts total (pos 1))) in
    let inference' =
      clamp_within t.inference_threads (pos 1) (total -ℤ t.obs_reserved_threads) v.some_inference
        below in
    let reserved' =
      clamp_within t.obs_reserved_threads (pos 0) (total -ℤ t.inference_threads) v.some_reserved
        below' in
    rw (inference, reserved, inference', reserved')
      (elim (Bool-cases inference_changed) [
        | inl e ↦ rw e (refl, refl)
        | inr e ↦ rw e (refl, refl)
      ])

few_share :
    (left : ℤ)
    → pos 1 ≤ℤ left
    → let few = if ltb_ℤ left (pos 8) then left else pos 8 in
      (if ltb_ℤ (pos 1) few then few else pos 1) ≤ℤ left
few_share left some_left = ground arith

-- The defaults share the threads soundly, whatever the setting for OBS is.
pub defaults-IsShared :
    (total : ℕ) (chosen : ℤ)
    → 1 ≤ total
    → IsShared (pos total) (record {
      inference_threads = default_inference_threads total chosen;
      obs_reserved_threads = clamp chosen (pos 0) (pos total -ℤ pos 1);
    })
unfolding default_inference_threads
defaults-IsShared total chosen some_thread =
    let reserved = clamp chosen (pos 0) (pos total -ℤ pos 1) in
    let (low, high) =
      clamp_bounds chosen (pos 0) (pos total -ℤ pos 1)
        (omega (arith, -ℤ_parts (pos total) (pos 1))) in
    let parts = -ℤ_parts (pos total) (pos 1) in
    let left = -ℤ_parts (pos total) reserved in
    record {
      some_inference = ground arith;
      some_reserved = low;
      together = omega (
        arith,
        parts,
        left,
        few_share (pos total -ℤ reserved),
        +ℤ_parts (default_inference_threads total chosen) reserved,
      );
    }
