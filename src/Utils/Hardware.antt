-- ===== src/Utils/Hardware.antt =====
-- `available_cpu_count` of plugin/src/utils/hardware-utils.hpp, as it is built for Linux.
use obs_rvc.Prelude.{
  ℕ, ◌+◌, ◌-◌, ◌/◌, ◌≤◌, ◌≡◌, ◌⊎◌, min, max, Bool, ◌&&◌, ◌==◌, Option, none, some, ltb, arith,
  if◌then◌else◌,
}

-- A quota of CPU time for a control group: what the two files of version 1, or the two words of
-- the file of version 2, were read as. A number that is not positive is 0 here: the source leaves
-- such a quota aside.
pub record CpuQuota : Type 0 where
  quota : ℕ
  period : ℕ

-- The files of both versions; `none` is a file that could not be read. `limited` is false for the
-- word `max`, and `quota` is 0 where the other word is no number.
pub record CpuLimits : Type 0 where
  cgroup_v2 : Option CpuQuota
  limited : Bool
  cgroup_v1 : Option CpuQuota

-- A quota in whole threads, rounded up.
abbrev quota_threads : CpuQuota → ℕ
quota_threads q = max 1 ((q.quota + q.period - 1) / q.period)

-- The two branches on the files.
unfoldable within_quota : CpuLimits → ℕ → ℕ
within_quota limits available = elim limits.cgroup_v2 [
  | none ↦ elim limits.cgroup_v1 [
    | none ↦ available
    | some q ↦
        if ltb 0 q.quota && ltb 0 q.period then min available (quota_threads q) else available
  ]
  | some q ↦
      if limits.limited && ltb 0 q.period
      then (if ltb 0 q.quota then min available (quota_threads q) else available)
      else elim limits.cgroup_v1 [
        | none ↦ available
        | some q' ↦
            if ltb 0 q'.quota && ltb 0 q'.period
            then min available (quota_threads q')
            else available
      ]
]

-- `hardware_threads` is what `std::thread::hardware_concurrency` says, and `affinity_threads` the
-- size of the affinity mask, or 0 where there is none.
unfoldable available_cpu_count : ℕ → ℕ → CpuLimits → ℕ
available_cpu_count hardware_threads affinity_threads limits =
    let hardware = if hardware_threads == 0 then 1 else hardware_threads in
    let allowed = if ltb 0 affinity_threads then min hardware affinity_threads else hardware in
    min (max (within_quota limits allowed) 1) 256

-- A quota never adds a thread, and never takes the last one.
within_quota_bounds :
    (limits : CpuLimits) (available : ℕ)
    → 1 ≤ available
    → (1 ≤ within_quota limits available) × (within_quota limits available ≤ available)
unfolding within_quota
within_quota_bounds limits available some_thread = ground arith

-- The count lies between 1 and 256, and is at most the number of threads of the hardware and of the
-- affinity mask, where these are known.
available_cpu_count_bounds :
    (hardware_threads affinity_threads : ℕ) (limits : CpuLimits)
    → let count = available_cpu_count hardware_threads affinity_threads limits in
      (1 ≤ count)
      × (count ≤ 256)
      × (count ≤ max 1 hardware_threads)
      × ((affinity_threads ≡ 0) ⊎ (count ≤ affinity_threads))
unfolding available_cpu_count
available_cpu_count_bounds hardware_threads affinity_threads limits =
    let hardware = if hardware_threads == 0 then 1 else hardware_threads in
    let allowed = if ltb 0 affinity_threads then min hardware affinity_threads else hardware in
    let (some_left, fewer) = within_quota_bounds limits allowed (ground arith) in ground arith
