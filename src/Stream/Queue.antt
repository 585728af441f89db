-- ===== src/Stream/Queue.antt =====
-- `AudioSampleQueue` of plugin/src/rvc/filter/rvc-filter-stream.cpp: a ring of samples in a vector
-- that grows. A method that changes the queue returns the new one.
pub mod Growth
pub mod Window
mod Copies
pub mod Refine
pub mod Append
pub mod Run
use obs_rvc.Prelude.{
  ℕ, zero, suc, ◌+◌, ◌-◌, ◌*◌, ◌%◌, ◌^◌, min, max, Bool, true, false, List, [], ltb, leb, ◌==◌,
  if◌then◌else◌, length, is_nil, replicate, memcpy, resize,
}

pub record AudioSampleQueue {ℓ} (A : Type ℓ) : Type ℓ where
  pub storage : List A
  pub head : ℕ
  pub count : ℕ

-- `while (capacity < required) capacity *= 2`, with the wrap of `size_t`.
unfoldable pub grow : ℕ → ℕ → ℕ → ℕ
grow zero capacity required = capacity
grow (suc fuel) capacity required = elim (ltb capacity required) [
  | true ↦ grow fuel (capacity * 2 % 2 ^ 64) required
  | false ↦ capacity
]

abbrev pub minimum_capacity : ℕ
minimum_capacity = 4096

-- The loop doubles a capacity of at least one, so 64 rounds are enough.
abbrev pub grow_fuel : ℕ
grow_fuel = 64

module _ {ℓ} {A : Type ℓ} where
  abbrev pub fresh : AudioSampleQueue A
  fresh = record { storage = []; head = 0; count = 0 }

  abbrev pub size : AudioSampleQueue A → ℕ
  size q = q.count

  unfoldable pub clear : AudioSampleQueue A → AudioSampleQueue A
  clear q = record q { head = 0; count = 0 }

  -- The two copies that straighten `count` elements from `head` on into the front of `into`.
  unfoldable pub copy_out : AudioSampleQueue A → List A → ℕ → List A
  copy_out q into requested =
      let first = min requested (length q.storage - q.head) in
      let front = memcpy into 0 q.storage q.head first in
      if ltb first requested then memcpy front first q.storage 0 (requested - first) else front

  unfoldable pub copy_front : A → AudioSampleQueue A → List A → ℕ → List A
  copy_front nought q destination requested =
      let available = min requested q.count in
      let resized = resize nought destination available in
      if available == 0 then resized else copy_out q resized available

  unfoldable pub discard : AudioSampleQueue A → ℕ → AudioSampleQueue A
  discard q requested =
      let discarded = min requested q.count in
      record q {
        head = if is_nil q.storage then 0 else (q.head + discarded) % length q.storage;
        count = q.count - discarded;
      }

  -- The vector that `ensure_capacity` swaps in.
  unfoldable pub expanded : A → AudioSampleQueue A → ℕ → List A
  expanded nought q required =
      let capacity = grow grow_fuel (max (length q.storage) minimum_capacity) required in
      let blank = replicate capacity nought in
      if q.count == 0 then blank else copy_out q blank q.count

  unfoldable pub ensure_capacity : A → AudioSampleQueue A → ℕ → AudioSampleQueue A
  ensure_capacity nought q required =
      if leb required (length q.storage)
      then q
      else record q { storage = expanded nought q required; head = 0 }

  -- The two copies of `append`, into the storage from `tail_index` on.
  unfoldable pub write_at : List A → ℕ → List A → List A
  write_at storage tail_index values =
      let first = min (length values) (length storage - tail_index) in
      let front = memcpy storage tail_index values 0 first in
      if ltb first (length values)
      then memcpy front 0 values first (length values - first)
      else front

  -- The body of `append` behind the growth of the storage.
  unfoldable pub write_back : AudioSampleQueue A → List A → AudioSampleQueue A
  write_back q values = record q {
    storage = write_at q.storage ((q.head + q.count) % length q.storage) values;
    count = q.count + length values;
  }

  unfoldable pub append : A → AudioSampleQueue A → List A → AudioSampleQueue A
  append nought q values =
      if is_nil values
      then q
      else write_back (ensure_capacity nought q (q.count + length values)) values
