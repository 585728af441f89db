-- ===== src/Conversion/Registry.antt =====
-- All the workers of the program: `workers`, `workers_stopping` and `next_stream_id` of
-- plugin/src/rvc/filter/rvc-filter-conversion.cpp, with the constructor, the destructor and
-- `stop_all` of `ConversionWorker`.
pub mod Keeps
pub mod Shutdown
use obs_rvc.Prelude.{
  ℕ, zero, suc, ◌+◌, ◌%◌, ◌^◌, ◌≤◌, ◌<◌, ◌≡◌, refl, sym, ap, ◌∙◌, ◌⊎◌, inl, inr, Bool, true, false,
  not, ◌&&◌, ◌==◌, if◌then◌else◌, List, [], ◌∷◌, map, arith, if_cases,
}
use obs_rvc.Float.{Floats}
use obs_rvc.Stream.Assembler.{StreamAssembler}
use obs_rvc.Conversion.Codec.{AudioData}
use obs_rvc.Conversion.Worker.{
  Impl, ConversionOptions, reset, submit, receive_take, receive_finish, stop, next_word,
}
use obs_rvc.Conversion.Loop.{Job, take_job, deliver, adapt}
use obs_rvc.Conversion.System.{new_worker}

-- A worker at its address. It is registered where the set `workers` holds the address.
pub record Object (F : Type 0) : Type 0 where
  pub address : ℕ
  pub worker : Impl F
  pub registered : Bool

pub record Registry (F : Type 0) : Type 0 where
  pub objects : List (Object F)
  pub workers_stopping : Bool
  pub next_stream_id : ℕ

-- What the others do to one worker, and what its thread does to it.
pub data Call (F : Type 0) : Type 0 where
  resetting : ConversionOptions F → Call F
  submitting : ℕ → AudioData F → ℕ → ℕ → Call F
  taking : List F → ℕ → ℕ → Call F
  finishing : ℕ → F → Call F
  telling : Call F
  working : StreamAssembler F → List F → List F → Call F
  handing_over : Job F → List F → Call F
  adjusting : Job F → Bool → Call F

module _ {F : Type 0} ⦃fl : Floats F⦄ where
  unfoldable pub no_workers : Registry F
  no_workers = record { objects = []; workers_stopping = false; next_stream_id = 1 }

  abbrev pub new_object : Registry F → ConversionOptions F → ℕ → Object F
  new_object r options address = record {
    address = address;
    worker = new_worker options r.next_stream_id;
    registered = false;
  }

  -- The constructor up to its lock: `fetch_add` gives the worker its identity.
  unfoldable pub construct : Registry F → ConversionOptions F → ℕ → Registry F
  construct r options address = record r {
    objects = new_object r options address ∷ r.objects;
    next_stream_id = next_word r.next_stream_id;
  }

  abbrev pub stopped : Object F → Object F
  stopped o = record o { worker = stop o.worker }

  -- The rest of the constructor, under the lock.
  abbrev pub registered_at : Bool → ℕ → Object F → Object F
  registered_at stopping address o =
      let o' = record o { registered = true } in
      if o.address == address then (if stopping then stopped o' else o') else o

  unfoldable pub register : Registry F → ℕ → Registry F
  register r address = record r {
    objects = map (registered_at r.workers_stopping address) r.objects;
  }

  -- The destructor: the thread has ended and the object is gone.
  unfoldable pub without : ℕ → List (Object F) → List (Object F)
  without address [] = []
  without address (o ∷ os) =
      if o.address == address then without address os else o ∷ without address os

  unfoldable pub destroy : Registry F → ℕ → Registry F
  destroy r address = record r { objects = without address r.objects }

  abbrev pub stopped_if_registered : Object F → Object F
  stopped_if_registered o = if o.registered then stopped o else o

  unfoldable pub stop_all : Registry F → Registry F
  stop_all r = record r { objects = map stopped_if_registered r.objects; workers_stopping = true }

  unfoldable pub perform : Call F → Impl F → Impl F
  perform (resetting options) w = reset w options
  perform (submitting max_planes audio sample_rate channels) w =
      submit max_planes w audio sample_rate channels
  perform (taking previous frames channels) w = (receive_take w previous frames channels).1
  perform (finishing generation gain) w = receive_finish w generation gain
  perform telling w = stop w
  perform (working stream input_samples window_samples) w =
      (take_job w stream input_samples window_samples).0
  perform (handing_over job stitched) w = (deliver w job stitched).0
  perform (adjusting job slow) w = (adapt w job slow).0

  abbrev pub called_at : ℕ → Call F → Object F → Object F
  called_at address call o =
      if o.address == address then record o { worker = perform call o.worker } else o

  unfoldable pub called : Registry F → ℕ → Call F → Registry F
  called r address call = record r { objects = map (called_at address call) r.objects }

  -- Identities are taken to be fewer than 2^64.
  pub data Act : Registry F → Registry F → Type 0 where
    constructing :
        (r : Registry F) (options : ConversionOptions F) (address : ℕ)
        → r.next_stream_id + 1 < 2 ^ 64
        → Act r (construct r options address)
    registering : (r : Registry F) (address : ℕ) → Act r (register r address)
    destroying : (r : Registry F) (address : ℕ) → Act r (destroy r address)
    stopping_all : (r : Registry F) → Act r (stop_all r)
    calling : (r : Registry F) (address : ℕ) (call : Call F) → Act r (called r address call)

  pub data History (r : Registry F) : Registry F → Type 0 where
    nothing : History r r
    after : {s t : Registry F} → History r s → Act s t → History r t
