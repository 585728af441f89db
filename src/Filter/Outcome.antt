-- ===== src/Filter/Outcome.antt =====
-- What an update of the filter comes to.
use mathlib.Core.Option
use obs_rvc.Prelude.{
  ℕ, ◌-◌, ◌^◌, ◌≡◌, refl, ◌⊎◌, inl, inr, true, false, some, arith, if◌then◌else◌, Bool-cases,
  Option-cases,
}
use obs_rvc.Prelude.Int.{ℤ, pos, ◌≤ℤ◌}
use obs_rvc.Float.{Floats}
use obs_rvc.Ipc.Transport.{SettingsRequest, SettingsResponse, blank_response}
use obs_rvc.Ipc.Status.{IpcStatus, is_ok}
use obs_rvc.Utils.Files.{FileSystem}
use obs_rvc.Conversion.Worker
use obs_rvc.Conversion.Worker.{Impl, ConversionOptions}
use obs_rvc.Conversion.System.{IsSane}
use obs_rvc.Filter.Threads.{clamp_bounds, update_threads, update_threads-IsShared, IsShared}
use obs_rvc.Filter.Validation.{validate_models}
use obs_rvc.Filter.Update.{
  Settings, FilterData, initial_duration, configure_attempts, try_configure, settings_request,
  options_of, accept, ask, update,
}

-- A yes is that of the first attempt or of the second.
try_configure_lem :
    (answers : ℕ → IpcStatus × SettingsResponse) (last : IpcStatus × SettingsResponse)
    → is_ok (try_configure answers configure_attempts 0 last).0 ≡ true
    → (is_ok (answers 0).0 ≡ true) ⊎ (is_ok (answers 1).0 ≡ true)
unfolding try_configure
try_configure_lem answers last yes_said = elim (Bool-cases (is_ok (answers 0).0)) [
  | inl e ↦ inl e
  | inr e ↦ elim (Bool-cases (is_ok (answers 1).0)) [
    | inl e' ↦ inr e'
    | inr e' ↦ inr (rw (e, e') at yes_said)
  ]
]

initial_bounds :
    (saved : ℤ) → (pos 250 ≤ℤ initial_duration saved) × (initial_duration saved ≤ℤ pos 2000)
initial_bounds saved =
    let (low, high) = clamp_bounds saved (pos 250) (pos 2000) (omega arith) in ground arith

module _ {F : Type 0} ⦃fl : Floats F⦄ where
  -- The options that reach the worker are in order, whatever the settings say: the first block lasts
  -- 250 to 2000 ms, the longest at least as long, and both are values of `int32_t`.
  pub options_of-IsSane :
      (s : Settings F)
      → IsSane F (options_of s)
        × (pos 250 ≤ℤ (options_of s).initial_chunk_duration_ms)
        × ((options_of s).initial_chunk_duration_ms ≤ℤ pos 2000)
  unfolding options_of
  options_of-IsSane s =
      let (low, high) =
        initial_bounds
          (if s.has_initial then s.initial_chunk_duration_ms else s.chunk_duration_ms) in
      let (above, below) =
        clamp_bounds s.maximum_chunk_duration_ms (options_of s).initial_chunk_duration_ms
          (pos (2 ^ 31 - 1)) (omega arith) in
      (record { positive = omega arith; ordered = above; fits = below }, low, high)

  -- The worker process says yes at one of the attempts, or the filter is left unconfigured.
  pub ask_lem :
      (answers : ℕ → IpcStatus × SettingsResponse) (filter : FilterData F) (s : Settings F)
      → (ask answers filter s ≡ (record filter { configured = false }, s))
        ⊎ (((is_ok (answers 0).0 ≡ true) ⊎ (is_ok (answers 1).0 ≡ true))
            × ((response : SettingsResponse) × (ask answers filter s ≡ accept filter s response)))
  unfolding ask
  ask_lem answers filter s =
      let out =
        try_configure answers configure_attempts 0 (IpcStatus.transport_error, blank_response) in
      elim (Bool-cases (is_ok out.0)) [
        | inl e ↦ rw e (inr (try_configure_lem answers _ e, (out.1, refl)))
        | inr e ↦ rw e (inl refl)
      ]

  -- What an update comes to: it refuses, keeps the worker as it is and leaves the filter
  -- unconfigured; or the files are valid, the paths fit, the worker process said yes at one of its
  -- two attempts, the worker is reset with the options of the settings, and the thread counts and
  -- durations are written back, a sound allocation and the durations in use. This is so for at least
  -- one thread.
  pub update_lem :
      (files : FileSystem) (total : ℤ)
      (answer_of : SettingsRequest → ℕ → IpcStatus × SettingsResponse) (filter : FilterData F)
      (s : Settings F)
      → pos 1 ≤ℤ total
      → let threads = update_threads total s.threads in
        let (filter', s') = update files total answer_of filter s in
        ((filter'.configured ≡ false) × (filter'.conversion_worker ≡ filter.conversion_worker))
        ⊎ ((filter'.configured ≡ true)
            × ((validate_models files s.paths).valid ≡ true)
            × ((request : SettingsRequest) × (settings_request s.paths threads ≡ some request)
                × ((is_ok (answer_of request 0).0 ≡ true) ⊎ (is_ok (answer_of request 1).0 ≡ true)))
            × (filter'.conversion_worker
                ≡ Option.map (λ w. Worker.reset w (options_of s)) filter.conversion_worker)
            × IsShared total s'.threads
            × (s'.initial_chunk_duration_ms ≡ (options_of s).initial_chunk_duration_ms)
            × (s'.maximum_chunk_duration_ms ≡ (options_of s).maximum_chunk_duration_ms))
  unfolding update accept options_of
  update_lem files total answer_of filter s some_thread =
      let threads = update_threads total s.threads in
      elim (Bool-cases (validate_models files s.paths).valid) [
        | inr e ↦ rw e (inl (refl, refl))
        | inl valid ↦ elim (Option-cases (settings_request s.paths threads)) [
          | inl e ↦ rw (valid, e) (inl (refl, refl))
          | inr (request, e) ↦
              rw (valid, e)
                (elim (ask_lem (answer_of request) filter (record s { threads = threads })) [
                  | inl none_said ↦ rw none_said (inl (refl, refl))
                  | inr (one_said, (response, accepted)) ↦ rw accepted (
                      inr (
                        refl,
                        refl,
                        (request, refl, one_said),
                        refl,
                        update_threads-IsShared total s.threads some_thread,
                        refl,
                        refl,
                      ))
                ])
        ]
      ]
