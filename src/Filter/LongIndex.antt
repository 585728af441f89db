-- ===== src/Filter/LongIndex.antt =====
-- An index path that an update accepts and every request refuses.
use mathlib.Core.Option
use mathlib.Core.Option.{some-injective}
use obs_rvc.Prelude.{
  ℕ, ◌≤◌, ◌≡◌, refl, ap, ◌∙◌, inl, inr, true, false, not_both, none, some, length, arith, [], sym,
}
use obs_rvc.Prelude.Int.{ℤ, pos, ◌≤ℤ◌}
use obs_rvc.Float.{Floats}
use obs_rvc.Ipc.Transport.{AudioRequest, SettingsRequest, SettingsResponse, max_path_bytes}
use obs_rvc.Ipc.Status.{IpcStatus}
use obs_rvc.Utils.Strings.{c_string}
use obs_rvc.Utils.Files.{FileSystem}
use obs_rvc.Conversion.Worker.{Impl, ConversionOptions, reset}
use obs_rvc.Conversion.Loop.{Job, fill_request}
use obs_rvc.Conversion.System.{System, Reach, waiting, converting}
use obs_rvc.Conversion.System.Flow.{handed}
use obs_rvc.Conversion.System.Refusal.{KeepOptions, mute_lem}
use obs_rvc.Filter.Update.{Settings, FilterData, options_of, update}
use obs_rvc.Filter.Outcome.{update_lem}

module _ {F : Type 0} ⦃fl : Floats F⦄ where
  reset-options :
      (w : Impl F) (options : ConversionOptions F)
      → w.stopping ≡ false
      → (reset w options).options ≡ options
  unfolding reset
  reset-options w options going = rw going refl

  options_index : (s : Settings F) → (options_of s).index_path ≡ c_string s.paths.index
  unfolding options_of
  options_index s = refl

  updated_index :
      (files : FileSystem) (total : ℤ)
      (answer_of : SettingsRequest → ℕ → IpcStatus × SettingsResponse) (filter : FilterData F)
      (s : Settings F) {w w' : Impl F}
      → pos 1 ≤ℤ total
      → filter.conversion_worker ≡ some w
      → w.stopping ≡ false
      → (update files total answer_of filter s).0.configured ≡ true
      → (update files total answer_of filter s).0.conversion_worker ≡ some w'
      → w'.options.index_path ≡ c_string s.paths.index
  updated_index files total answer_of filter s {w} {w'} some_thread has_worker going on updated =
      elim (update_lem files total answer_of filter s some_thread) [
        | inl (off, _) ↦ absurd (not_both off on)
        | inr (_, _, _, worker, _, _, _) ↦
            let same : w' ≡ reset w (options_of s) =
              some-injective _ _
                (sym updated ∙ worker ∙ ap (Option.map (λ v. reset v (options_of s))) has_worker) in
            ap (λ v. v.options.index_path) same
            ∙ ap (λ o. o.index_path) (reset-options w (options_of s) going)
            ∙ options_index s
      ]

  -- What an update does with an index path of 512 bytes or more: it may configure the filter, but
  -- the worker is then silent. From the worker that it leaves, with a thread that waits, over any
  -- steps without a reset that has an effect: nothing is handed over to be played, and every job
  -- that the thread comes to convert is refused. The buffer of a request for the path has 512 bytes.
  pub long_index-refused :
      (files : FileSystem) (total : ℤ)
      (answer_of : SettingsRequest → ℕ → IpcStatus × SettingsResponse) (filter : FilterData F)
      (s : Settings F) {w : Impl F} {max_planes : ℕ} {start end : System F}
      (way : Reach max_planes start end)
      → pos 1 ≤ℤ total
      → filter.conversion_worker ≡ some w
      → w.stopping ≡ false
      → max_path_bytes ≤ length (c_string s.paths.index)
      → (update files total answer_of filter s).0.configured ≡ true
      → (update files total answer_of filter s).0.conversion_worker ≡ some start.worker
      → start.stage ≡ waiting
      → KeepOptions max_path_bytes way
      → (handed way ≡ [])
        × ((job : Job F) (last : AudioRequest F) (stream_id : ℕ)
            → end.stage ≡ converting job
            → length last.index_path ≡ max_path_bytes
            → fill_request last stream_id job ≡ none)
  long_index-refused files total answer_of filter s way some_thread has_worker going long on updated
        at kept =
      let path =
        updated_index files total answer_of filter s some_thread has_worker going on updated in
      mute_lem max_path_bytes way at (omega (arith, ap length path, long)) kept
