-- ===== src/Conversion/System/Promises.antt =====
-- What holds in every state that a new worker reaches.
use mathlib.Core.Path.{subst}
use obs_rvc.Prelude.{
  not_both, ℕ, ◌+◌, ◌*◌, ◌≤◌, ◌<◌, ◌≡◌, inl, inr, true, false, List, [], ◌++◌, length, arith,
}
use obs_rvc.Prelude.Int.{◌≤ℤ◌}
use obs_rvc.Float.{Floats, nought}
use obs_rvc.Ipc.Transport.{max_input_bytes}
use obs_rvc.Stream.Queue
use obs_rvc.Stream.Queue.Window.{contents}
use obs_rvc.Stream.Queue.Append.{append_lem}
use obs_rvc.Conversion.Frames.{history_frames, lookahead_frames, bytes_per_sample}
use obs_rvc.Conversion.Worker.{
  Impl, ConversionOptions, block_frames, needed_frames, startup_frames, may_play,
}
use obs_rvc.Conversion.Loop.{Job, is_ready, deliver, is_stale}
use obs_rvc.Conversion.System.{
  waiting, converting, delivering, System, new_worker, delivered, Reach,
}
use obs_rvc.Conversion.System.Sound.{IsSound, new_worker-IsSound}
use obs_rvc.Conversion.System.Tracking.{IsStageSound}
use obs_rvc.Conversion.System.Begin.{IsReady→is_ready}
use obs_rvc.Conversion.System.Finish.{make_room_lem, not_stale, room_for_block}
use obs_rvc.Conversion.System.Reachable.{IsSystemSound, Reach-IsSystemSound}

-- The start of a worker's thread.
abbrev pub initial : {F : Type 0} → ⦃fl : Floats F⦄ → ConversionOptions F → ℕ → System F
initial options stream_id = record {
  worker = new_worker options stream_id;
  stream = record { history = []; tail = [] };
  stage = waiting;
}

-- The samples that wait in the output of a system.
abbrev pub output_of : {F : Type 0} → System F → List F
output_of s = contents s.worker.output

module _ {F : Type 0} ⦃fl : Floats F⦄ where
  playing_may_play : (w : Impl F) → w.playback_started ≡ true → may_play w w.channels ≡ true
  playing_may_play w playing = ground arith

  enough_may_play :
      (w : Impl F)
      → startup_frames w * 2 * w.channels ≤ Queue.size w.output
      → may_play w w.channels ≡ true
  enough_may_play w enough = ground arith

  room_before_playing :
      {w : Impl F}
      → IsSound F w
      → may_play w w.channels ≡ false
      → Queue.size w.output ≤ block_frames w * w.channels
  room_before_playing {w} v silent = elim v.staged [
    | inl playing ↦ absurd (not_both silent (playing_may_play w playing))
    | inr (inl none_held) ↦ omega arith
    | inr (inr (inl (_, block_held))) ↦ block_held
    | inr (inr (inr much_held)) ↦ absurd (not_both silent (enough_may_play w much_held))
  ]

  pub reached :
      {max_planes : ℕ} (options : ConversionOptions F) (stream_id : ℕ) {s : System F}
      → Reach max_planes (initial options stream_id) s
      → IsSystemSound F s
  reached options stream_id way =
      Reach-IsSystemSound (record { sound = new_worker-IsSound options stream_id; staged = tt }) way

  -- In every state that a new worker reaches, the input waiting is at most two blocks and the
  -- lookahead, the output waiting is at most two blocks, and the durations are in order: startup,
  -- active, maximum.
  pub Reach-bounds :
      {max_planes : ℕ} (options : ConversionOptions F) (stream_id : ℕ) {s : System F}
      → Reach max_planes (initial options stream_id) s
      → let w = s.worker in
        (Queue.size w.input ≤ 2 * block_frames w + lookahead_frames w.sample_rate)
        × (Queue.size w.output ≤ 2 * block_frames w * w.channels)
        × (w.startup_chunk_duration_ms ≤ℤ w.active_chunk_duration_ms)
        × (w.active_chunk_duration_ms ≤ℤ w.maximum_chunk_duration_ms)
  Reach-bounds options stream_id way =
      let v = (reached options stream_id way).sound in
      (v.input_bound, v.output_bound, v.startup_le, v.active_le)

  -- Whatever conversion a new worker comes to, its window is the history, a block that is not empty
  -- and the lookahead, and its 16-bit samples fit the audio of a request.
  pub Reach-request :
      {max_planes : ℕ} (options : ConversionOptions F) (stream_id : ℕ) {s : System F} (job : Job F)
      → Reach max_planes (initial options stream_id) s
      → s.stage ≡ converting job
      → (0 < job.hop_frames)
        × (length job.window_samples
            ≡ history_frames job.sample_rate + job.hop_frames + lookahead_frames job.sample_rate)
        × (length job.window_samples * bytes_per_sample ≤ max_input_bytes)
  Reach-request options stream_id {s} job way at =
      let v = reached options stream_id way in
      let (alone, current) = subst (IsStageSound F s.worker) at v.staged in
      (alone.some_hop, alone.window_size, alone.bytes_fit)

  pub delivers-append :
      {s : System F} (job : Job F) (stitched : List F)
      → IsSystemSound F s
      → s.stage ≡ delivering job stitched
      → is_stale s.worker job ≡ false
      → output_of (delivered s job stitched) ≡ output_of s ++ stitched
  unfolding delivered deliver
  delivers-append {s} job stitched v at up_to_date =
      let ((alone, current), size) = subst (IsStageSound F s.worker) at v.staged in
      elim current [
        | inl stale ↦ absurd (omega (arith, not_stale s.worker job up_to_date))
        | inr fresh ↦
            rw (up_to_date, make_room_lem job stitched fresh size)
              (append_lem nought stitched v.sound.output_valid
                (room_for_block job stitched v.sound alone fresh size)).1
      ]

  -- Handing over the audio of a conversion loses none: unless the worker has moved on, the output
  -- is what waited there followed by the new block.
  pub Reach-delivers :
      {max_planes : ℕ} (options : ConversionOptions F) (stream_id : ℕ) {s : System F} (job : Job F)
      (stitched : List F)
      → Reach max_planes (initial options stream_id) s
      → s.stage ≡ delivering job stitched
      → is_stale s.worker job ≡ false
      → output_of (delivered s job stitched) ≡ output_of s ++ stitched
  Reach-delivers options stream_id job stitched way at up_to_date =
      delivers-append job stitched (reached options stream_id way) at up_to_date

  -- Playing never waits for a thread that waits for room: a worker that is set up, has the input of
  -- a block and is not told to stop converts, as long as the output is too short to begin playing.
  pub Reach-starts :
      {max_planes : ℕ} (options : ConversionOptions F) (stream_id : ℕ) {s : System F}
      → Reach max_planes (initial options stream_id) s
      → s.worker.configured ≡ true
      → s.worker.stopping ≡ false
      → 0 < s.worker.sample_rate
      → 0 < s.worker.channels
      → 0 < block_frames s.worker
      → needed_frames s.worker ≤ Queue.size s.worker.input
      → may_play s.worker s.worker.channels ≡ false
      → is_ready s.worker ≡ true
  Reach-starts options stream_id {s} way set_up going some_rate some_channel some_block enough
        silent =
      let w = s.worker in
      IsReady→is_ready w going (record {
        set_up = set_up;
        some_rate = some_rate;
        some_channel = some_channel;
        some_block = some_block;
        enough = enough;
        room = room_before_playing (reached options stream_id way).sound silent;
      })
