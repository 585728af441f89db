-- ===== src/Conversion/System/Begin.antt =====
-- Taking a job: what the wait guarantees, and the window that is sent.
use obs_rvc.Prelude.{
  ◌+◌, ◌*◌, ◌≤◌, ◌<◌, ◌≡◌, refl, ap, ◌∙◌, inl, inr, true, false, List, length, arith, if◌then◌else◌,
  length-take, length-append,
}
use obs_rvc.Float.{Floats, nought}
use obs_rvc.Stream.Queue
use obs_rvc.Stream.Queue.Refine.{size-discard, discard-IsValid, copy_front_lem, size-eq-length}
use obs_rvc.Stream.Queue.Window.{contents}
use obs_rvc.Stream.Assembler
use obs_rvc.Stream.Assembler.{StreamAssembler, leading}
use obs_rvc.Stream.Assembler.Windows.{window_lem, length-leading}
use obs_rvc.Conversion.Frames.{
  history_frames, lookahead_frames, window_fits, conversion_frame_count_mono,
}
use obs_rvc.Conversion.Worker.{Impl, block_frames, startup_frames, needed_frames}
use obs_rvc.Conversion.Loop.{is_ready, take_job}
use obs_rvc.Conversion.System.Sound.{IsSound}
use obs_rvc.Conversion.System.Tracking.{IsJob, IsTracked}

-- What the thread may rely on when its wait ends and it is not told to stop.
pub record IsReady (F : Type 0) (w : Impl F) : Type 0 where
  pub set_up : w.configured ≡ true
  pub some_rate : 0 < w.sample_rate
  pub some_channel : 0 < w.channels
  pub some_block : 0 < block_frames w
  pub enough : needed_frames w ≤ Queue.size w.input
  pub room : Queue.size w.output ≤ block_frames w * w.channels

module _ {F : Type 0} ⦃fl : Floats F⦄ where
  pub is_ready→IsReady : (w : Impl F) → is_ready w ≡ true → w.stopping ≡ false → IsReady F w
  unfolding is_ready
  is_ready→IsReady w ready going = ground arith

  pub IsReady→is_ready : (w : Impl F) → w.stopping ≡ false → IsReady F w → is_ready w ≡ true
  unfolding is_ready
  IsReady→is_ready w going r = ground arith

  startup-le-block : {w : Impl F} → IsSound F w → startup_frames w ≤ block_frames w
  startup-le-block {w} v =
      conversion_frame_count_mono w.sample_rate w.startup_chunk_duration_ms
        w.active_chunk_duration_ms v.rate_fits (omega arith) v.startup_le

  -- The window of a job is history, block and lookahead.
  length-window_samples :
      (w : Impl F) (stream : StreamAssembler F) (input_samples window_samples : List F)
      → IsSound F w
      → needed_frames w ≤ Queue.size w.input
      → length (take_job w stream input_samples window_samples).2.window_samples
        ≡ history_frames w.sample_rate + block_frames w + lookahead_frames w.sample_rate
  unfolding take_job
  length-window_samples w stream input_samples window_samples v enough =
      let taken = Queue.copy_front nought w.input input_samples (needed_frames w) in
      let stream' = if w.discontinuity then Assembler.reset stream else stream in
      let context = history_frames w.sample_rate in
      let size : length taken ≡ needed_frames w =
        ap length (copy_front_lem nought input_samples (needed_frames w) v.input_valid)
        ∙ omega (
          arith,
          length-take (needed_frames w) (contents w.input),
          size-eq-length v.input_valid,
        ) in
      let lead = leading stream' (context * 1) in
      ap length (window_lem stream' taken (block_frames w) context 1 window_samples (omega arith)).0
      ∙ omega (arith, length-append lead taken, length-leading stream' (context * 1))

  -- Taking a job keeps the invariant of the worker.
  pub take_job-IsSound :
      {w : Impl F} (stream : StreamAssembler F) (input_samples window_samples : List F)
      → IsSound F w
      → IsSound F (take_job w stream input_samples window_samples).0
  unfolding take_job
  take_job-IsSound {w} stream input_samples window_samples v = record {
    timed = v.timed;
    input_valid = discard-IsValid (block_frames w) v.input_valid;
    output_valid = v.output_valid;
    input_bound = omega (arith, size-discard w.input (block_frames w), v.input_bound);
    output_bound = v.output_bound;
    staged = v.staged;
  }

  take_job-IsJob :
      {w : Impl F} (stream : StreamAssembler F) (input_samples window_samples : List F)
      → IsSound F w
      → IsReady F w
      → IsJob F (take_job w stream input_samples window_samples).2
  unfolding take_job
  take_job-IsJob {w} stream input_samples window_samples v r =
      let size = length-window_samples w stream input_samples window_samples v r.enough in
      record {
        rate_fits = v.rate_fits;
        channels_fit = v.channels_fit;
        some_channel = r.some_channel;
        some_hop = r.some_block;
        context_eq = refl;
        window_size = size;
        bytes_fit =
            rw size (window_fits w.sample_rate w.active_chunk_duration_ms v.rate_fits r.some_block);
      }

  -- The job that the thread takes is tracked: its window fits a request, and its format and block
  -- are those of the worker.
  pub take_job-IsTracked :
      {w : Impl F} (stream : StreamAssembler F) (input_samples window_samples : List F)
      → IsSound F w
      → IsReady F w
      → let out = take_job w stream input_samples window_samples in IsTracked F out.0 out.2
  unfolding take_job
  take_job-IsTracked {w} stream input_samples window_samples v r = (
    take_job-IsJob stream input_samples window_samples v r,
    inr (record {
      same_generation = refl;
      same_rate = refl;
      same_channels = refl;
      hop_le = omega arith;
      hop_ge = startup-le-block v;
      output_le = r.room;
      held = elim v.staged [
        | inl playing ↦ inl playing
        | inr (inl none_held) ↦ inr (inl none_held)
        | inr (inr (inl (some_held, _))) ↦ inr (inr some_held)
        | inr (inr (inr much_held)) ↦
            inr (inr (omega (arith, ap (λ n. n * w.channels) {x = startup_frames w * 2} refl)))
      ];
    }),
  )
