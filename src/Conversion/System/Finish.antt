-- ===== src/Conversion/System/Finish.antt =====
-- The end of a round: the answer of the worker process, handing the audio over, and the block that
-- grows.
use native.Mathlib.Nat.{mul-le-mul, mul-le-mul_right}
use mathlib.Core.Path.{subst}
use obs_rvc.Prelude.{
  ◌≤◌, ◌+◌, ◌*◌, ◌%◌, ◌^◌, ◌≡◌, sym, ap, inl, inr, Bool, true, false, not, ◌||◌, ◌==◌, ◌&&◌,
  if_cases, Option, none, some, List, length, arith, Option-cases, le→ltb_false,
}
use obs_rvc.Prelude.Int.{ℤ, pos, ◌≤ℤ◌, ◌+ℤ◌, +ℤ_parts, ltb_ℤ}
use obs_rvc.Float.{Floats, nought}
use obs_rvc.Ipc.Transport.{AudioResponse}
use obs_rvc.Ipc.Status.{IpcStatus, is_ok}
use obs_rvc.Stream.Queue
use obs_rvc.Stream.Queue.Append.{append_lem, size-append}
use obs_rvc.Stream.Assembler
use obs_rvc.Stream.Assembler.{StreamAssembler}
use obs_rvc.Stream.Assembler.Stitch.{length-stitch}
use obs_rvc.Conversion.Codec.{decode_to_input_format}
use obs_rvc.Conversion.Frames.{
  overlap_frames, search_frames, conversion_frame_count-le, conversion_frame_count_mono,
}
use obs_rvc.Conversion.Worker.{Impl}
use obs_rvc.Conversion.Loop.{Job, min_ℤ, finish_conversion, make_room, deliver, adapt, is_stale}
use obs_rvc.Conversion.System.Sound.{IsSound}
use obs_rvc.Conversion.System.Tracking.{IsJob, IsFresh, IsTracked}

last_of_and : (a b c : Bool) → a && b && c ≡ true → c ≡ true
last_of_and a b c h = ground arith

longer_bounds :
    (active maximum : ℤ)
    → ltb_ℤ active maximum ≡ true
    → let longer = min_ℤ maximum (active +ℤ pos 250) in (active ≤ℤ longer) × (longer ≤ℤ maximum)
longer_bounds active maximum less = ground (arith, +ℤ_parts active (pos 250))

abbrev pub HasBlock : (F : Type 0) → Job F → Option (List F) → Type 0
HasBlock F job none = Unit
HasBlock F job (some stitched) = length stitched ≡ job.hop_frames * job.channels

module _ {F : Type 0} ⦃fl : Floats F⦄ where
  -- Whatever the worker process answers, the audio that comes out of it is one block.
  pub finish_conversion-HasBlock :
      (stream : StreamAssembler F) (job : Job F) (status : IpcStatus) (response : AudioResponse)
      → HasBlock F job (finish_conversion stream job status response).1
  unfolding finish_conversion
  finish_conversion-HasBlock stream job status response =
      let frames = length job.window_samples % 2 ^ 32 in
      let rate = job.sample_rate in
      if_cases (λ (r : StreamAssembler F × Option (List F)). HasBlock F job r.1)
        (not (is_ok status) || response.audio_size == 0) _ _ (λ _. tt)
        (λ _.
          elim (Option-cases (decode_to_input_format {F = F} response rate job.channels frames)) [
            | inl e ↦ rw e tt
            | inr (converted, e) ↦
                let stitched =
                  Assembler.stitch stream converted job.hop_frames job.context_frames
                    (overlap_frames rate) (search_frames rate) job.channels in
                rw e (elim (Option-cases stitched) [
                  | inl e' ↦ rw e' tt
                  | inr (out, e') ↦
                      rw e'
                        (length-stitch stream converted job.hop_frames job.context_frames
                          (overlap_frames rate) (search_frames rate) job.channels e').0
                ])
          ])

  -- A current job finds the room that its audio needs, so `deliver` discards nothing.
  pub make_room_lem :
      {w : Impl F} (job : Job F) (stitched : List F)
      → IsFresh F w job
      → length stitched ≡ job.hop_frames * job.channels
      → make_room w job stitched ≡ w
  unfolding make_room
  make_room_lem {w} job stitched fresh size = rw (
      le→ltb_false (4 * job.hop_frames * job.channels) (Queue.size w.output + length stitched)
        (omega (arith, size, fresh.output_le, ap (λ c. job.hop_frames * c) fresh.same_channels)))

  pub room_for_block :
      {w : Impl F} (job : Job F) (stitched : List F)
      → IsSound F w
      → IsJob F job
      → IsFresh F w job
      → length stitched ≡ job.hop_frames * job.channels
      → w.output.count + length stitched ≤ 2 ^ 63
  room_for_block {w} job stitched v alone fresh size =
      let hop = job.hop_frames in
      let same = ap (λ c. hop * c) fresh.same_channels in
      let small =
        mul-le-mul {n₁ = hop} {m₁ = w.channels} {n₂ = 393_216} {m₂ = 65_535}
          (omega (
            arith,
            fresh.hop_le,
            conversion_frame_count-le w.sample_rate w.active_chunk_duration_ms,
          ))
          (omega (arith, v.channels_fit)) in
      omega (arith, size, same, small, fresh.output_le)

  append_block-IsSound :
      {w : Impl F} (job : Job F) (stitched : List F)
      → IsSound F w
      → IsJob F job
      → IsFresh F w job
      → length stitched ≡ job.hop_frames * job.channels
      → IsSound F (record w {
        output = Queue.append nought w.output stitched;
        has_completed_conversion = true;
      })
  append_block-IsSound {w} job stitched v alone fresh size =
      let hop = job.hop_frames in
      let same = ap (λ c. hop * c) fresh.same_channels in
      let block_fits = mul-le-mul_right w.channels fresh.hop_le in
      let startup_fits = mul-le-mul_right w.channels fresh.hop_ge in
      let appended = size-append nought w.output stitched in
      record {
        timed = v.timed;
        input_valid = v.input_valid;
        output_valid =
            (append_lem nought stitched v.output_valid
              (room_for_block job stitched v alone fresh size)).0;
        input_bound = v.input_bound;
        output_bound = omega (arith, appended, size, same, block_fits, fresh.output_le);
        staged = elim fresh.held [
          | inl playing ↦ inl playing
          | inr (inl none_held) ↦ inr (
              inr (
                inl (
                  omega (arith, appended, size, same, startup_fits),
                  omega (arith, appended, size, same, block_fits, none_held),
                )))
          | inr (inr block_held) ↦
              inr (inr (inr (omega (arith, appended, size, same, startup_fits, block_held))))
        ];
      }

  pub not_stale :
      (w : Impl F) (job : Job F) → is_stale w job ≡ false → w.generation ≡ job.generation
  not_stale w job current = ground arith

  pub deliver-IsSound :
      {w : Impl F} (job : Job F) (stitched : List F)
      → IsSound F w
      → IsTracked F w job
      → length stitched ≡ job.hop_frames * job.channels
      → IsSound F (deliver w job stitched).0
  unfolding deliver
  deliver-IsSound {w} job stitched v (alone, current) size =
      if_cases (λ (r : Impl F × Bool). IsSound F r.0) (is_stale w job) (w, false) _ (λ _. v)
        (λ up_to_date. elim current [
          | inl stale ↦ absurd (omega (arith, not_stale w job up_to_date))
          | inr fresh ↦
              subst
                (λ (w' : Impl F). IsSound F (record w' {
                  output = Queue.append nought w'.output stitched;
                  has_completed_conversion = true;
                }))
                (sym (make_room_lem job stitched fresh size))
                (append_block-IsSound job stitched v alone fresh size)
        ])

  lengthened-IsSound :
      {w : Impl F} {longer : ℤ}
      → IsSound F w
      → w.active_chunk_duration_ms ≤ℤ longer
      → longer ≤ℤ w.maximum_chunk_duration_ms
      → IsSound F (record w { active_chunk_duration_ms = longer })
  lengthened-IsSound {w} {longer} v more within =
      let grows =
        conversion_frame_count_mono w.sample_rate w.active_chunk_duration_ms longer v.rate_fits
          (omega (arith, v.maximum_fits)) more in
      let wider = mul-le-mul_right w.channels grows in
      record {
        timed = record {
          rate_fits = v.rate_fits;
          channels_fit = v.channels_fit;
          generation_fits = v.generation_fits;
          startup_positive = v.startup_positive;
          startup_le = omega (arith, v.startup_le);
          active_le = within;
          maximum_fits = v.maximum_fits;
        };
        input_valid = v.input_valid;
        output_valid = v.output_valid;
        input_bound = omega (arith, v.input_bound);
        output_bound = omega (arith, v.output_bound);
        staged = elim v.staged [
          | inl playing ↦ inl playing
          | inr (inl none_held) ↦ inr (inl none_held)
          | inr (inr (inl (some_held, block_held))) ↦ inr (inr (inl (some_held, omega arith)))
          | inr (inr (inr much_held)) ↦ inr (inr (inr much_held))
        ];
      }

  pub adapt-IsSound :
      {w : Impl F} (job : Job F) (slow : Bool) → IsSound F w → IsSound F (adapt w job slow).0
  unfolding adapt
  adapt-IsSound {w} job slow v =
      let active = w.active_chunk_duration_ms in
      let maximum = w.maximum_chunk_duration_ms in
      let longer = min_ℤ maximum (active +ℤ pos 250) in
      if_cases (λ (r : Impl F × ℤ). IsSound F r.0)
        (slow && not job.first_conversion && ltb_ℤ active maximum) _ (w, pos 0)
        (λ grow.
          lengthened-IsSound v (longer_bounds active maximum (last_of_and slow _ _ grow)).0
            (longer_bounds active maximum (last_of_and slow _ _ grow)).1)
        (λ _. v)
