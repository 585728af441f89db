-- ===== src/Stream/Assembler/Stitch.antt =====
-- `stitch`: every sample of what it returns.
use native.Mathlib.Nat.{mul-le-mul_right}
use mathlib.Core.Option.{some-injective}
use obs_rvc.Prelude.{
  ℕ, suc, ◌+◌, ◌-◌, ◌*◌, ◌≤◌, ◌<◌, ◌≡◌, refl, sym, ap, ◌∙◌, some, List, [], ◌∷◌, arith, length,
  get_or, take, drop, length-take, length-drop, get_or-take, get_or-drop,
}
use obs_rvc.Float.{Floats, nought, one}
use obs_rvc.Stream.Assembler.{StreamAssembler, stitch, stitch_offset, mix, mix_frames, fade_of}
use obs_rvc.Stream.Assembler.Best.{stitch_offset-le}
use obs_rvc.Stream.Assembler.Fade.{length-mix_frames, drop-mix_frames, mix_frames_inside}

module _ {F : Type 0} ⦃fl : Floats F⦄ where
  -- What a successful `stitch` returns, where it aligned by `offset`.
  pub record IsStitched (s : StreamAssembler F) (converted : List F)
      (hop context overlap channels offset : ℕ) (out : StreamAssembler F × List F) : Type 0 where
    history_kept : out.0.history ≡ s.history
    result_size : length out.1 ≡ hop * channels
    tail_size : length out.0.tail ≡ overlap * channels
    -- the samples behind the overlap are the converted ones
    pub copied :
        drop (overlap * channels) out.1
        ≡ drop
            (overlap * channels)
            (take (hop * channels) (drop ((context + offset) * channels) converted))
    -- the new tail is what follows the result in the converted window
    tail_next :
        out.0.tail
        ≡ take
            (overlap * channels)
            (drop ((context + offset) * channels + hop * channels) converted)

  stitch_eq :
      (s : StreamAssembler F) (converted : List F) (hop context overlap span channels : ℕ)
      → 0 < channels
      → 2 ≤ overlap
      → (context + hop + overlap + span) * channels ≤ length converted
      → let start =
          (context + stitch_offset converted s.tail context overlap span channels) * channels in
        stitch s converted hop context overlap span channels
        ≡ some (
          record s { tail = take (overlap * channels) (drop (start + hop * channels) converted) },
          mix_frames s.tail overlap channels overlap 0
              (take (hop * channels) (drop start converted)),
        )
  unfolding stitch
  stitch_eq s converted hop context overlap span channels some_channel two_frames long =
      ground arith

  -- Everything that `stitch` reads lies inside the converted window.
  reads_inside :
      (converted : List F) (hop context overlap span channels offset : ℕ)
      → offset ≤ span
      → (context + hop + overlap + span) * channels ≤ length converted
      → (context + offset) * channels + hop * channels + overlap * channels ≤ length converted
  reads_inside converted hop context overlap span channels offset le long =
      omega (arith, mul-le-mul_right channels le)

  -- With a channel, two frames of overlap, a hop that is not shorter than the overlap and a long
  -- enough window `stitch` succeeds: it returns `hop` frames, which behind the overlap are the
  -- aligned converted samples, keeps the following `overlap` frames as the new tail, and leaves
  -- the history alone. The shift is at most `span`.
  pub stitch_lem :
      (s : StreamAssembler F) (converted : List F) (hop context overlap span channels : ℕ)
      → 0 < channels
      → 2 ≤ overlap
      → overlap ≤ hop
      → (context + hop + overlap + span) * channels ≤ length converted
      → let offset = stitch_offset converted s.tail context overlap span channels in
        (offset ≤ span)
        × (out : StreamAssembler F × List F) × (stitch s converted hop context overlap span channels
            ≡ some out)
        × IsStitched s converted hop context overlap channels offset out
  stitch_lem s converted hop context overlap span channels some_channel two_frames le long =
      let offset = stitch_offset converted s.tail context overlap span channels in
      let near = stitch_offset-le converted s.tail context overlap span channels in
      let start = (context + offset) * channels in
      let inside = reads_inside converted hop context overlap span channels offset near long in
      let chosen = take (hop * channels) (drop start converted) in
      let next = take (overlap * channels) (drop (start + hop * channels) converted) in
      (
        near,
        (record s { tail = next }, mix_frames s.tail overlap channels overlap 0 chosen),
        stitch_eq s converted hop context overlap span channels some_channel two_frames long,
        record {
          history_kept = refl;
          result_size =
              length-mix_frames s.tail overlap channels overlap 0 chosen
              ∙ omega (
                arith,
                length-take (hop * channels) (drop start converted),
                length-drop start converted,
              );
          tail_size = omega (
            arith,
            length-take (overlap * channels) (drop (start + hop * channels) converted),
            length-drop (start + hop * channels) converted,
          );
          copied =
              drop-mix_frames s.tail overlap channels overlap 0 chosen (overlap * channels)
                (omega arith);
          tail_next = refl;
        },
      )

  stitch_accepts :
      (s : StreamAssembler F) (converted : List F) (hop context overlap span channels : ℕ)
      {out : StreamAssembler F × List F}
      → stitch s converted hop context overlap span channels ≡ some out
      → (0 < channels)
        × (2 ≤ overlap)
        × ((context + hop + overlap + span) * channels ≤ length converted)
  unfolding stitch
  stitch_accepts s converted hop context overlap span channels done = ground arith

  mix_lem :
      (tail : List F) (i : ℕ) (fade sample : F)
      → mix tail i fade sample
        ≡ fl.single.add
            (fl.single.mul (get_or tail i nought) (fl.single.sub one fade))
            (fl.single.mul sample fade)
  unfolding mix
  mix_lem [] i fade sample = refl
  mix_lem (x ∷ tail) i fade sample = refl

  -- Inside the overlap, sample `c` of frame `f` of the result is the crossfade of the old tail and
  -- of the aligned converted sample: the tail at one minus a weight, the sample at that weight,
  -- which is half of one minus the cosine of pi times the place of the frame in the overlap, from 0
  -- to 1. This is for a hop that is not shorter than the overlap.
  pub stitch_faded :
      (s : StreamAssembler F) (converted : List F) (hop context overlap span channels f c : ℕ)
      {out : StreamAssembler F × List F}
      → overlap ≤ hop
      → stitch s converted hop context overlap span channels ≡ some out
      → f < overlap
      → c < channels
      → let offset = stitch_offset converted s.tail context overlap span channels in
        let i = f * channels + c in
        let place = fl.single.div (fl.single.of_nat f) (fl.single.of_nat (overlap - 1)) in
        let weight =
          fl.single.sub fl.half (fl.single.mul fl.half (fl.cos (fl.single.mul fl.pi place))) in
        get_or out.1 i nought
        ≡ fl.single.add
            (fl.single.mul (get_or s.tail i nought) (fl.single.sub one weight))
            (fl.single.mul (get_or converted ((context + offset) * channels + i) nought) weight)
  unfolding fade_of
  stitch_faded s converted hop context overlap span channels f c {out} le done in_frames in_row =
      let (some_channel, two_frames, long) =
        stitch_accepts s converted hop context overlap span channels done in
      let offset = stitch_offset converted s.tail context overlap span channels in
      let near = stitch_offset-le converted s.tail context overlap span channels in
      let start = (context + offset) * channels in
      let inside = reads_inside converted hop context overlap span channels offset near long in
      let i = f * channels + c in
      let chosen = take (hop * channels) (drop start converted) in
      let row_fits = mul-le-mul_right {m = suc f} {n = overlap} channels in_frames in
      let hop_fits = mul-le-mul_right channels le in
      let same = some-injective _ _ (
        sym (stitch_eq s converted hop context overlap span channels some_channel two_frames long)
        ∙ done) in
      ap (λ (o : StreamAssembler F × List F). get_or o.1 i nought) (sym same)
      ∙ mix_frames_inside s.tail overlap channels overlap 0 chosen f c (omega arith) (omega arith)
          in_row
          (omega (
            arith,
            length-take (hop * channels) (drop start converted),
            length-drop start converted,
          ))
      ∙ ap (mix s.tail i (fade_of overlap f)) (
          get_or-take (hop * channels) (drop start converted) i nought (omega arith)
          ∙ get_or-drop start converted i nought)
      ∙ mix_lem s.tail i (fade_of overlap f) (get_or converted (start + i) nought)

  -- A successful `stitch` returns `hop` frames and keeps a tail of the overlap.
  pub length-stitch :
      (s : StreamAssembler F) (converted : List F) (hop context overlap span channels : ℕ)
      {out : StreamAssembler F × List F}
      → stitch s converted hop context overlap span channels ≡ some out
      → (length out.1 ≡ hop * channels) × (length out.0.tail ≡ overlap * channels)
  length-stitch s converted hop context overlap span channels done =
      let (some_channel, two_frames, long) =
        stitch_accepts s converted hop context overlap span channels done in
      let offset = stitch_offset converted s.tail context overlap span channels in
      let near = stitch_offset-le converted s.tail context overlap span channels in
      let inside = reads_inside converted hop context overlap span channels offset near long in
      let start = (context + offset) * channels in
      let chosen = take (hop * channels) (drop start converted) in
      let same = some-injective _ _ (
        sym done
        ∙ stitch_eq s converted hop context overlap span channels some_channel two_frames long) in
      (
        ap (λ (o : StreamAssembler F × List F). length o.1) same
            ∙ length-mix_frames s.tail overlap channels overlap 0 chosen
            ∙ omega (
              arith,
              length-take (hop * channels) (drop start converted),
              length-drop start converted,
            ),
        ap (λ (o : StreamAssembler F × List F). length o.0.tail) same
            ∙ omega (
              arith,
              length-take (overlap * channels) (drop (start + hop * channels) converted),
              length-drop (start + hop * channels) converted,
            ),
      )
