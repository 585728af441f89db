-- ===== src/Stream/Assembler.antt =====
-- `StreamAssembler` of plugin/src/rvc/filter/rvc-filter-stream.cpp: it cuts the input into windows
-- that begin with history, and stitches the converted windows by a crossfade.
pub mod Best
mod Fade
pub mod Stitch
pub mod Windows
use obs_rvc.Prelude.{
  ℕ, zero, suc, ◌+◌, ◌-◌, ◌*◌, Bool, Option, none, some, List, [], ◌∷◌, ltb, ◌==◌, ◌||◌,
  if◌then◌else◌, length, is_nil, get_or, set, take, drop, replicate, memcpy, resize,
}
use obs_rvc.Float.{Floats, nought, one}

-- `kStreamHistoryMs` and its neighbours
abbrev pub stream_history_ms : ℕ
stream_history_ms = 40

abbrev pub stream_overlap_ms : ℕ
stream_overlap_ms = 30

abbrev pub stream_search_ms : ℕ
stream_search_ms = 10

abbrev pub stream_lookahead_ms : ℕ
stream_lookahead_ms = stream_overlap_ms + stream_search_ms + 20

pub record StreamAssembler (F : Type 0) : Type 0 where
  pub history : List F
  pub tail : List F

-- The three sums that the search for the best shift collects.
pub record Correlation (D : Type 0) : Type 0 where
  dot : D
  energy : D
  previous_energy : D

module _ {F : Type 0} where
  unfoldable pub reset : StreamAssembler F → StreamAssembler F
  reset s = record { history = []; tail = [] }

-- The outer loop of the search, with `rounds` shifts to go: the best score so far and its shift.
-- Scores are compared by `lt`.
unfoldable pub search_from {ℓ} : {D : Type ℓ} → (D → D → Bool) → (ℕ → D) → ℕ → ℕ → D → ℕ → D × ℕ
search_from lt scores zero shift best offset = (best, offset)
search_from lt scores (suc rounds) shift best offset =
    let better = lt best (scores shift) in
    search_from lt scores rounds (suc shift) (if better then scores shift else best)
      (if better then shift else offset)

module _ {F : Type 0} ⦃fl : Floats F⦄ where
  -- The history after `history.assign(...)`: silence, where the kept one has another size.
  unfoldable pub leading : StreamAssembler F → ℕ → List F
  leading s size = if length s.history == size then s.history else replicate size nought

  -- The two copies that fill the resized `result`.
  unfoldable pub joined : List F → List F → List F → List F
  joined result history input =
      let sized = resize nought result (length history + length input) in
      memcpy (memcpy sized 0 history 0 (length history)) (length history) input 0 (length input)

  -- `window` returns the assembler and the new `result`.
  unfoldable pub window :
      StreamAssembler F → List F → ℕ → ℕ → ℕ → List F → StreamAssembler F × List F
  window s input hop context channels result =
      let history = leading s (context * channels) in
      let filled = joined result history input in
      (record s { history = memcpy history 0 filled (hop * channels) (length history) }, filled)

  -- The inner loop of `stitch` over the tail, whose element `i` is the head of the list.
  unfoldable pub correlate : List F → ℕ → List F → ℕ → Correlation fl.Double → Correlation fl.Double
  correlate converted start [] i sums = sums
  correlate converted start (previous ∷ rest) i sums =
      let value = get_or converted (start + i) nought in
      correlate converted start rest (suc i) (record {
        dot = fl.double.add sums.dot (fl.widen (fl.single.mul value previous));
        energy = fl.double.add sums.energy (fl.widen (fl.single.mul value value));
        previous_energy =
            fl.double.add sums.previous_energy (fl.widen (fl.single.mul previous previous));
      })

  -- The score of one shift.
  unfoldable pub score : List F → List F → ℕ → ℕ → ℕ → fl.Double
  score converted tail context channels shift =
      let sums =
        correlate converted ((context + shift) * channels) tail 0
          (record { dot = fl.double.of_nat 0; energy = fl.tiny; previous_energy = fl.tiny }) in
      fl.double.div sums.dot (fl.sqrt (fl.double.mul sums.energy sums.previous_energy))

  unfoldable pub stitch_offset : List F → List F → ℕ → ℕ → ℕ → ℕ → ℕ
  stitch_offset converted tail context overlap span channels =
      let found =
        search_from fl.double.lt (score converted tail context channels) (suc span) 0 fl.minus_two
          0 in
      if length tail == overlap * channels then found.1 else 0

  unfoldable pub fade_of : ℕ → ℕ → F
  fade_of overlap frame =
      let position = fl.single.div (fl.single.of_nat frame) (fl.single.of_nat (overlap - 1)) in
      fl.single.sub fl.half (fl.single.mul fl.half (fl.cos (fl.single.mul fl.pi position)))

  -- `previous * (1.0F - fade) + result[i] * fade`
  unfoldable pub mix : List F → ℕ → F → F → F
  mix tail i fade sample =
      let previous = if is_nil tail then nought else get_or tail i nought in
      fl.single.add (fl.single.mul previous (fl.single.sub one fade)) (fl.single.mul sample fade)

  -- The two loops of the crossfade, with `left` channels and `left` frames to go.
  unfoldable pub mix_channels : List F → ℕ → F → ℕ → ℕ → List F → List F
  mix_channels tail base fade zero channel result = result
  mix_channels tail base fade (suc left) channel result =
      let i = base + channel in
      mix_channels tail base fade left (suc channel)
        (set result i (mix tail i fade (get_or result i nought)))

  unfoldable pub mix_frames : List F → ℕ → ℕ → ℕ → ℕ → List F → List F
  mix_frames tail overlap channels zero frame result = result
  mix_frames tail overlap channels (suc left) frame result =
      mix_frames tail overlap channels left (suc frame)
        (mix_channels tail (frame * channels) (fade_of overlap frame) channels 0 result)

  -- The guard of `stitch`.
  abbrev refuses : List F → ℕ → ℕ → ℕ → ℕ → ℕ → Bool
  refuses converted hop context overlap span channels =
      channels == 0
      || ltb overlap 2
      || ltb (length converted) ((context + hop + overlap + span) * channels)

  -- `none` is `false`: neither the assembler nor `result` changes.
  unfoldable pub stitch :
      StreamAssembler F → List F → ℕ → ℕ → ℕ → ℕ → ℕ → Option (StreamAssembler F × List F)
  stitch s converted hop context overlap span channels =
      let offset = stitch_offset converted s.tail context overlap span channels in
      let start = (context + offset) * channels in
      let chosen = take (hop * channels) (drop start converted) in
      let result = mix_frames s.tail overlap channels overlap 0 chosen in
      let tail = take (overlap * channels) (drop (start + hop * channels) converted) in
      if refuses converted hop context overlap span channels
      then none
      else some (record s { tail = tail }, result)
