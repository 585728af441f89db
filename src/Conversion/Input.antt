-- ===== src/Conversion/Input.antt =====
-- The bound that `submit` keeps on the waiting input.
use native.Mathlib.Nat.{div-mul-le_self, lt-div-mul-add}
use obs_rvc.Prelude.{
  ℕ, ◌+◌, ◌-◌, ◌*◌, ◌/◌, ◌≤◌, ◌<◌, ◌≡◌, refl, ap, ◌∙◌, ◌⊎◌, inl, inr, true, lt→ltb, le→ltb_false,
  dec_lt, drop, arith,
}
use obs_rvc.Float.{Floats}
use obs_rvc.Stream.Queue
use obs_rvc.Stream.Queue.{AudioSampleQueue}
use obs_rvc.Stream.Queue.Refine.{IsValid, size-discard, discard_lem}
use obs_rvc.Stream.Queue.Window.{contents}
use obs_rvc.Conversion.Worker.{
  Impl, block_frames, needed_frames, maximum_samples, frames_to_discard, trim_input, next_word,
}

-- Rounding up to whole blocks: at least the excess, and less than a block more.
pub frames_to_discard_bounds :
    (excess hop : ℕ)
    → 0 < hop
    → (excess ≤ frames_to_discard excess hop) × (frames_to_discard excess hop < excess + hop)
unfolding frames_to_discard
frames_to_discard_bounds excess hop some_hop = ground (
  arith,
  div-mul-le_self (excess + hop - 1) hop,
  lt-div-mul-add {a = excess + hop - 1} {b = hop} some_hop,
)

pub frames_to_discard_zero : (excess : ℕ) → frames_to_discard excess 0 ≡ excess
unfolding frames_to_discard
frames_to_discard_zero excess = refl

module _ {F : Type 0} ⦃fl : Floats F⦄ where
  -- What the trim does where the input is too long, and where it is not.
  trim_long :
      (w : Impl F)
      → maximum_samples w < Queue.size w.input
      → trim_input w ≡ record w {
        input =
            Queue.discard w.input
              (frames_to_discard (Queue.size w.input - maximum_samples w) (block_frames w));
        generation = next_word w.generation;
        discontinuity = true;
      }
  unfolding trim_input
  trim_long w long = rw (lt→ltb (maximum_samples w) (Queue.size w.input) long)

  trim_short : (w : Impl F) → Queue.size w.input ≤ maximum_samples w → trim_input w ≡ w
  unfolding trim_input
  trim_short w short = rw (le→ltb_false (maximum_samples w) (Queue.size w.input) short)

  -- The whole blocks that are discarded.
  blocks_discarded : (w : Impl F) → ℕ
  blocks_discarded w =
      (Queue.size w.input - maximum_samples w + block_frames w - 1) / block_frames w

  discards_blocks :
      (w : Impl F)
      → 0 < block_frames w
      → frames_to_discard (Queue.size w.input - maximum_samples w) (block_frames w)
        ≡ blocks_discarded w * block_frames w
  unfolding frames_to_discard blocks_discarded
  discards_blocks w some_block = ground arith

  some_discarded :
      (w : Impl F)
      → 0 < block_frames w
      → maximum_samples w < Queue.size w.input
      → 0 < blocks_discarded w
  some_discarded w some_block long =
      let excess = Queue.size w.input - maximum_samples w in
      elim (dec_lt 0 (blocks_discarded w)) [
        | yes some_blocks ↦ some_blocks
        | no no_block ↦ absurd (
            omega (
              arith,
              frames_to_discard_bounds excess (block_frames w) some_block,
              discards_blocks w some_block,
              ap (λ n. n * block_frames w) {x = blocks_discarded w} {y = 0} (omega arith),
            ))
      ]

  -- The trim leaves at most the maximum. An input within the maximum leaves the worker alone. Of a
  -- longer one it drops the oldest samples, one block or more and whole blocks only, leaves enough
  -- for the next conversion, begins a new generation and marks the discontinuity. This is for a
  -- queue that is valid and a block that is not empty.
  pub trim_input_lem :
      (w : Impl F)
      → IsValid w.input
      → 0 < block_frames w
      → let w' = trim_input w in
        (Queue.size w'.input ≤ maximum_samples w)
        × (((Queue.size w.input ≤ maximum_samples w) × (w' ≡ w))
            ⊎ ((maximum_samples w < Queue.size w.input)
                × (needed_frames w ≤ Queue.size w'.input)
                × ((k : ℕ) × ((0 < k)
                      × (contents w'.input ≡ drop (k * block_frames w) (contents w.input))))
                × (w'.generation ≡ next_word w.generation)
                × (w'.discontinuity ≡ true)))
  trim_input_lem w valid some_block = elim (dec_lt (maximum_samples w) (Queue.size w.input)) [
    | yes long ↦
        let excess = Queue.size w.input - maximum_samples w in
        let dropped = frames_to_discard excess (block_frames w) in
        let (enough, near) = frames_to_discard_bounds excess (block_frames w) some_block in
        let left = size-discard w.input dropped in
        rw (trim_long w long) (
          omega arith,
          inr (
            long,
            omega arith,
            (
              blocks_discarded w,
              (
                some_discarded w some_block long,
                discard_lem dropped valid
                    ∙ ap (λ n. drop n (contents w.input)) (discards_blocks w some_block),
              ),
            ),
            refl,
            refl,
          ),
        )
    | no short ↦
        let within = trim_short w (omega arith) in rw within (omega arith, inl (omega arith, refl))
  ]
