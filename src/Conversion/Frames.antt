-- ===== src/Conversion/Frames.antt =====
-- The frame counts of plugin/src/rvc/filter/rvc-filter-conversion.cpp and their bounds.
use native.Mathlib.Nat.{mod-eq_of_lt, mul-le-mul, mul-le-mul_left}
use obs_rvc.Prelude.{
  ℕ, ◌+◌, ◌-◌, ◌*◌, ◌/◌, ◌%◌, ◌^◌, ◌≤◌, ◌<◌, min, ◌≡◌, ap, leb, if◌then◌else◌, not, arith,
}
use obs_rvc.Prelude.Int.{ℤ, pos, negsuc, pos_part, ◌≤ℤ◌, ltb_ℤ}
use obs_rvc.Ipc.Transport.{max_input_bytes}
use obs_rvc.Stream.Assembler.{
  stream_history_ms, stream_lookahead_ms, stream_overlap_ms, stream_search_ms,
}

-- The product is taken in `size_t`.
unfoldable pub frame_count_for_duration : ℕ → ℕ → ℕ
frame_count_for_duration sample_rate duration_ms = sample_rate * duration_ms % 2 ^ 64 / 1000

abbrev pub bytes_per_sample : ℕ
bytes_per_sample = 2

unfoldable pub conversion_frame_count : ℕ → ℤ → ℕ
conversion_frame_count sample_rate duration_ms =
    let context = frame_count_for_duration sample_rate (stream_history_ms + stream_lookahead_ms) in
    let capacity = max_input_bytes / bytes_per_sample in
    if not (ltb_ℤ (pos 0) duration_ms)
    then 0
    else if leb capacity context
    then 0
    else min (frame_count_for_duration sample_rate (pos_part duration_ms)) (capacity - context)

-- A rate or a duration of 32 bits does not wrap the product.
pub frame_count_lem :
    (sample_rate duration_ms : ℕ)
    → sample_rate < 2 ^ 32
    → duration_ms < 2 ^ 32
    → frame_count_for_duration sample_rate duration_ms ≡ sample_rate * duration_ms / 1000
unfolding frame_count_for_duration
frame_count_lem rate ms small_rate small_ms =
    ap (λ k. k / 1000)
      (mod-eq_of_lt (
        omega (
          arith,
          mul-le-mul {n₁ = rate} {m₁ = ms} {n₂ = 2 ^ 32 - 1} {m₂ = 2 ^ 32 - 1} (omega arith)
              (omega arith),
        )))

abbrev pub history_frames : ℕ → ℕ
history_frames rate = frame_count_for_duration rate stream_history_ms

abbrev pub lookahead_frames : ℕ → ℕ
lookahead_frames rate = frame_count_for_duration rate stream_lookahead_ms

abbrev pub overlap_frames : ℕ → ℕ
overlap_frames rate = frame_count_for_duration rate stream_overlap_ms

abbrev pub search_frames : ℕ → ℕ
search_frames rate = frame_count_for_duration rate stream_search_ms

-- A window of history, block and lookahead fits the audio buffer of a request, in bytes; the
-- window that is sent is not empty if the block is not.
pub window_fits :
    (rate : ℕ) (duration : ℤ)
    → rate < 2 ^ 32
    → 0 < conversion_frame_count rate duration
    → (history_frames rate + conversion_frame_count rate duration + lookahead_frames rate)
        * bytes_per_sample
      ≤ max_input_bytes
unfolding conversion_frame_count frame_count_for_duration
window_fits rate duration small some_frames = ground arith

-- The lookahead has room for the overlap and for every shift of the search.
lookahead_room :
    (rate : ℕ) → rate < 2 ^ 32 → overlap_frames rate + search_frames rate ≤ lookahead_frames rate
unfolding frame_count_for_duration
lookahead_room rate small = omega arith

pub conversion_frame_count-le :
    (rate : ℕ) (duration : ℤ)
    → conversion_frame_count rate duration ≤ max_input_bytes / bytes_per_sample
unfolding conversion_frame_count
conversion_frame_count-le rate duration = ground arith

frame_count_mono :
    (rate short long : ℕ)
    → rate < 2 ^ 32
    → long < 2 ^ 32
    → short ≤ long
    → frame_count_for_duration rate short ≤ frame_count_for_duration rate long
frame_count_mono rate short long small_rate small_long le = omega (
  arith,
  frame_count_lem rate short small_rate (omega arith),
  frame_count_lem rate long small_rate small_long,
  mul-le-mul_left rate le,
)

-- A longer block never has fewer frames.
pub conversion_frame_count_mono :
    (rate : ℕ) (short long : ℤ)
    → rate < 2 ^ 32
    → long ≤ℤ pos (2 ^ 31)
    → short ≤ℤ long
    → conversion_frame_count rate short ≤ conversion_frame_count rate long
unfolding conversion_frame_count
conversion_frame_count_mono rate short (negsuc l) small fits le = ground arith
conversion_frame_count_mono rate (negsuc s) (pos l) small fits le = ground arith
conversion_frame_count_mono rate (pos s) (pos l) small fits le =
    ground (arith, frame_count_mono rate s l small (omega arith) (omega arith))

-- At rates up to three million a block of 30 ms or more is not shorter than the overlap, so the
-- crossfade stays inside the block.
overlap-le-block :
    (rate : ℕ) (duration : ℤ)
    → rate ≤ 3_000_000
    → pos 30 ≤ℤ duration
    → duration ≤ℤ pos (2 ^ 31)
    → overlap_frames rate ≤ conversion_frame_count rate duration
unfolding conversion_frame_count
overlap-le-block rate (negsuc d) slow long fits = absurd (omega arith)
overlap-le-block rate (pos d) slow long fits = ground (
  arith,
  frame_count_mono rate 30 d (omega arith) (omega arith) (omega arith),
  frame_count_lem rate 30 (omega arith) (omega arith),
  frame_count_lem rate 100 (omega arith) (omega arith),
)
