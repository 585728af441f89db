-- ===== src/Tests/Streams.antt =====
-- The queue, the assembler and the strings at concrete values.
use obs_rvc.Prelude.{
  ℕ, ◌+◌, ◌*◌, ◌≤◌, ◌≡◌, ◌⊎◌, refl, false, List, [], ◌∷◌, arith, some, length, take, get_or, memcpy,
}
use obs_rvc.Float.{nought}
use obs_rvc.Stream.Queue.{AudioSampleQueue, append}
use obs_rvc.Stream.Queue.Window.{contents}
use obs_rvc.Stream.Queue.Refine.{IsValid}
use obs_rvc.Stream.Queue.Append.{append_lem}
use obs_rvc.Stream.Queue.Run.{Op, put, copy, drop_front, measure, run, run_list, run_refines}
use obs_rvc.Stream.Assembler.{StreamAssembler, reset, stitch, stitch_offset, score}
use obs_rvc.Stream.Assembler.Best.{stitch_offset_best}
use obs_rvc.Stream.Assembler.Stitch.{stitch_lem, stitch_faded, IsStitched}
use obs_rvc.Stream.Assembler.Windows.{windows, slices, windows-reset}
use obs_rvc.Utils.Strings.{copy_string, copy_string_lem}
use obs_rvc.Tests.Sample.{whole_floats, whole-IsComparison}

-- The samples 7, 8, 9 round the end of a storage of four.
abbrev wrapped : AudioSampleQueue ℕ
wrapped = record { storage = 9 ∷ 0 ∷ 7 ∷ 8 ∷ []; head = 2; count = 3 }

wrapped-IsValid : IsValid wrapped
wrapped-IsValid = omega arith

abbrev calls : List (Op ℕ)
calls = put (1 ∷ 2 ∷ []) ∷ copy (5 ∷ []) 4 ∷ drop_front 2 ∷ measure ∷ []

run_refines_example : run 0 wrapped calls ≡ run_list (7 ∷ 8 ∷ 9 ∷ []) calls
run_refines_example = run_refines 0 calls wrapped-IsValid (omega arith)

append_lem_example :
    IsValid (append 0 wrapped (1 ∷ 2 ∷ []))
    × (contents (append 0 wrapped (1 ∷ 2 ∷ [])) ≡ 7 ∷ 8 ∷ 9 ∷ 1 ∷ 2 ∷ [])
append_lem_example = append_lem 0 (1 ∷ 2 ∷ []) wrapped-IsValid (omega arith)

abbrev kept : StreamAssembler ℕ
kept = record { history = 5 ∷ 6 ∷ []; tail = 3 ∷ 4 ∷ [] }

windows-reset_example :
    windows (reset kept) (1 ∷ 2 ∷ 3 ∷ 4 ∷ 5 ∷ []) 3 2 2 1 2
    ≡ slices (0 ∷ 0 ∷ 1 ∷ 2 ∷ 3 ∷ 4 ∷ 5 ∷ []) 5 2 2
windows-reset_example =
    windows-reset kept (1 ∷ 2 ∷ 3 ∷ 4 ∷ 5 ∷ []) 3 2 2 1 2 (omega arith) (omega arith)

abbrev converted_window : List ℕ
converted_window = 9 ∷ 3 ∷ 4 ∷ 5 ∷ 6 ∷ 7 ∷ 8 ∷ []

stitch_lem_example :
    let offset = stitch_offset converted_window (3 ∷ 4 ∷ []) 1 2 1 1 in
    (offset ≤ 1)
    × (out : StreamAssembler ℕ × List ℕ) × (stitch kept converted_window 3 1 2 1 1 ≡ some out)
    × IsStitched kept converted_window 3 1 2 1 offset out
stitch_lem_example =
    stitch_lem kept converted_window 3 1 2 1 1 (omega arith) (omega arith) (omega arith)
      (omega arith)

abbrev stitched_once : StreamAssembler ℕ × List ℕ
stitched_once =
    (stitch_lem kept converted_window 3 1 2 1 1 (omega arith) (omega arith) (omega arith)
      (omega arith)).1

stitch_faded_example :
    let offset = stitch_offset converted_window (3 ∷ 4 ∷ []) 1 2 1 1 in
    let single = whole_floats.single in
    let place = single.div 1 1 in
    let weight =
      single.sub whole_floats.half
        (single.mul whole_floats.half (whole_floats.cos (single.mul whole_floats.pi place))) in
    get_or stitched_once.1 (1 * 1 + 0) nought
    ≡ single.add
        (single.mul 4 (single.sub 1 weight))
        (single.mul (get_or converted_window ((1 + offset) * 1 + (1 * 1 + 0)) nought) weight)
stitch_faded_example =
    stitch_faded kept converted_window 3 1 2 1 1 1 0 {out = stitched_once} (omega arith)
      (stitch_lem kept converted_window 3 1 2 1 1 (omega arith) (omega arith) (omega arith)
        (omega arith)).2
      (omega arith) (omega arith)

stitch_offset_best_example :
    let chosen = stitch_offset converted_window (3 ∷ 4 ∷ []) 1 2 1 1 in
    let scores = score converted_window (3 ∷ 4 ∷ []) 1 1 in
    (whole_floats.double.lt (scores chosen) (scores 1) ≡ false)
    ⊎ ((chosen ≡ 0) × (whole_floats.double.lt 0 (scores 1) ≡ false))
stitch_offset_best_example =
    stitch_offset_best converted_window (3 ∷ 4 ∷ []) 1 2 1 1 whole-IsComparison refl 1 (omega arith)

abbrev copied_text : List ℕ
copied_text = 65 ∷ 66 ∷ 0 ∷ 9 ∷ []

copy_string_lem_example : (length copied_text ≡ 4) × (take 3 copied_text ≡ 65 ∷ 66 ∷ 0 ∷ [])
unfolding copy_string memcpy
copy_string_lem_example =
    copy_string_lem (9 ∷ 9 ∷ 9 ∷ 9 ∷ []) (some (65 ∷ 66 ∷ [])) {copied = copied_text} refl
