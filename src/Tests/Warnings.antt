-- ===== src/Tests/Warnings.antt =====
-- The warnings of the program at concrete values.
use obs_rvc.Prelude.{ℕ, ◌≡◌, ◌⊎◌, true, false, none, some, List, [], ◌∷◌, map, if◌then◌else◌, ◌==◌}
use obs_rvc.Prelude.Int.{pos}
use obs_rvc.Utils.Renderer.{
  renderer_names, AnyWithin, software_rendering_warning, software_rendering_warning_lem,
}
use obs_rvc.Conversion.Report.{Report, RoundEnd, report_all, IsQuiet, report_all-IsQuiet}

-- "X llvmpipe", with a capital L.
abbrev device : List ℕ
device = 88 ∷ 32 ∷ 76 ∷ 108 ∷ 118 ∷ 109 ∷ 112 ∷ 105 ∷ 112 ∷ 101 ∷ []

abbrev to_lower : ℕ → ℕ
to_lower c = if c == 76 then 108 else c

software_rendering_warning_lem_example :
    ((software_rendering_warning to_lower (some device) ≡ none)
      × (¬ AnyWithin (map to_lower device) renderer_names))
    ⊎ ((software_rendering_warning to_lower (some device) ≡ some device)
        × AnyWithin (map to_lower device) renderer_names)
software_rendering_warning_lem_example = software_rendering_warning_lem to_lower (some device)

abbrev fresh : Report
fresh = record { last_warning = 0; reported_underflows = 0 }

-- Slow rounds: one after six seconds with an underflow, and one a second later.
abbrev slow_at : ℕ → RoundEnd
slow_at now = record {
  underflows = 1;
  is_slow = true;
  first_conversion = false;
  increased_duration = pos 0;
  now = now;
}

report_all-IsQuiet_example :
    IsQuiet fresh (report_all fresh (slow_at 6_000_000_000 ∷ slow_at 7_000_000_000 ∷ []))
report_all-IsQuiet_example =
    report_all-IsQuiet fresh (slow_at 6_000_000_000 ∷ slow_at 7_000_000_000 ∷ [])
