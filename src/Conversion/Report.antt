-- ===== src/Conversion/Report.antt =====
-- What `ConversionWorker::Impl::run` of plugin/src/rvc/filter/rvc-filter-conversion.cpp measures and
-- warns of at the end of a round.
use mathlib.Core.Path.{subst}
use obs_rvc.Prelude.{
  ℕ, ◌+◌, ◌<◌, ◌≡◌, refl, sym, not_both, Bool, true, not, ◌&&◌, ◌==◌, List, [], ◌∷◌, ◌++◌, map, ltb,
  arith, if◌then◌else◌, if_cases, ==_iff,
}
use obs_rvc.Prelude.Int.{ℤ, pos, ltb_ℤ}
use obs_rvc.Float.{Floats}
use obs_rvc.Conversion.Worker.{Impl}
use obs_rvc.Conversion.Loop.{Job, adapt}

pub data Warning : Type 0 where
  underflow : ℕ → Warning
  grown : ℤ → Warning
  too_slow : Warning

-- The locals that outlive a round; the clock is in nanoseconds.
pub record Report : Type 0 where
  pub last_warning : ℕ
  pub reported_underflows : ℕ

-- What the end of a round has at hand: the underflows of its critical section, whether the
-- conversion was slower than real time, whether it was the first, and `increased_duration`.
pub record RoundEnd : Type 0 where
  pub underflows : ℕ
  pub is_slow : Bool
  pub first_conversion : Bool
  pub increased_duration : ℤ
  pub now : ℕ

module _ {F : Type 0} ⦃fl : Floats F⦄ where
  -- `realtime_factor > 1.0`, with the seconds that the conversion took.
  unfoldable slower_than_realtime : Job F → fl.Double → Bool
  slower_than_realtime job seconds =
      let duration =
        fl.double.div (fl.double.of_nat job.hop_frames) (fl.double.of_nat job.sample_rate) in
      fl.double.lt (fl.double.of_nat 1) (fl.double.div seconds duration)

  -- The last critical section and what the warnings read of it.
  abbrev round_end : Impl F → Job F → fl.Double → ℕ → ℕ → Impl F × RoundEnd
  round_end w job seconds underflows now =
      let is_slow = slower_than_realtime job seconds in
      let (worker, increased) = adapt w job is_slow in
      (
        worker,
        record {
          underflows = underflows;
          is_slow = is_slow;
          first_conversion = job.first_conversion;
          increased_duration = increased;
          now = now;
        },
      )

-- `seconds(5)`
abbrev quiet_ns : ℕ
quiet_ns = 5_000_000_000

abbrev underflow_warnings : Report → RoundEnd → List Warning
underflow_warnings r e =
    if e.underflows == r.reported_underflows then [] else underflow e.underflows ∷ []

abbrev is_nagging : Report → RoundEnd → Bool
is_nagging r e = not e.first_conversion && (e.is_slow && ltb (r.last_warning + quiet_ns) e.now)

-- The time of the last warning about the speed, and the warning of this round.
unfoldable pub speed_warnings : Report → RoundEnd → ℕ × List Warning
speed_warnings r e =
    if ltb_ℤ (pos 0) e.increased_duration
    then (e.now, grown e.increased_duration ∷ [])
    else if is_nagging r e
    then (e.now, too_slow ∷ [])
    else (r.last_warning, [])

unfoldable pub report : Report → RoundEnd → Report × List Warning
report r e =
    let (last, warnings) = speed_warnings r e in
    (
      record { last_warning = last; reported_underflows = e.underflows },
      underflow_warnings r e ++ warnings,
    )

-- The warnings of a sequence of rounds, each with the clock of its round.
unfoldable pub report_all : Report → List RoundEnd → List (ℕ × Warning)
report_all r [] = []
report_all r (e ∷ es) = let out = report r e in map (λ w. (e.now, w)) out.1 ++ report_all out.0 es

-- Warnings that do not come too often, nor twice.
abbrev pub IsQuiet : Report → List (ℕ × Warning) → Type 0
IsQuiet r [] = Unit
IsQuiet r ((now, underflow total) ∷ rest) =
    (¬ total ≡ r.reported_underflows) × IsQuiet (record r { reported_underflows = total }) rest
IsQuiet r ((now, grown duration) ∷ rest) = IsQuiet (record r { last_warning = now }) rest
IsQuiet r ((now, too_slow) ∷ rest) =
    (r.last_warning + quiet_ns < now) × IsQuiet (record r { last_warning = now }) rest

underflow-IsQuiet :
    (r : Report) (e : RoundEnd) (more : List Warning) (rest : List (ℕ × Warning))
    → IsQuiet (record r { reported_underflows = e.underflows }) (map (λ w. (e.now, w)) more ++ rest)
    → IsQuiet r (map (λ w. (e.now, w)) (underflow_warnings r e ++ more) ++ rest)
underflow-IsQuiet r e more rest quiet =
    if_cases (λ ws. IsQuiet r (map (λ w. (e.now, w)) (ws ++ more) ++ rest))
      (e.underflows == r.reported_underflows) [] (underflow e.underflows ∷ [])
      (λ same.
        let total = (==_iff e.underflows r.reported_underflows).0 same in
        subst
          (λ n. IsQuiet (record r { reported_underflows = n }) (map (λ w. (e.now, w)) more ++ rest))
          total quiet)
      (λ new. (λ same. not_both new ((==_iff e.underflows r.reported_underflows).1 same), quiet))

is_nagging-late :
    (r : Report) (e : RoundEnd) → is_nagging r e ≡ true → r.last_warning + quiet_ns < e.now
is_nagging-late r e nagging = ground arith

speed-IsQuiet :
    (r r' : Report) (e : RoundEnd) (rest : List (ℕ × Warning))
    → r'.last_warning ≡ r.last_warning
    → IsQuiet (record r' { last_warning = (speed_warnings r e).0 }) rest
    → IsQuiet r' (map (λ w. (e.now, w)) (speed_warnings r e).1 ++ rest)
unfolding speed_warnings
speed-IsQuiet r r' e rest same =
    if_cases {A = ℕ × List Warning}
      (λ out.
        IsQuiet (record r' { last_warning = out.0 }) rest
        → IsQuiet r' (map (λ w. (e.now, w)) out.1 ++ rest))
      (ltb_ℤ (pos 0) e.increased_duration) _ _ (λ _ quiet. quiet)
      (λ _.
        if_cases {A = ℕ × List Warning}
          (λ out.
            IsQuiet (record r' { last_warning = out.0 }) rest
            → IsQuiet r' (map (λ w. (e.now, w)) out.1 ++ rest))
          (is_nagging r e) _ _ (λ nagging quiet. (rw same (is_nagging-late r e nagging), quiet))
          (λ _ quiet. subst (λ n. IsQuiet (record r' { last_warning = n }) rest) (sym same) quiet))

-- Over any sequence of rounds, whatever they find: the worker is called too slow only when more than
-- five seconds have passed since it last was, or grew; and an underflow is told only of a total that
-- differs from the last one told.
pub report_all-IsQuiet : (r : Report) (es : List RoundEnd) → IsQuiet r (report_all r es)
unfolding report_all report
report_all-IsQuiet r [] = tt
report_all-IsQuiet r (e ∷ es) = underflow-IsQuiet r e (speed_warnings r e).1 _ (
    speed-IsQuiet r (record r { reported_underflows = e.underflows }) e _ refl
      (report_all-IsQuiet (report r e).0 es))
