-- ===== src/Stream/Assembler/Best.antt =====
-- The shift that the search of `stitch` settles on.
use obs_rvc.Prelude.{
  ℕ, zero, suc, ◌+◌, ◌*◌, ◌≤◌, ◌<◌, ◌≡◌, refl, ◌⊎◌, inl, inr, true, false, List, arith, length,
  Bool, Bool-cases, if_cases, if◌then◌else◌, sym, ap, ◌∙◌, ==_iff, ℕ_discrete, ◌==◌,
}
use obs_rvc.Float.{Floats, Arithmetic, IsComparison}
use obs_rvc.Stream.Assembler.{search_from, score, stitch_offset}

module _ {D : Type 0} (a : Arithmetic D) (laws : IsComparison a) (scores : ℕ → D) where
  open laws use {irreflexive, not_above}

  -- The search never leaves a score above the one that it keeps.
  record IsBest (shift rounds : ℕ) (best : D) (offset : ℕ) (found : D × ℕ) : Type 0 where
    -- nothing seen later is above the result, and nothing that was not above the start either
    beats : (s : ℕ) → shift ≤ s → s < shift + rounds → a.lt found.0 (scores s) ≡ false
    keeps : (d : D) → a.lt best d ≡ false → a.lt found.0 d ≡ false
    -- the result is what the loop started with, or the score of a shift that it saw
    source :
        ((found.0 ≡ best) × (found.1 ≡ offset))
        ⊎ ((found.0 ≡ scores found.1) × (shift ≤ found.1) × (found.1 < shift + rounds))

  IsBest-better :
      {shift rounds offset : ℕ} {best : D} {found : D × ℕ}
      → a.lt best (scores shift) ≡ true
      → IsBest (suc shift) rounds (scores shift) shift found
      → IsBest shift (suc rounds) best offset found
  IsBest-better {shift} {found = found} above b = record {
    beats = λ s from to. elim (ℕ_discrete s shift) [
      | yes e ↦ rw e (b.keeps (scores shift) (irreflexive (scores shift)))
      | no ne ↦ b.beats s (omega arith) (omega arith)
    ];
    keeps = λ d h. b.keeps d (not_above _ (scores shift) d above h);
    source = elim b.source [
      | inl (value, place) ↦ inr (value ∙ ap scores (sym place), omega arith, omega arith)
      | inr (value, from, to) ↦ inr (value, omega arith, omega arith)
    ];
  }

  IsBest-same :
      {shift rounds offset : ℕ} {best : D} {found : D × ℕ}
      → a.lt best (scores shift) ≡ false
      → IsBest (suc shift) rounds best offset found
      → IsBest shift (suc rounds) best offset found
  IsBest-same {shift} below b = record {
    beats = λ s from to. elim (ℕ_discrete s shift) [
      | yes e ↦ rw e (b.keeps (scores shift) below)
      | no ne ↦ b.beats s (omega arith) (omega arith)
    ];
    keeps = b.keeps;
    source = elim b.source [
      | inl same ↦ inl same
      | inr (value, from, to) ↦ inr (value, omega arith, omega arith)
    ];
  }

  search_from-IsBest :
      (rounds shift : ℕ) (best : D) (offset : ℕ)
      → IsBest shift rounds best offset (search_from a.lt scores rounds shift best offset)
  unfolding search_from
  search_from-IsBest zero shift best offset = record {
    beats = λ s from to. absurd (omega arith);
    keeps = λ d h. h;
    source = inl (refl, refl);
  }
  search_from-IsBest (suc rounds) shift best offset = elim (Bool-cases (a.lt best (scores shift))) [
    | inl e ↦
        rw (e, search_from)
          (IsBest-better e (search_from-IsBest rounds (suc shift) (scores shift) shift))
    | inr e ↦
        rw (e, search_from) (IsBest-same e (search_from-IsBest rounds (suc shift) best offset))
  ]

search_from-lt :
    {D : Type 0} (lt : D → D → Bool) (scores : ℕ → D) (rounds shift : ℕ) (best : D) (offset : ℕ)
    → offset < shift + rounds
    → (search_from lt scores rounds shift best offset).1 < shift + rounds
unfolding search_from
search_from-lt lt scores zero shift best offset h = h
search_from-lt lt scores (suc rounds) shift best offset h =
    let better = lt best (scores shift) in
    let next = if better then shift else offset in
    let inside =
      if_cases (λ o. o < suc shift + rounds) better shift offset (λ _. omega arith)
        (λ _. omega arith) in
    omega (
      arith,
      search_from-lt lt scores rounds (suc shift) (if better then scores shift else best) next
          inside,
    )

module _ {F : Type 0} ⦃fl : Floats F⦄ where
  pub stitch_offset-le :
      (converted tail : List F) (context overlap span channels : ℕ)
      → stitch_offset converted tail context overlap span channels ≤ span
  unfolding stitch_offset
  stitch_offset-le converted tail context overlap span channels =
      let scores = score converted tail context channels in
      if_cases (λ o. o ≤ span) (length tail == overlap * channels) _ 0
        (λ _.
          omega
            (arith, search_from-lt fl.double.lt scores (suc span) 0 fl.minus_two 0 (omega arith)))
        (λ _. omega arith)

  -- If the tail is as long as the overlap, then no shift `s` up to `span` has a score above that of
  -- the shift that `stitch` aligns by, or that shift is 0 and the score of `s` is not above -2.
  -- The laws asked of `<` hold for NaN too.
  pub stitch_offset_best :
      (converted tail : List F) (context overlap span channels : ℕ)
      → IsComparison fl.double
      → length tail ≡ overlap * channels
      → (s : ℕ) → s ≤ span
      → let chosen = stitch_offset converted tail context overlap span channels in
        let scores = score converted tail context channels in
        (fl.double.lt (scores chosen) (scores s) ≡ false)
        ⊎ ((chosen ≡ 0) × (fl.double.lt fl.minus_two (scores s) ≡ false))
  unfolding stitch_offset
  stitch_offset_best converted tail context overlap span channels laws same s le =
      let scores = score converted tail context channels in
      let best = search_from-IsBest fl.double laws scores (suc span) 0 fl.minus_two 0 in
      let below = best.beats s (omega arith) (omega arith) in
      rw ((==_iff _ _).1 same) (elim best.source [
        | inl (value, place) ↦ inr (place, rw value at below)
        | inr (value, from, to) ↦ inl (rw value at below)
      ])
