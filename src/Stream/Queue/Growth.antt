-- ===== src/Stream/Queue/Growth.antt =====
-- The loop of `ensure_capacity`.
use native.Mathlib.Nat.{pow-succ', mul_assoc, mod-eq_of_lt}
use obs_rvc.Prelude.{
  ℕ, zero, suc, ◌*◌, ◌%◌, ◌^◌, ◌≤◌, ◌<◌, ◌≡◌, ◌⊎◌, inl, inr, sym, ◌∙◌, ap, arith, lt→ltb, dec_lt,
}
use obs_rvc.Stream.Queue.{grow, grow_fuel}

pow_step : (capacity fuel : ℕ) → capacity * 2 ^ suc fuel ≡ capacity * 2 * 2 ^ fuel
pow_step capacity fuel =
    ap (◌*◌ capacity) (pow-succ' 2 fuel) ∙ sym (mul_assoc capacity 2 (2 ^ fuel))

-- One round of the loop below the half of the address space does not wrap.
grow-suc :
    (fuel capacity required : ℕ)
    → capacity < required
    → required ≤ 2 ^ 63
    → grow (suc fuel) capacity required ≡ grow fuel (capacity * 2) required
unfolding grow
grow-suc fuel capacity required lt small =
    let same : capacity * 2 % 2 ^ 64 ≡ capacity * 2 = mod-eq_of_lt (omega arith) in
    rw (lt→ltb capacity required lt, grow) (ap (λ c. grow fuel c required) same)

grow-done :
    (fuel capacity required : ℕ)
    → required ≤ capacity
    → grow (suc fuel) capacity required ≡ capacity
unfolding grow
grow-done fuel capacity required le = ground arith

grow-reaches :
    (fuel capacity required : ℕ)
    → required ≤ 2 ^ 63
    → required ≤ capacity * 2 ^ fuel
    → required ≤ grow fuel capacity required
unfolding grow
grow-reaches zero capacity required small h = omega arith
grow-reaches (suc fuel) capacity required small h = elim (dec_lt capacity required) [
  | yes lt ↦
      let enough = rw (pow_step capacity fuel) at h in
      omega (
        arith,
        grow-suc fuel capacity required lt small,
        grow-reaches fuel (capacity * 2) required small enough,
      )
  | no ge ↦ omega (arith, grow-done fuel capacity required (omega arith))
]

grow-bounds :
    (fuel capacity required : ℕ)
    → required ≤ 2 ^ 63
    → (grow fuel capacity required ≡ capacity) ⊎ (grow fuel capacity required < 2 * required)
unfolding grow
grow-bounds zero capacity required small = inl (omega arith)
grow-bounds (suc fuel) capacity required small = elim (dec_lt capacity required) [
  | yes lt ↦ inr (
      omega (
        arith,
        grow-suc fuel capacity required lt small,
        grow-bounds fuel (capacity * 2) required small,
      ))
  | no ge ↦ inl (grow-done fuel capacity required (omega arith))
]

-- The loop ends by its own test within its 64 rounds, for a starting capacity of at least one and
-- a request of at most 2^63 elements: the capacity that it returns holds the request. That
-- capacity is the one it started from, or less than twice the request.
pub grow_lem :
    (capacity required : ℕ)
    → 1 ≤ capacity
    → required ≤ 2 ^ 63
    → (required ≤ grow grow_fuel capacity required)
      × ((grow grow_fuel capacity required ≡ capacity)
          ⊎ (grow grow_fuel capacity required < 2 * required))
grow_lem capacity required positive small = (
  grow-reaches grow_fuel capacity required small (omega arith),
  grow-bounds grow_fuel capacity required small,
)
