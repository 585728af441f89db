-- ===== src/Stream/Queue/Append.antt =====
-- `append` against the list of the samples that the queue holds.
use native.Mathlib.Nat.{mod-eq_of_lt, mod-eq-sub-mod, mod-lt, min-eq_left, min-eq_right}
use mathlib.Core.List.{append-nil}
use obs_rvc.Prelude.{
  ℕ, ◌+◌, ◌-◌, ◌%◌, ◌^◌, ◌≤◌, ◌<◌, max, ◌≡◌, refl, sym, ap, ◌∙◌, inl, inr, List, ◌++◌, ◌==◌, ==_iff,
  Bool-cases, lt→ltb, ltb_self, le→leb, lt→leb_false, arith, dec_lt, length, take, drop, take_all,
  nil_of_length, take-append_exact, length-append, length-take, length-drop, replicate,
  is_nil-cases, length-replicate, length-memcpy, memcpy,
}
use obs_rvc.Stream.Queue.{
  AudioSampleQueue, copy_out, ensure_capacity, expanded, write_at, write_back, append, size, grow,
  grow_fuel, minimum_capacity,
}
use obs_rvc.Stream.Queue.Growth.{grow_lem}
use obs_rvc.Stream.Queue.Window.{window, contents, take_eq}
use obs_rvc.Stream.Queue.Copies.{window-memcpy, window-memcpy_split, window-memcpy_round}
use obs_rvc.Stream.Queue.Refine.{IsValid, copy_out_lem, size-eq-length}

module _ {ℓ} {A : Type ℓ} where
  write_at-fits :
      (s : List A) (i : ℕ) (vs : List A)
      → length vs ≤ length s - i
      → write_at s i vs ≡ memcpy s i vs 0 (length vs)
  unfolding write_at
  write_at-fits s i vs fits =
      rw (min-eq_left {n = length vs} {m = length s - i} fits, ltb_self (length vs))

  write_at-splits :
      (s : List A) (i : ℕ) (vs : List A)
      → length s - i < length vs
      → let f = length s - i in write_at s i vs ≡ memcpy (memcpy s i vs 0 f) 0 vs f (length vs - f)
  unfolding write_at
  write_at-splits s i vs over =
      let f = length s - i in
      rw (min-eq_right {n = f} {m = length vs} (omega arith), lt→ltb f (length vs) over)

  length-write_at :
      (s : List A) (i : ℕ) (vs : List A)
      → i ≤ length s
      → length vs ≤ length s
      → length (write_at s i vs) ≡ length s
  length-write_at s i vs inside fits = elim (dec_lt (length s - i) (length vs)) [
    | yes over ↦
        let f = length s - i in
        let front = length-memcpy s i vs 0 f (omega arith) (omega arith) in
        ap length (write_at-splits s i vs over)
        ∙ length-memcpy (memcpy s i vs 0 f) 0 vs f (length vs - f) (omega arith) (omega arith)
        ∙ front
    | no within ↦
        ap length (write_at-fits s i vs (omega arith))
        ∙ length-memcpy s i vs 0 (length vs) (omega arith) (omega arith)
  ]

  window-write_at :
      (s vs : List A) (h n : ℕ)
      → h < length s
      → n + length vs ≤ length s
      → window (write_at s ((h + n) % length s) vs) h (n + length vs) ≡ window s h n ++ vs
  window-write_at s vs h n inside fits = elim (dec_lt (h + n) (length s)) [
    | yes p ↦ rw (mod-eq_of_lt p) (elim (dec_lt (length s - (h + n)) (length vs)) [
      | yes over ↦
          ap (λ l. window l h (n + length vs)) (write_at-splits s (h + n) vs over)
          ∙ window-memcpy_split s vs h n (omega arith) (omega arith) fits
      | no within ↦
          ap (λ l. window l h (n + length vs)) (write_at-fits s (h + n) vs (omega arith))
          ∙ window-memcpy s vs h n (omega arith)
    ])
    | no p ↦
        rw
          (
            mod-eq-sub-mod {n = h + n} {m = length s} (omega arith),
            mod-eq_of_lt {n = h + n - length s} {m = length s} (omega arith),
          )
          (ap (λ l. window l h (n + length vs))
              (write_at-fits s (h + n - length s) vs (omega arith))
            ∙ window-memcpy_round s vs h n (omega arith) (omega arith) fits)
  ]

  write_back_lem :
      {q : AudioSampleQueue A} (values : List A)
      → IsValid q
      → 0 < length values
      → q.count + length values ≤ length q.storage
      → IsValid (write_back q values) × (contents (write_back q values) ≡ contents q ++ values)
  unfolding write_back
  write_back_lem {q} values v some_values room =
      let i = (q.head + q.count) % length q.storage in
      let kept =
        length-write_at q.storage i values
          (omega (arith, mod-lt (q.head + q.count) {m = length q.storage} (omega arith)))
          (omega arith) in
      (
        record { head_in = omega arith; count_in = omega arith },
        window-write_at q.storage values q.head q.count (omega arith) room,
      )

  expanded_lem :
      (nought : A) {q : AudioSampleQueue A} (required : ℕ)
      → IsValid q
      → q.count ≤ required
      → required ≤ 2 ^ 63
      → (required ≤ length (expanded nought q required))
        × (take q.count (expanded nought q required) ≡ contents q)
  unfolding expanded
  expanded_lem nought {q} required v le small =
      let capacity = grow grow_fuel (max (length q.storage) minimum_capacity) required in
      let blank = replicate capacity nought in
      let enough : required ≤ length blank = omega (
        arith,
        length-replicate capacity nought,
        (grow_lem (max (length q.storage) minimum_capacity) required (omega arith) small).0,
      ) in
      let size = size-eq-length v in
      elim (Bool-cases (q.count == 0)) [
        | inl none_held ↦
            let zero_count = (==_iff q.count 0).0 none_held in
            rw none_held (
              enough,
              nil_of_length (take q.count blank) (omega (arith, length-take q.count blank))
                  ∙ sym (nil_of_length (contents q) (omega arith)),
            )
        | inr some_held ↦
            let copied : copy_out q blank q.count ≡ contents q ++ drop q.count blank =
              copy_out_lem blank q.count v (omega arith) (omega arith)
              ∙ ap (λ l. l ++ drop q.count blank) (take_all q.count (contents q) (omega arith)) in
            rw some_held (
              omega (
                arith,
                ap length copied,
                length-append (contents q) (drop q.count blank),
                length-drop q.count blank,
              ),
              ap (take q.count) copied
                  ∙ take-append_exact q.count (contents q) (drop q.count blank) (omega arith),
            )
      ]

  -- The storage after `ensure_capacity` holds the request, and the samples are as before.
  pub record IsRoomy (required : ℕ) (q r : AudioSampleQueue A) : Type ℓ where
    pub valid : IsValid r
    pub room : required ≤ length r.storage
    pub same : contents r ≡ contents q
    size_kept : r.count ≡ q.count

  ensure_capacity_lem :
      (nought : A) {q : AudioSampleQueue A} (required : ℕ)
      → IsValid q
      → q.count ≤ required
      → required ≤ 2 ^ 63
      → IsRoomy required q (ensure_capacity nought q required)
  unfolding ensure_capacity
  ensure_capacity_lem nought {q} required v le small = elim (dec_lt (length q.storage) required) [
    | yes p ↦ rw (lt→leb_false required (length q.storage) p) (
        let (room, kept) = expanded_lem nought required v le small in
        let moved = expanded nought q required in
        record {
          valid = record { head_in = omega arith; count_in = omega arith };
          room = room;
          same =
              ap (λ l. take q.count moved ++ l)
                (take_eq (q.count - (length moved - 0)) 0 moved (omega arith))
              ∙ append-nil (take q.count moved)
              ∙ kept;
          size_kept = refl;
        })
    | no p ↦
        rw (le→leb required (length q.storage) (omega arith))
          (record { valid = v; room = omega arith; same = refl; size_kept = refl })
  ]

  -- Appending puts the values behind what the queue holds, in order, and keeps the queue valid; the
  -- sizes stay below 2^63.
  pub append_lem :
      (nought : A) {q : AudioSampleQueue A} (values : List A)
      → IsValid q
      → q.count + length values ≤ 2 ^ 63
      → IsValid (append nought q values)
        × (contents (append nought q values) ≡ contents q ++ values)
  unfolding append
  append_lem nought {q} values v small = elim (is_nil-cases values) [
    | inl (e, none_new) ↦
        rw e (v, sym (append-nil (contents q)) ∙ ap (λ l. contents q ++ l) (sym none_new))
    | inr (e, some_new) ↦
        let grown = ensure_capacity_lem nought (q.count + length values) v (omega arith) small in
        let (valid, put) =
          write_back_lem values grown.valid some_new (omega (arith, grown.room, grown.size_kept)) in
        rw e (valid, put ∙ ap (λ l. l ++ values) grown.same)
  ]

  pub size-append :
      (nought : A) (q : AudioSampleQueue A) (values : List A)
      → size (append nought q values) ≡ size q + length values
  unfolding append ensure_capacity write_back
  size-append nought q values = elim (is_nil-cases values) [
    | inl (e, none_new) ↦ rw e (omega (arith, ap length none_new))
    | inr (e, some_new) ↦ rw e (ground arith)
  ]
