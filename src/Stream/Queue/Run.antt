-- ===== src/Stream/Queue/Run.antt =====
-- A client's calls on a queue in order, against the same calls on a list.
use obs_rvc.Prelude.{
  ℕ, ◌+◌, ◌-◌, ◌^◌, ◌≤◌, ◌≡◌, refl, sym, ap, ap₂, ◌∙◌, List, [], ◌∷◌, ◌++◌, arith, length, take,
  drop,
}
use obs_rvc.Stream.Queue.{AudioSampleQueue, size, clear, copy_front, discard, append}
use obs_rvc.Stream.Queue.Window.{contents, take_eq}
use obs_rvc.Stream.Queue.Refine.{
  IsValid, clear-IsValid, size-eq-length, size-clear, copy_front_lem, discard-IsValid, discard_lem,
  size-discard,
}
use obs_rvc.Stream.Queue.Append.{append_lem, size-append}

-- A call of the interface; `copy` has the vector that `copy_front` overwrites.
pub data Op {ℓ} (A : Type ℓ) : Type ℓ where
  put : List A → Op A
  copy : List A → ℕ → Op A
  drop_front : ℕ → Op A
  wipe : Op A
  measure : Op A

pub data Reply {ℓ} (A : Type ℓ) : Type ℓ where
  done : Reply A
  copied : List A → Reply A
  counted : ℕ → Reply A

module _ {ℓ} {A : Type ℓ} where
  unfoldable pub run : A → AudioSampleQueue A → List (Op A) → List (Reply A)
  run nought q [] = []
  run nought q (put values ∷ ops) = done ∷ run nought (append nought q values) ops
  run nought q (copy into n ∷ ops) = copied (copy_front nought q into n) ∷ run nought q ops
  run nought q (drop_front n ∷ ops) = done ∷ run nought (discard q n) ops
  run nought q (wipe ∷ ops) = done ∷ run nought (clear q) ops
  run nought q (measure ∷ ops) = counted (size q) ∷ run nought q ops

  -- The same calls on the samples themselves, oldest first.
  unfoldable pub run_list : List A → List (Op A) → List (Reply A)
  run_list held [] = []
  run_list held (put values ∷ ops) = done ∷ run_list (held ++ values) ops
  run_list held (copy into n ∷ ops) = copied (take n held) ∷ run_list held ops
  run_list held (drop_front n ∷ ops) = done ∷ run_list (drop n held) ops
  run_list held (wipe ∷ ops) = done ∷ run_list [] ops
  run_list held (measure ∷ ops) = counted (length held) ∷ run_list held ops

  -- How many samples the calls append in all.
  abbrev pub appended : List (Op A) → ℕ
  appended [] = 0
  appended (put values ∷ ops) = length values + appended ops
  appended (copy into n ∷ ops) = appended ops
  appended (drop_front n ∷ ops) = appended ops
  appended (wipe ∷ ops) = appended ops
  appended (measure ∷ ops) = appended ops

  contents-clear : (q : AudioSampleQueue A) → contents (clear q) ≡ []
  unfolding clear
  contents-clear q = take_eq (0 - (length q.storage - 0)) 0 q.storage (omega arith)

  -- No sequence of calls tells a valid queue from the list of the samples that it holds, as long as
  -- what it holds and all that the calls append stay at or below 2^63 samples.
  pub run_refines :
      (nought : A) (ops : List (Op A)) {q : AudioSampleQueue A}
      → IsValid q
      → q.count + appended ops ≤ 2 ^ 63
      → run nought q ops ≡ run_list (contents q) ops
  unfolding run run_list
  run_refines nought [] v small = refl
  run_refines nought (put values ∷ ops) {q} v small =
      let (valid, put_behind) = append_lem nought values v (omega arith) in
      ap (λ l. done ∷ l)
        (run_refines nought ops valid (omega (arith, size-append nought q values))
          ∙ ap (λ l. run_list l ops) put_behind)
  run_refines nought (copy into n ∷ ops) v small =
      ap₂ (λ l r. copied l ∷ r) (copy_front_lem nought into n v) (run_refines nought ops v small)
  run_refines nought (drop_front n ∷ ops) {q} v small =
      ap (λ l. done ∷ l)
        (run_refines nought ops (discard-IsValid n v) (omega (arith, size-discard q n))
          ∙ ap (λ l. run_list l ops) (discard_lem n v))
  run_refines nought (wipe ∷ ops) {q} v small =
      ap (λ l. done ∷ l)
        (run_refines nought ops (clear-IsValid q) (omega (arith, size-clear q))
          ∙ ap (λ l. run_list l ops) (contents-clear q))
  run_refines nought (measure ∷ ops) v small =
      ap₂ (λ k l. counted k ∷ l) (sym (size-eq-length v)) (run_refines nought ops v small)
