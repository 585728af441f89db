-- ===== src/Conversion/Request.antt =====
-- When the thread refuses to send a request.
pub mod Samples
use obs_rvc.Prelude.{
  ℕ, ◌≤◌, ◌≡◌, ◌↔◌, ◌⊎◌, inl, inr, refl, ◌∙◌, sym, none, some, length, Option-cases, arith,
}
use obs_rvc.Float.{Floats}
use obs_rvc.Ipc.Transport.{AudioRequest}
use obs_rvc.Utils.Strings.{copy_string, copy_string-none_iff}
use obs_rvc.Conversion.Loop.{Job, fill_request}

-- A result is not both.
some_is_none : {A : Type 0} {a : A} → ¬ some a ≡ none
some_is_none e = ground arith

module _ {F : Type 0} ⦃fl : Floats F⦄ where
  -- A request is refused exactly if the name of the model, the path of the index or the name of the
  -- pitch method leaves no room for its final zero.
  pub fill_request-none_iff :
      (last : AudioRequest F) (stream_id : ℕ) (job : Job F)
      → (fill_request last stream_id job ≡ none) ↔ (
          (length last.model ≤ length job.options.model)
          ⊎ (length last.index_path ≤ length job.options.index_path)
          ⊎ (length last.f0_method ≤ length job.options.f0_method))
  unfolding fill_request
  fill_request-none_iff last stream_id job =
      let o = job.options in
      let model = copy_string-none_iff last.model (some o.model) in
      let index_path = copy_string-none_iff last.index_path (some o.index_path) in
      let f0_method = copy_string-none_iff last.f0_method (some o.f0_method) in
      elim (Option-cases (copy_string last.model (some o.model))) [
        | inl e ↦ (λ h. inl (model.0 e), λ h. rw (fill_request, e) refl)
        | inr (m, e) ↦ elim (Option-cases (copy_string last.index_path (some o.index_path))) [
          | inl e' ↦ (λ h. inr (inl (index_path.0 e')), λ h. rw (fill_request, e, e') refl)
          | inr (p, e') ↦ elim (Option-cases (copy_string last.f0_method (some o.f0_method))) [
            | inl e'' ↦ (λ h. inr (inr (f0_method.0 e'')), λ h. rw (fill_request, e, e', e'') refl)
            | inr (n, e'') ↦ (
              λ h. absurd (some_is_none (rw (fill_request, e, e', e'') at h)),
              λ h. absurd (elim h [
                | inl long ↦ some_is_none (sym e ∙ model.1 long)
                | inr (inl long) ↦ some_is_none (sym e' ∙ index_path.1 long)
                | inr (inr long) ↦ some_is_none (sym e'' ∙ f0_method.1 long)
              ]),
            )
          ]
        ]
      ]
