-- ===== src/Conversion/Request/Samples.antt =====
-- The audio that a request carries: the window of a job, as 16-bit samples.
use mathlib.Core.Option.{some-injective}
use obs_rvc.Prelude.{
  ℕ, zero, suc, ◌+◌, ◌*◌, ◌%◌, ◌^◌, ◌≤◌, ◌<◌, ◌≡◌, refl, sym, ap, ◌∙◌, inl, inr, some, List, [],
  ◌∷◌, arith, length, get_or, take, memcpy, take-memcpy, get_or-take, Option-cases, if◌then◌else◌,
}
use obs_rvc.Prelude.Int.{pos}
use obs_rvc.Float.{Floats, nought, clamp_single}
use obs_rvc.Ipc.Transport.{AudioRequest}
use obs_rvc.Utils.Strings.{copy_string}
use obs_rvc.Conversion.Frames.{bytes_per_sample}
use obs_rvc.Conversion.Codec.{pcm_bytes, pcm_of, load_sample, quantize}
use obs_rvc.Conversion.Codec.Pcm.{CastFits, pcm_of_roundtrip}
use obs_rvc.Conversion.Loop.{Job, fill_request}

-- The bytes behind those that are copied in front are not read.
load_sample-memcpy :
    (buffer bytes : List ℕ) (i : ℕ)
    → length bytes ≤ length buffer
    → i * bytes_per_sample + 1 < length bytes
    → load_sample (memcpy buffer 0 bytes 0 (length bytes)) i ≡ load_sample bytes i
unfolding load_sample
load_sample-memcpy buffer bytes i room inside =
    let n = length bytes in
    let copied = memcpy buffer 0 bytes 0 n in
    let front : take n copied ≡ take n bytes =
      ap (λ k. take k copied) {x = n} {y = 0 + n} (omega arith)
      ∙ take-memcpy buffer 0 bytes 0 n (omega arith) (omega arith) in
    let same : (j : ℕ) → j < n → get_or copied j 0 ≡ get_or bytes j 0 = λ j before.
      sym (get_or-take n copied j 0 before)
      ∙ ap (λ l. get_or l j 0) front
      ∙ get_or-take n bytes j 0 before in
    rw (same (i * bytes_per_sample) (omega arith), same (i * bytes_per_sample + 1) inside) refl

module _ {F : Type 0} ⦃fl : Floats F⦄ where
  abbrev bytes_of_job : Job F → List ℕ
  bytes_of_job job = pcm_bytes (pcm_of job.window_samples)

  -- What a request that is not refused holds of the audio.
  fill_request-some :
      (last : AudioRequest F) (stream_id : ℕ) (job : Job F) {request : AudioRequest F}
      → fill_request last stream_id job ≡ some request
      → let bytes = bytes_of_job job in
        let size = length bytes % 2 ^ 32 in
        (request.audio_size ≡ size) × (request.audio ≡ memcpy last.audio 0 bytes 0 size)
  unfolding fill_request
  fill_request-some last stream_id job filled =
      let o = job.options in
      elim (Option-cases (copy_string last.model (some o.model))) [
        | inl e ↦ absurd (ground arith)
        | inr (m, e) ↦ elim (Option-cases (copy_string last.index_path (some o.index_path))) [
          | inl e' ↦ absurd (ground arith)
          | inr (p, e') ↦ elim (Option-cases (copy_string last.f0_method (some o.f0_method))) [
            | inl e'' ↦ absurd (ground arith)
            | inr (n, e'') ↦
                let same = some-injective _ _ (rw (fill_request, e, e', e'') at filled) in
                (sym (ap (λ r. r.audio_size) same), sym (ap (λ r. r.audio) same))
          ]
        ]
      ]

  get_or-pcm_of :
      (window : List F) (i : ℕ)
      → i < length window
      → get_or (pcm_of window) i (pos 0) ≡ quantize (get_or window i nought)
  unfolding pcm_of
  get_or-pcm_of [] i inside = absurd (omega arith)
  get_or-pcm_of (x ∷ xs) zero inside = refl
  get_or-pcm_of (x ∷ xs) (suc i) inside = get_or-pcm_of xs i (omega arith)

  -- A request that is not refused carries two bytes for each sample of the window, and its sample
  -- `i`, read back from the bytes, is the floor of 32768 times the window's, with silence for one
  -- that is not finite, clamped between the lowest and the highest 16-bit sample. This is
  -- for a window that fits the buffer of the request, and a buffer below 2^32 bytes. The cast of a
  -- clamped value is taken to fit `int16_t`.
  pub request_samples :
      (last : AudioRequest F) (stream_id : ℕ) (job : Job F) {request : AudioRequest F} (i : ℕ)
      → CastFits F
      → fill_request last stream_id job ≡ some request
      → length job.window_samples * bytes_per_sample ≤ length last.audio
      → length last.audio < 2 ^ 32
      → i < length job.window_samples
      → let x = get_or job.window_samples i nought in
        let finite = if fl.is_finite x then x else nought in
        (request.audio_size ≡ length job.window_samples * 2)
        × (load_sample request.audio i
            ≡ fl.to_int16 (
                clamp_single
                  (fl.floor (fl.single.mul finite (fl.single.of_nat 32768)))
                  fl.lowest_sample
                  fl.highest_sample))
  unfolding quantize
  request_samples last stream_id job {request} i in_range filled fits small inside =
      let bytes = bytes_of_job job in
      let (size, read) = pcm_of_roundtrip job.window_samples i in_range inside in
      let (claims, holds) = fill_request-some last stream_id job filled in
      let whole : length bytes % 2 ^ 32 ≡ length bytes = omega arith in
      (
        claims ∙ whole ∙ size,
        ap (λ l. load_sample l i) (holds ∙ ap (λ n. memcpy last.audio 0 bytes 0 n) whole)
            ∙ load_sample-memcpy last.audio bytes i (omega arith) (omega arith)
            ∙ read
            ∙ get_or-pcm_of job.window_samples i inside,
      )
