-- ===== src/Conversion/Codec/Pcm.antt =====
-- The bytes of a request's samples, and the mix to mono.
use obs_rvc.Prelude.{
  ℕ, zero, suc, ◌+◌, ◌-◌, ◌*◌, ◌/◌, ◌%◌, ◌≤◌, ◌<◌, ◌≡◌, refl, ap, ◌∙◌, Option, some, List, [], ◌∷◌,
  arith, length, get_or, length-map,
}
use obs_rvc.Prelude.Int.{ℤ, pos, negsuc}
use obs_rvc.Float.{Floats, clamp_single}
use obs_rvc.Conversion.Frames.{bytes_per_sample}
use obs_rvc.Conversion.Codec.{
  AudioData, copy_audio_to_mono, mono_from, bytes_of, int16_of, load_sample, pcm_bytes, pcm_of,
  quantize,
}

-- The range of `int16_t`.
abbrev IsInt16 : ℤ → Type 0
IsInt16 (pos n) = n ≤ 32767
IsInt16 (negsuc n) = n ≤ 32767

abbrev All {ℓ κ} : {A : Type ℓ} → (A → Type κ) → List A → Type κ
All P [] = Unit
All P (x ∷ xs) = P x × All P xs

int16_of-bytes_of :
    (z : ℤ) → IsInt16 z → int16_of (get_or (bytes_of z) 0 0) (get_or (bytes_of z) 1 0) ≡ z
unfolding int16_of bytes_of
int16_of-bytes_of (pos n) h = ground arith
int16_of-bytes_of (negsuc n) h = ground arith

-- A request carries two bytes for each sample.
length-pcm_bytes :
    (samples : List ℤ) → length (pcm_bytes samples) ≡ length samples * bytes_per_sample
unfolding pcm_bytes
length-pcm_bytes [] = refl
length-pcm_bytes (pos n ∷ rest) = omega (arith, length-pcm_bytes rest)
length-pcm_bytes (negsuc n ∷ rest) = omega (arith, length-pcm_bytes rest)

load_sample-skip :
    (low high : ℕ) (bytes : List ℕ) (i : ℕ)
    → load_sample (low ∷ high ∷ bytes) (suc i) ≡ load_sample bytes i
unfolding load_sample
load_sample-skip low high bytes i =
    let bytes' = low ∷ high ∷ bytes in
    let at = suc i * bytes_per_sample in
    let before = i * bytes_per_sample in
    ap (λ j. int16_of (get_or bytes' j 0) (get_or bytes' (at + 1) 0)) {x = at}
      {y = suc (suc before)} (omega arith)
    ∙ ap (λ j. int16_of (get_or bytes before 0) (get_or bytes' j 0)) {x = at + 1}
        {y = suc (suc (before + 1))} (omega arith)

-- `static_cast<int16_t>` of a value clamped to [-32768, 32767] is a value of `int16_t`.
abbrev pub CastFits : (F : Type 0) ⦃fl : Floats F⦄ → Type 0
CastFits F ⦃fl⦄ =
    (x : F) → IsInt16 (fl.to_int16 (clamp_single x fl.lowest_sample fl.highest_sample))

module _ {F : Type 0} ⦃fl : Floats F⦄ where
  length-pcm_of : (window : List F) → length (pcm_of window) ≡ length window
  unfolding pcm_of
  length-pcm_of window = length-map quantize window

  All-pcm_of : (window : List F) → CastFits F → All IsInt16 (pcm_of window)
  unfolding pcm_of quantize
  All-pcm_of [] in_range = tt
  All-pcm_of (x ∷ xs) in_range = (in_range _, All-pcm_of xs in_range)

-- Reading a sample back from the bytes of a list of samples gives that sample, for samples in the
-- range of `int16_t`.
load_sample-pcm_bytes :
    (samples : List ℤ) (i : ℕ)
    → All IsInt16 samples
    → i < length samples
    → load_sample (pcm_bytes samples) i ≡ get_or samples i (pos 0)
unfolding load_sample pcm_bytes
load_sample-pcm_bytes [] i ranges h = absurd (omega arith)
load_sample-pcm_bytes (pos n ∷ rest) zero (h, _) le = int16_of-bytes_of (pos n) h
load_sample-pcm_bytes (negsuc n ∷ rest) zero (h, _) le = int16_of-bytes_of (negsuc n) h
load_sample-pcm_bytes (pos n ∷ rest) (suc i) (_, hs) le =
    load_sample-skip (n % 256) (n / 256) (pcm_bytes rest) i
    ∙ load_sample-pcm_bytes rest i hs (omega arith)
load_sample-pcm_bytes (negsuc n ∷ rest) (suc i) (_, hs) le =
    load_sample-skip ((65535 - n) % 256) ((65535 - n) / 256) (pcm_bytes rest) i
    ∙ load_sample-pcm_bytes rest i hs (omega arith)

module _ {F : Type 0} ⦃fl : Floats F⦄ where
  -- The request's bytes hold the quantized window: two bytes a sample, and each sample reads back
  -- as it was quantized. The cast of a clamped value is taken to fit `int16_t`.
  pub pcm_of_roundtrip :
      (window : List F) (i : ℕ)
      → CastFits F
      → i < length window
      → (length (pcm_bytes (pcm_of window)) ≡ length window * bytes_per_sample)
        × (load_sample (pcm_bytes (pcm_of window)) i ≡ get_or (pcm_of window) i (pos 0))
  pcm_of_roundtrip window i in_range inside = (
    length-pcm_bytes (pcm_of window) ∙ ap (λ k. k * bytes_per_sample) (length-pcm_of window),
    load_sample-pcm_bytes (pcm_of window) i (All-pcm_of window in_range)
        (omega (arith, length-pcm_of window)),
  )

  length-mono_from :
      (planes : ℕ → Option (List F)) (channels left frame : ℕ)
      → length (mono_from planes channels left frame) ≡ left
  unfolding mono_from
  length-mono_from planes channels zero frame = refl
  length-mono_from planes channels (suc left) frame =
      ap suc (length-mono_from planes channels left (suc frame))

  -- A mix has one sample for each frame.
  pub length-copy_audio_to_mono :
      (max_planes : ℕ) (audio : AudioData F) (channels : ℕ) {samples : List F}
      → copy_audio_to_mono max_planes audio channels ≡ some samples
      → length samples ≡ audio.frames
  unfolding copy_audio_to_mono
  length-copy_audio_to_mono max_planes audio channels done =
      ground (arith, length-mono_from audio.data_of channels audio.frames 0)
