-- ===== src/Conversion/Codec.antt =====
-- Samples in and out of plugin/src/rvc/filter/rvc-filter-conversion.cpp: the mix to mono, the
-- 16-bit samples of a request and the samples of a response.
pub mod Pcm
pub mod Decode
use obs_rvc.Prelude.{
  ℕ, zero, suc, ◌+◌, ◌-◌, ◌*◌, ◌/◌, ◌%◌, ◌≤◌, ◌<◌, min, ◌≡◌, Bool, true, false, ◌||◌, ◌&&◌, not,
  Option, none, some, List, [], ◌∷◌, ◌++◌, map, leb, ltb, ◌==◌, if◌then◌else◌, length, get_or,
  replicate,
}
use obs_rvc.Prelude.Int.{ℤ, pos, negsuc, sub_ℕ}
use obs_rvc.Float.{Floats, nought, clamp_single}
use obs_rvc.Ipc.Transport.{AudioResponse, max_output_bytes}
use obs_rvc.Conversion.Frames.{bytes_per_sample}

-- `obs_audio_data`: a plane of samples for each channel, `none` for a null pointer.
pub record AudioData (F : Type 0) : Type 0 where
  pub data_of : ℕ → Option (List F)
  pub frames : ℕ

abbrev is_present {ℓ} : {A : Type ℓ} → Option A → Bool
is_present none = false
is_present (some a) = true

module _ {F : Type 0} where
  -- No plane is null, of `left` channels from `channel` on.
  unfoldable pub has_planes : (ℕ → Option (List F)) → ℕ → ℕ → Bool
  has_planes planes zero channel = true
  has_planes planes (suc left) channel =
      is_present (planes channel) && has_planes planes left (suc channel)

module _ {F : Type 0} ⦃fl : Floats F⦄ where
  abbrev sample_at : Option (List F) → ℕ → F
  sample_at none frame = nought
  sample_at (some plane) frame = get_or plane frame nought

  -- `std::isfinite(value) ? value : 0.0F`
  abbrev finite_or_zero : F → F
  finite_or_zero value = if fl.is_finite value then value else nought

  unfoldable pub mix_frame : (ℕ → Option (List F)) → ℕ → ℕ → ℕ → fl.Double → fl.Double
  mix_frame planes frame zero channel mixed = mixed
  mix_frame planes frame (suc left) channel mixed =
      mix_frame planes frame left (suc channel)
        (fl.double.add mixed (fl.widen (finite_or_zero (sample_at (planes channel) frame))))

  unfoldable pub mono_from : (ℕ → Option (List F)) → ℕ → ℕ → ℕ → List F
  mono_from planes channels zero frame = []
  mono_from planes channels (suc left) frame =
      let mixed = mix_frame planes frame channels 0 (fl.double.of_nat 0) in
      fl.narrow (fl.double.div mixed (fl.double.of_nat channels))
      ∷ mono_from planes channels left (suc frame)

  -- `none` is `false`. The first argument is `MAX_AV_PLANES` of OBS.
  unfoldable pub copy_audio_to_mono : ℕ → AudioData F → ℕ → Option (List F)
  copy_audio_to_mono max_planes audio channels =
      if channels == 0 || ltb max_planes channels
      then none
      else if has_planes audio.data_of channels 0
      then some (mono_from audio.data_of channels audio.frames 0)
      else none

-- The two bytes of an `int16_t` in memory, the low one first, and back.
unfoldable pub bytes_of : ℤ → List ℕ
bytes_of (pos n) = n % 256 ∷ n / 256 ∷ []
bytes_of (negsuc n) = (65535 - n) % 256 ∷ (65535 - n) / 256 ∷ []

unfoldable pub int16_of : ℕ → ℕ → ℤ
int16_of low high =
    let word = low + 256 * high in if ltb word 32768 then pos word else negsuc (65535 - word)

-- `memcpy(&sample, audio + index * sizeof(int16_t), sizeof(int16_t))`
unfoldable pub load_sample : List ℕ → ℕ → ℤ
load_sample audio index =
    int16_of (get_or audio (index * bytes_per_sample) 0)
      (get_or audio (index * bytes_per_sample + 1) 0)

unfoldable pub pcm_bytes : List ℤ → List ℕ
unfolding bytes_of
pcm_bytes [] = []
pcm_bytes (sample ∷ rest) = bytes_of sample ++ pcm_bytes rest

-- The guard of `decode_to_input_format`.
abbrev is_malformed : AudioResponse → Bool
is_malformed response =
    ltb max_output_bytes response.audio_size
    || response.audio_size == 0
    || not (response.audio_size % bytes_per_sample == 0)
    || response.sample_rate == 0

abbrev pub decoded_frames_of : AudioResponse → ℕ
decoded_frames_of response = response.audio_size / bytes_per_sample

module _ {F : Type 0} ⦃fl : Floats F⦄ where
  -- One sample of the window as 16-bit PCM.
  unfoldable pub quantize : F → ℤ
  quantize sample =
      let scaled = fl.floor (fl.single.mul (finite_or_zero sample) (fl.single.of_nat 32768)) in
      fl.to_int16 (clamp_single scaled fl.lowest_sample fl.highest_sample)

  unfoldable pub pcm_of : List F → List ℤ
  pcm_of window = map quantize window

  unfoldable pub decoded_sample : List ℕ → ℕ → F
  decoded_sample audio index =
      fl.single.div (fl.of_int16 (load_sample audio index)) (fl.single.of_nat 32768)

  -- The sample of the response at the time of `frame`, by linear interpolation.
  unfoldable pub interpolate : AudioResponse → ℕ → ℕ → ℕ → F
  interpolate response input_sample_rate decoded_frames frame =
      let position =
        fl.double.div
          (fl.double.mul (fl.double.of_nat frame) (fl.double.of_nat response.sample_rate))
          (fl.double.of_nat input_sample_rate) in
      let first = min (fl.truncate position) (decoded_frames - 1) in
      let second = min (first + 1) (decoded_frames - 1) in
      let fraction = fl.narrow (fl.double.sub position (fl.double.of_nat first)) in
      let a = decoded_sample response.audio first in
      let b = decoded_sample response.audio second in
      fl.single.add a (fl.single.mul (fl.single.sub b a) fraction)

  unfoldable pub decode_from : (ℕ → F) → ℕ → ℕ → ℕ → List F
  decode_from sample_of channels zero frame = []
  decode_from sample_of channels (suc left) frame =
      replicate channels (sample_of frame) ++ decode_from sample_of channels left (suc frame)

  -- `none` is `false`. The second test on the size never holds behind the first.
  unfoldable pub decode_to_input_format : AudioResponse → ℕ → ℕ → ℕ → Option (List F)
  decode_to_input_format response input_sample_rate input_channels input_frames =
      let decoded_frames = decoded_frames_of response in
      let available_frames =
        min input_frames (decoded_frames * input_sample_rate / response.sample_rate) in
      let sample_of = interpolate response input_sample_rate decoded_frames in
      if is_malformed response || decoded_frames == 0
      then none
      else some (decode_from sample_of input_channels available_frames 0)
