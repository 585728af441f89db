-- ===== src/Conversion/Codec/Decode.antt =====
-- What `decode_to_input_format` returns.
use obs_rvc.Prelude.{
  ℕ, zero, suc, ◌+◌, ◌*◌, ◌/◌, ◌<◌, min, ◌≡◌, refl, sym, ap, ◌∙◌, some, List, ◌++◌, arith, length,
  get_or, length-append, length-replicate, replicate, ltb, if◌then◌else◌, ◌-◌, ◌≤◌,
}
use obs_rvc.Float.{Floats, nought}
use obs_rvc.Ipc.Transport.{AudioResponse}
use obs_rvc.Conversion.Codec.{
  decode_from, decode_to_input_format, decoded_frames_of, interpolate, decoded_sample, load_sample,
}

-- The frames that a response yields: not more than were sent, and not more than it lasts.
abbrev pub available : AudioResponse → ℕ → ℕ → ℕ
available response rate frames =
    min frames (decoded_frames_of response * rate / response.sample_rate)

-- Where frame `f` of the input's rate lies among the samples of the response.
abbrev pub position_of : (F : Type 0) ⦃fl : Floats F⦄ → AudioResponse → ℕ → ℕ → fl.Double
position_of F ⦃fl⦄ response rate f =
    fl.double.div (fl.double.mul (fl.double.of_nat f) (fl.double.of_nat response.sample_rate))
      (fl.double.of_nat rate)

min_if : (a b : ℕ) → min a b ≡ (if ltb a b then a else b)
min_if a b = ground arith

min_next : (k last : ℕ) → k ≤ last → min (k + 1) last ≡ (if ltb k last then suc k else last)
min_next k last le = ground arith

module _ {F : Type 0} ⦃fl : Floats F⦄ where
  length-decode_from :
      (sample_of : ℕ → F) (channels left frame : ℕ)
      → length (decode_from sample_of channels left frame) ≡ left * channels
  unfolding decode_from
  length-decode_from sample_of channels zero frame = omega arith
  length-decode_from sample_of channels (suc left) frame = omega (
    arith,
    length-append (replicate channels (sample_of frame))
        (decode_from sample_of channels left (suc frame)),
    length-replicate channels (sample_of frame),
    length-decode_from sample_of channels left (suc frame),
  )

  get_or-replicate-append :
      (n : ℕ) (x : F) (ys : List F) (i : ℕ) → i < n → get_or (replicate n x ++ ys) i nought ≡ x
  get_or-replicate-append zero x ys i h = absurd (omega arith)
  get_or-replicate-append (suc n) x ys zero h = refl
  get_or-replicate-append (suc n) x ys (suc i) h = get_or-replicate-append n x ys i (omega arith)

  get_or-past :
      (n : ℕ) (x : F) (ys : List F) (i j : ℕ)
      → j ≡ n + i
      → get_or (replicate n x ++ ys) j nought ≡ get_or ys i nought
  get_or-past zero x ys i j e = ap (λ k. get_or ys k nought) {x = j} {y = i} (omega arith)
  get_or-past (suc n) x ys i zero e = absurd (omega arith)
  get_or-past (suc n) x ys i (suc j) e = get_or-past n x ys i j (omega arith)

  decode_from_lem :
      (sample_of : ℕ → F) (channels left frame f c : ℕ)
      → f < left
      → c < channels
      → get_or (decode_from sample_of channels left frame) (f * channels + c) nought
        ≡ sample_of (frame + f)
  unfolding decode_from
  decode_from_lem sample_of channels zero frame f c in_frames in_row = absurd (omega arith)
  decode_from_lem sample_of channels (suc left) frame zero c in_frames in_row =
      ap (λ k. get_or (decode_from sample_of channels (suc left) frame) k nought)
        {x = zero * channels + c} {y = c} (omega arith)
      ∙ get_or-replicate-append channels (sample_of frame) _ c in_row
      ∙ ap sample_of {x = frame} {y = frame + zero} (omega arith)
  decode_from_lem sample_of channels (suc left) frame (suc f) c in_frames in_row =
      get_or-past channels (sample_of frame) _ (f * channels + c) (suc f * channels + c)
        (omega arith)
      ∙ decode_from_lem sample_of channels left (suc frame) f c (omega arith) in_row
      ∙ ap sample_of {x = suc frame + f} {y = frame + suc f} (omega arith)

  decode_accepts :
      (response : AudioResponse) (rate channels frames : ℕ) {samples : List F}
      → decode_to_input_format response rate channels frames ≡ some samples
      → decode_from
          (interpolate response rate (decoded_frames_of response))
          channels
          (available response rate frames)
          0
        ≡ samples
  unfolding decode_to_input_format
  decode_accepts response rate channels frames done = ground arith

  length-decode :
      (response : AudioResponse) (rate channels frames : ℕ) {samples : List F}
      → decode_to_input_format response rate channels frames ≡ some samples
      → length samples ≡ available response rate frames * channels
  length-decode response rate channels frames done =
      ap length (sym (decode_accepts response rate channels frames done))
      ∙ length-decode_from _ channels (available response rate frames) 0

  -- Sample `k` of a response as a `float`, between -1 and 1.
  abbrev pub sample_of_response : AudioResponse → ℕ → F
  sample_of_response response k =
      fl.single.div (fl.of_int16 (load_sample response.audio k)) (fl.single.of_nat 32768)

  -- The value at a position between sample `k`, not behind the last, and the one after it, or the
  -- last one again: `a + (b - a) * (position - k)`.
  abbrev pub between : AudioResponse → fl.Double → ℕ → F
  between response position k =
      let last = response.audio_size / 2 - 1 in
      let a = sample_of_response response k in
      let b = sample_of_response response (if ltb k last then suc k else last) in
      fl.single.add a (
        fl.single.mul (fl.single.sub b a) (fl.narrow (fl.double.sub position (fl.double.of_nat k))))

  interpolate_lem :
      (response : AudioResponse) (rate f : ℕ)
      → let position = position_of F response rate f in
        let last = response.audio_size / 2 - 1 in
        interpolate response rate (decoded_frames_of response) f
        ≡ between response position
            (if ltb (fl.truncate position) last then fl.truncate position else last)
  unfolding interpolate decoded_sample
  interpolate_lem response rate f =
      let position = position_of F response rate f in
      let last = response.audio_size / 2 - 1 in
      let k = min (fl.truncate position) last in
      let a = sample_of_response response k in
      let fraction = fl.narrow (fl.double.sub position (fl.double.of_nat k)) in
      ap
        (λ next.
          fl.single.add a
            (fl.single.mul (fl.single.sub (sample_of_response response next) a) fraction))
        (min_next k last (omega arith))
      ∙ ap (between response position) (min_if (fl.truncate position) last)

  -- A response that is not refused yields frames of `channels` samples: as many as were sent, but
  -- not more than it lasts. Each channel of a frame is the linear interpolation of the response at
  -- the time of the frame, between the sample before it and the sample after it; behind the last
  -- sample of the response both are that one.
  pub decode_lem :
      (response : AudioResponse) (rate channels frames f c : ℕ) {samples : List F}
      → decode_to_input_format response rate channels frames ≡ some samples
      → f < available response rate frames
      → c < channels
      → let position = position_of F response rate f in
        let last = response.audio_size / 2 - 1 in
        (length samples ≡ available response rate frames * channels)
        × (get_or samples (f * channels + c) nought
            ≡ between response position
                (if ltb (fl.truncate position) last then fl.truncate position else last))
  decode_lem response rate channels frames f c done in_frames in_row =
      let sample_of = interpolate response rate (decoded_frames_of response) in
      let rounds = available response rate frames in
      let same = decode_accepts response rate channels frames done in
      (
        ap length (sym same) ∙ length-decode_from sample_of channels rounds 0,
        ap (λ l. get_or l (f * channels + c) nought) (sym same)
            ∙ decode_from_lem sample_of channels rounds 0 f c in_frames in_row
            ∙ ap sample_of {x = 0 + f} {y = f} (omega arith)
            ∙ interpolate_lem response rate f,
      )
