-- ===== src/Filter/Audio.antt =====
-- `rvc_filter_audio` of plugin/src/rvc/filter/rvc-filter.cpp.
use mathlib.Core.Option
use obs_rvc.Prelude.{
  ℕ, zero, suc, ◌+◌, ◌*◌, ◌≤◌, ◌<◌, ◌≡◌, refl, ◌⊎◌, inl, inr, true, false, not, ◌||◌, ◌==◌, Option,
  none, some, List, ◌++◌, ltb, arith, if◌then◌else◌, replicate, drop, length, get_or, Option-cases,
  lt→ltb,
}
use obs_rvc.Float.{Floats, nought}
use obs_rvc.Ipc.Connections.{Context}
use obs_rvc.Conversion.Codec.{AudioData, has_planes}
use obs_rvc.Conversion.Worker.{Impl, Playback, submit, receive, receive_take}
use obs_rvc.Conversion.Playback.{plane_of, ramp, play_frames_lem}
use obs_rvc.Filter.Update.{FilterData}

-- What OBS says of its audio: the samples of a second, and `get_audio_channels` of its speakers.
pub record AudioInfo : Type 0 where
  pub samples_per_sec : ℕ
  pub channel_count : ℕ

module _ {F : Type 0} ⦃fl : Floats F⦄ where
  -- `memset` of a plane's samples to 0, the bytes of `0.0F`.
  abbrev silenced : ℕ → List F → List F
  silenced frames plane = replicate frames nought ++ drop frames plane

  unfoldable pub silence : AudioData F → ℕ → ℕ → Option (List F)
  silence audio channels channel =
      if ltb channel channels
      then Option.map (silenced audio.frames) (audio.data_of channel)
      else audio.data_of channel

  -- The part that hands the audio to the worker.
  unfoldable pub convert :
      ℕ → Impl F → List F → AudioData F → ℕ → ℕ → (ℕ → Option (List F)) × Impl F
  convert max_planes w previous audio sample_rate channels =
      let (planes, w', played) =
        receive (submit max_planes w audio sample_rate channels) previous audio channels in
      (if played then planes else silence audio channels, w')

  -- The planes and the filter afterwards, for a filter and an audio that are not null. `g_ipc` is
  -- null before the module is registered and after it is shut down, `info` is `none` where OBS has
  -- no audio, and `previous` is the buffer of the thread in `receive`.
  unfoldable pub filter_audio :
      Option Context
      → ℕ
      → Option AudioInfo
      → FilterData F
      → List F
      → AudioData F
      → (ℕ → Option (List F)) × FilterData F
  filter_audio none max_planes info filter previous audio = (audio.data_of, filter)
  filter_audio (some context) max_planes info filter previous audio =
      let untouched : (ℕ → Option (List F)) × FilterData F = (audio.data_of, filter) in
      elim filter.conversion_worker [
        | none ↦ untouched
        | some w ↦ elim info [
          | none ↦ untouched
          | some i ↦
              let channels = i.channel_count in
              let (planes, w') = convert max_planes w previous audio i.samples_per_sec channels in
              if not filter.configured
                || channels == 0
                || ltb max_planes channels
                || not (has_planes audio.data_of channels 0)
              then untouched
              else (planes, record filter { conversion_worker = some w' })
        ]
      ]

  get_or-replicate_append :
      (n : ℕ) (rest : List F) (i : ℕ)
      → i < n
      → get_or (replicate n nought ++ rest) i nought ≡ nought
  get_or-replicate_append zero rest i inside = absurd (omega arith)
  get_or-replicate_append (suc n) rest zero inside = refl
  get_or-replicate_append (suc n) rest (suc i) inside =
      get_or-replicate_append n rest i (omega arith)

  -- What `receive` takes out of the output for a call of `filter_audio`, if anything.
  abbrev pub taken : ℕ → Impl F → List F → AudioData F → ℕ → ℕ → Option (Playback F)
  taken max_planes w previous audio sample_rate channels =
      (receive_take (submit max_planes w audio sample_rate channels) previous audio.frames
        channels).0

  silence_lem :
      (audio : AudioData F) (channels c f : ℕ)
      → c < channels
      → f < audio.frames
      → get_or (plane_of (silence audio channels c)) f nought ≡ nought
  unfolding silence
  silence_lem audio channels c f in_row inside =
      rw (lt→ltb c channels in_row) (elim (Option-cases (audio.data_of c)) [
        | inl e ↦ rw e refl
        | inr (plane, e) ↦
            rw e (get_or-replicate_append audio.frames (drop audio.frames plane) f inside)
      ])

  -- Every sample that leaves the converting filter is silence, where the worker has no audio, or
  -- else a sample of the worker's output at the gain of its ramp. None is one of the input. This is
  -- for planes that have room for the frames.
  convert_lem :
      (max_planes : ℕ) (w : Impl F) (previous : List F) (audio : AudioData F)
      (sample_rate channels c f : ℕ)
      → c < channels
      → f < audio.frames
      → audio.frames ≤ length (plane_of (audio.data_of c))
      → let sample =
          get_or
            (plane_of ((convert max_planes w previous audio sample_rate channels).0 c))
            f
            nought in
        let source = taken max_planes w previous audio sample_rate channels in
        ((source ≡ none) × (sample ≡ nought))
        ⊎ ((p : Playback F) × (source ≡ some p)
            × (sample
                ≡ fl.single.mul
                    (get_or p.samples (f * channels + c) nought)
                    (ramp p.gain_step p.gain (suc f))))
  unfolding convert receive
  convert_lem max_planes w previous audio sample_rate channels c f in_row inside room =
      elim (Option-cases (taken max_planes w previous audio sample_rate channels)) [
        | inl e ↦
            rw (convert, receive, e) (inl (refl, silence_lem audio channels c f in_row inside))
        | inr (p, e) ↦
            rw (convert, receive, e)
              (inr (
                p,
                refl,
                play_frames_lem audio.data_of p.samples channels p.gain_step p.gain audio.frames c f
                    in_row inside room,
              ))
      ]

  converts :
      (context : Context) (max_planes : ℕ) (i : AudioInfo) (filter : FilterData F) {w : Impl F}
      (previous : List F) (audio : AudioData F)
      → filter.configured ≡ true
      → filter.conversion_worker ≡ some w
      → 0 < i.channel_count
      → i.channel_count ≤ max_planes
      → has_planes audio.data_of i.channel_count 0 ≡ true
      → (filter_audio (some context) max_planes (some i) filter previous audio).0
        ≡ (convert max_planes w previous audio i.samples_per_sec i.channel_count).0
  unfolding filter_audio
  converts context max_planes i filter previous audio configured working some_channel few present =
      let guard : not filter.configured
            || i.channel_count == 0
            || ltb max_planes i.channel_count
            || not (has_planes audio.data_of i.channel_count 0)
          ≡ false =
        ground arith in
      rw (filter_audio, working, guard) refl

  -- While the module is registered, a filter that is configured and has a worker lets no input
  -- through: at every frame of every channel its output is silence, where the worker has no audio to
  -- play, or else a sample of the worker's output at the gain of its ramp. This is where OBS tells
  -- its audio format, of one channel at least and not more than OBS has planes, and for audio with
  -- the planes of all these channels, each of at least as many samples as frames.
  pub filter_audio_lem :
      (context : Context) (max_planes : ℕ) (i : AudioInfo) (filter : FilterData F) {w : Impl F}
      (previous : List F) (audio : AudioData F) (c f : ℕ)
      → filter.configured ≡ true
      → filter.conversion_worker ≡ some w
      → 0 < i.channel_count
      → i.channel_count ≤ max_planes
      → has_planes audio.data_of i.channel_count 0 ≡ true
      → c < i.channel_count
      → f < audio.frames
      → audio.frames ≤ length (plane_of (audio.data_of c))
      → let sample =
          get_or
            (plane_of ((filter_audio (some context) max_planes (some i) filter previous audio).0 c))
            f
            nought in
        let source = taken max_planes w previous audio i.samples_per_sec i.channel_count in
        ((source ≡ none) × (sample ≡ nought))
        ⊎ ((p : Playback F) × (source ≡ some p)
            × (sample
                ≡ fl.single.mul
                    (get_or p.samples (f * i.channel_count + c) nought)
                    (ramp p.gain_step p.gain (suc f))))
  filter_audio_lem context max_planes i filter {w} previous audio c f configured working
        some_channel few present in_row inside room =
      rw
        (converts context max_planes i filter previous audio configured working some_channel few
          present)
        (convert_lem max_planes w previous audio i.samples_per_sec i.channel_count c f in_row inside
          room)
