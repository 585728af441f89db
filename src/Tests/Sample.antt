-- ===== src/Tests/Sample.antt =====
-- Numbers in place of `float` and `double`, and a worker that converts with them.
use obs_rvc.Prelude.{
  some, [], ◌∷◌, if◌then◌else◌, ◌==◌, replicate, ℕ, ◌+◌, ◌-◌, ◌*◌, ◌/◌, true, arith, ltb,
}
use obs_rvc.Prelude.Int.{pos, pos_part}
use obs_rvc.Float.{Arithmetic, Floats, IsComparison}
use obs_rvc.Ipc.Transport.{AudioRequest, AudioResponse}
use obs_rvc.Ipc.Exchange.{Poll, empty, arrived, Channel}
use obs_rvc.Conversion.Codec.{AudioData}
use obs_rvc.Conversion.Worker.{ConversionOptions}
use obs_rvc.Conversion.Codec.Pcm.{CastFits}

abbrev pub whole : Arithmetic ℕ
whole = record {
  add = λ a b. a + b;
  sub = λ a b. a - b;
  mul = λ a b. a * b;
  div = λ a b. a / b;
  lt = ltb;
  of_nat = λ n. n;
}

instance abbrev pub whole_floats : Floats ℕ
whole_floats = record {
  Double = ℕ;
  single = whole;
  double = whole;
  is_finite = λ x. true;
  floor = λ x. x;
  cos = λ x. x;
  sqrt = λ x. x;
  widen = λ x. x;
  narrow = λ x. x;
  truncate = λ x. x;
  -- in units of 1/32768, so that a sample reads back as its number
  of_int16 = λ z. pos_part z * 32_768;
  to_int16 = pos;
  minus_two = 0;
  tiny = 1;
  half = 0;
  pi = 3;
  lowest_sample = 0;
  highest_sample = 32_767;
}

pub whole-IsComparison : IsComparison whole
whole-IsComparison = record {
  irreflexive = λ a. ground arith;
  not_above = λ a b c above within. ground arith;
}

pub whole-CastFits : CastFits ℕ
whole-CastFits x = ground arith

abbrev pub options : ConversionOptions ℕ
options = record {
  model = 109 ∷ [];
  index_path = [];
  f0_method = 114 ∷ [];
  speaker = pos 0;
  f0_up_key = pos 0;
  filter_radius = pos 3;
  resample_sr = pos 0;
  rms_mix_rate = 0;
  protect = 0;
  index_rate = 0;
  initial_chunk_duration_ms = pos 40;
  maximum_chunk_duration_ms = pos 80;
}

-- Ten frames of one channel.
abbrev pub ten_frames : AudioData ℕ
ten_frames = record {
  data_of = λ channel. some (1 ∷ 2 ∷ 3 ∷ 4 ∷ 5 ∷ 6 ∷ 7 ∷ 8 ∷ 9 ∷ 10 ∷ []);
  frames = 10;
}

abbrev pub two_samples : AudioResponse
two_samples = record {
  status = 0;
  audio_size = 4;
  sample_rate = 100;
  error_size = 0;
  error = [];
  audio = 1 ∷ 0 ∷ 2 ∷ 0 ∷ [];
}

-- The response arrives at the third poll.
abbrev pub third_poll : ℕ → Poll AudioResponse
third_poll elapsed = if elapsed == 2 then arrived two_samples else empty

abbrev pub blank : AudioResponse
blank = record two_samples { audio_size = 0 }

abbrev pub channel : Channel AudioResponse
channel = record { lends = true; sends = true; poll = third_poll }

abbrev pub request : AudioRequest ℕ
request = record {
  audio_size = 4;
  sample_rate = 100;
  stream_id = 1;
  stream_generation = 1;
  model = [];
  index_path = [];
  speaker = pos 0;
  f0_up_key = pos 0;
  f0_method = [];
  filter_radius = pos 3;
  resample_sr = pos 100;
  rms_mix_rate = 0;
  protect = 0;
  index_rate = 0;
  audio = replicate 4 0;
}
