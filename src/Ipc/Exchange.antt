-- ===== src/Ipc/Exchange.antt =====
-- The clients of the worker process: `exchange` of plugin/src/rvc/ipc/base/base-client.hpp, and
-- `convert` of audio/rvc-audio-client.cpp behind `rvc_ipc_convert` of rvc-ipc.cpp.
use obs_rvc.Prelude.{
  ℕ, zero, suc, ◌+◌, ◌%◌, ◌≤◌, ◌<◌, ◌≡◌, refl, ap, ◌∙◌, inl, inr, Bool, false, not, ◌&&◌, ◌||◌,
  ◌==◌, Option, none, some, ltb, if◌then◌else◌, arith, Bool-cases,
}
use obs_rvc.Ipc.Transport.{
  AudioRequest, AudioResponse, max_input_bytes, max_output_bytes, response_ok,
}
use obs_rvc.Ipc.Status.{TransportStatus, IpcStatus, to_ipc_status}

-- What a call of `receive` on the pending response gives.
pub data Poll (R : Type 0) : Type 0 where
  broken : Poll R
  empty : Poll R
  arrived : R → Poll R

-- What iceoryx2 does in one exchange: it lends a request or not, sends it or not, and answers the
-- polls, one each millisecond.
pub record Channel (R : Type 0) : Type 0 where
  pub lends : Bool
  pub sends : Bool
  pub poll : ℕ → Poll R

-- The loop of polls, with `left` milliseconds to go; the response is that of the caller, overwritten
-- where one arrives.
unfoldable pub await : {R : Type 0} → (ℕ → Poll R) → ℕ → ℕ → R → TransportStatus × R
await poll zero elapsed response = (TransportStatus.timeout, response)
await poll (suc left) elapsed response =
    let rest = await poll left (suc elapsed) response in
    elim (poll elapsed) [
      | broken ↦ (TransportStatus.transport_error, response)
      | empty ↦ rest
      | arrived r ↦ (TransportStatus.ok, r)
    ]

unfoldable pub exchange : {R : Type 0} → Channel R → ℕ → R → TransportStatus × R
exchange channel timeout_ms response =
    let waited = await channel.poll timeout_ms 0 response in
    if channel.lends && channel.sends then waited else (TransportStatus.transport_error, response)

-- The tests of `convert` on a response that arrived.
unfoldable pub judge : AudioResponse → TransportStatus
judge response =
    if ltb max_output_bytes response.audio_size || not (response.audio_size % 2 == 0)
    then TransportStatus.transport_error
    else if response.status == response_ok
    then TransportStatus.ok
    else TransportStatus.remote_error

-- What `convert` makes of an exchange.
unfoldable pub judged : TransportStatus × AudioResponse → TransportStatus × AudioResponse
judged (TransportStatus.ok, r) = (judge r, r)
judged (TransportStatus.remote_error, r) = (TransportStatus.remote_error, r)
judged (TransportStatus.transport_error, r) = (TransportStatus.transport_error, r)
judged (TransportStatus.timeout, r) = (TransportStatus.timeout, r)

-- `RvcAudioClient::convert` with the channel of its thread, or `none` where it cannot be opened.
unfoldable pub convert_audio :
    Option (Channel AudioResponse) → ℕ → AudioResponse → TransportStatus × AudioResponse
convert_audio none timeout_ms response = (TransportStatus.transport_error, response)
convert_audio (some channel) timeout_ms response = judged (exchange channel timeout_ms response)

-- The guard of `rvc_ipc_convert`.
abbrev pub is_invalid : {F : Type 0} → AudioRequest F → ℕ → Bool
is_invalid request timeout_ms =
    timeout_ms == 0
    || request.audio_size == 0
    || ltb max_input_bytes request.audio_size
    || not (request.audio_size % 2 == 0)
    || request.sample_rate == 0

-- `rvc_ipc_convert` for pointers that are not null.
unfoldable pub rvc_ipc_convert :
    {F : Type 0}
    → Option (Channel AudioResponse)
    → AudioRequest F
    → AudioResponse
    → ℕ
    → IpcStatus × AudioResponse
rvc_ipc_convert channel request response timeout_ms =
    let out = convert_audio channel timeout_ms response in
    if is_invalid request timeout_ms
    then (IpcStatus.invalid_argument, response)
    else (to_ipc_status out.0, out.1)

-- A response that the client judges to be good.
judge_ok :
    (response : AudioResponse)
    → judge response ≡ TransportStatus.ok
    → (response.audio_size ≤ max_output_bytes)
      × (response.audio_size % 2 ≡ 0)
      × (response.status ≡ response_ok)
unfolding judge
judge_ok response good = ground arith

invalid_is_ok : ¬ IpcStatus.invalid_argument ≡ IpcStatus.ok
invalid_is_ok e = ground arith

later : (elapsed i : ℕ) → suc elapsed + i ≡ elapsed + suc i
later elapsed i = omega arith

-- A verdict that is good was passed on a response that arrived.
judged_ok :
    (out : TransportStatus × AudioResponse)
    → let verdict : TransportStatus × AudioResponse = judged out in
      verdict.0 ≡ TransportStatus.ok → judge verdict.1 ≡ TransportStatus.ok
unfolding judged
judged_ok (TransportStatus.ok, r) good = good
judged_ok (TransportStatus.remote_error, r) good = ground arith
judged_ok (TransportStatus.transport_error, r) good = ground arith
judged_ok (TransportStatus.timeout, r) good = ground arith

convert_audio_ok :
    (channel : Option (Channel AudioResponse)) (timeout_ms : ℕ) (response : AudioResponse)
    → (convert_audio channel timeout_ms response).0 ≡ TransportStatus.ok
    → judge (convert_audio channel timeout_ms response).1 ≡ TransportStatus.ok
unfolding convert_audio
convert_audio_ok none timeout_ms response good = ground arith
convert_audio_ok (some channel) timeout_ms response good =
    judged_ok (exchange channel timeout_ms response) good

to_ipc_status_ok :
    (status : TransportStatus) → to_ipc_status status ≡ IpcStatus.ok → status ≡ TransportStatus.ok
to_ipc_status_ok TransportStatus.ok good = refl
to_ipc_status_ok TransportStatus.remote_error good = ground arith
to_ipc_status_ok TransportStatus.transport_error good = ground arith
to_ipc_status_ok TransportStatus.timeout good = ground arith

is_invalid_bounds :
    {F : Type 0} (request : AudioRequest F) (timeout_ms : ℕ)
    → is_invalid request timeout_ms ≡ false
    → (0 < timeout_ms)
      × (0 < request.audio_size)
      × (request.audio_size ≤ max_input_bytes)
      × (request.audio_size % 2 ≡ 0)
      × (0 < request.sample_rate)
is_invalid_bounds request timeout_ms valid = ground arith

-- A conversion that the client reports as good was asked for with a timeout that is not zero, of a
-- request with a sample rate and whole samples, at least one, that fit its buffer; and its response
-- holds whole samples that fit the buffer and the worker process's word that it went well.
pub rvc_ipc_convert_ok :
    {F : Type 0} (channel : Option (Channel AudioResponse)) (request : AudioRequest F)
    (response : AudioResponse) (timeout_ms : ℕ)
    → (rvc_ipc_convert channel request response timeout_ms).0 ≡ IpcStatus.ok
    → let out = (rvc_ipc_convert channel request response timeout_ms).1 in
      (0 < timeout_ms)
      × (0 < request.audio_size)
      × (request.audio_size ≤ max_input_bytes)
      × (request.audio_size % 2 ≡ 0)
      × (0 < request.sample_rate)
      × (out.audio_size ≤ max_output_bytes)
      × (out.audio_size % 2 ≡ 0)
      × (out.status ≡ response_ok)
unfolding rvc_ipc_convert
rvc_ipc_convert_ok channel request response timeout_ms good =
    elim (Bool-cases (is_invalid request timeout_ms)) [
      | inl e ↦ absurd (invalid_is_ok (rw (rvc_ipc_convert, e) at good))
      | inr e ↦
          let (some_time, some_bytes, fits, whole, some_rate) =
            is_invalid_bounds request timeout_ms e in
          let accepted = to_ipc_status_ok _ (rw (rvc_ipc_convert, e) at good) in
          let (size, even, said) =
            judge_ok _ (convert_audio_ok channel timeout_ms response accepted) in
          rw (rvc_ipc_convert, e) (some_time, some_bytes, fits, whole, some_rate, size, even, said)
    ]

-- The first poll that is not empty decides the exchange, if it comes within the timeout and brings
-- a response: that response is the caller's.
pub await_lem :
    {R : Type 0} (poll : ℕ → Poll R) (left elapsed : ℕ) (response : R) (k : ℕ) (r : R)
    → k < left
    → ((i : ℕ) → i < k → poll (elapsed + i) ≡ empty)
    → poll (elapsed + k) ≡ arrived r
    → await poll left elapsed response ≡ (TransportStatus.ok, r)
unfolding await
await_lem poll zero elapsed response k r inside silent at = absurd (omega arith)
await_lem poll (suc left) elapsed response zero r inside silent at =
    let now : elapsed + zero ≡ elapsed = omega arith in
    let here = rw now at at in rw (await, here) refl
await_lem poll (suc left) elapsed response (suc k) r inside silent at =
    let now : elapsed + zero ≡ elapsed = omega arith in
    let first = rw now at (silent 0 (omega arith)) in
    rw (await, first)
      (await_lem poll left (suc elapsed) response k r (omega arith)
        (λ i before. ap poll (later elapsed i) ∙ silent (suc i) (omega arith))
        (ap poll (later elapsed k) ∙ at))
