-- ===== src/Tests/Exchanges.antt =====
-- An exchange with the worker process at concrete values.
use obs_rvc.Prelude.{ℕ, ◌+◌, ◌%◌, ◌≤◌, ◌<◌, ◌≡◌, refl, some, arith}
use obs_rvc.Tests.Sample.{two_samples, third_poll, blank, channel, request}
use obs_rvc.Ipc.Transport.{max_input_bytes, max_output_bytes, response_ok}
use obs_rvc.Ipc.Status.{TransportStatus}
use obs_rvc.Ipc.Exchange.{
  empty, await, exchange, judge, judged, convert_audio, rvc_ipc_convert, rvc_ipc_convert_ok,
  await_lem,
}

third_poll_silent : (i : ℕ) → i < 2 → third_poll (0 + i) ≡ empty
third_poll_silent i before = ground arith

await_lem_example : await third_poll 10 0 blank ≡ (TransportStatus.ok, two_samples)
await_lem_example =
    await_lem third_poll 10 0 blank 2 two_samples (omega arith) third_poll_silent refl

rvc_ipc_convert_ok_example :
    let out = (rvc_ipc_convert (some channel) request blank 10).1 in
    (0 < 10)
    × (0 < 4)
    × (4 ≤ max_input_bytes)
    × (4 % 2 ≡ 0)
    × (0 < 100)
    × (out.audio_size ≤ max_output_bytes)
    × (out.audio_size % 2 ≡ 0)
    × (out.status ≡ response_ok)
unfolding rvc_ipc_convert convert_audio judged judge exchange await
rvc_ipc_convert_ok_example = rvc_ipc_convert_ok (some channel) request blank 10 refl
