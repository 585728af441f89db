-- ===== src/Ipc/Connections/Settings.antt =====
-- What a settings request that went well shows: `rvc_ipc_configure`.
use obs_rvc.Prelude.{
  ℕ, ◌≡◌, ◌<◌, refl, Bool, true, false, Option, none, some, ◌==◌, arith, if_cases, not_both,
}
use obs_rvc.Ipc.Transport.{SettingsResponse, blank_response, response_ok}
use obs_rvc.Ipc.Status.{TransportStatus, IpcStatus, is_ok, to_ipc_status}
use obs_rvc.Ipc.Exchange.{Channel, exchange}
use obs_rvc.Ipc.Connections.{Context, settings_judged, configure_over, rvc_ipc_configure}

-- An exchange over a client that brought a good response.
abbrev pub IsAnswered : Option ℕ → (ℕ → Channel SettingsResponse) → ℕ → SettingsResponse → Type 0
IsAnswered created channel_of timeout_ms response =
    (client : ℕ) × ((created ≡ some client)
      × ((exchange (channel_of client) timeout_ms blank_response ≡ (TransportStatus.ok, response))
          × (response.status ≡ response_ok)))

judged_answer :
    (out : TransportStatus × SettingsResponse)
    → let verdict : TransportStatus × SettingsResponse = settings_judged out in
      is_ok (to_ipc_status verdict.0) ≡ true
      → (out ≡ (TransportStatus.ok, verdict.1)) × (verdict.1.status ≡ response_ok)
unfolding settings_judged
judged_answer (TransportStatus.ok, r) good = (refl, ground arith)
judged_answer (TransportStatus.remote_error, r) good = absurd (not_both refl good)
judged_answer (TransportStatus.transport_error, r) good = absurd (not_both refl good)
judged_answer (TransportStatus.timeout, r) good = absurd (not_both refl good)

configure_over_ok :
    (has_service : Bool) (created : Option ℕ) (channel_of : ℕ → Channel SettingsResponse)
    (timeout_ms : ℕ) (response : SettingsResponse)
    → let out = configure_over has_service created channel_of timeout_ms response in
      is_ok (to_ipc_status out.0) ≡ true → IsAnswered created channel_of timeout_ms out.1
unfolding configure_over
configure_over_ok has_service none channel_of timeout_ms response good = absurd (not_both refl good)
configure_over_ok false (some client) channel_of timeout_ms response good =
    absurd (not_both refl good)
configure_over_ok true (some client) channel_of timeout_ms response good =
    (client, (refl, judged_answer (exchange (channel_of client) timeout_ms blank_response) good))

-- A settings request that the client reports as good had a context and time to wait, and an exchange
-- over the settings client of that context brought a response that says that it went well.
pub rvc_ipc_configure_ok :
    (context : Option Context) (channel_of : ℕ → Channel SettingsResponse)
    (response : SettingsResponse) (timeout_ms : ℕ)
    → let out = rvc_ipc_configure context channel_of response timeout_ms in
      is_ok out.0 ≡ true
      → (0 < timeout_ms)
        × ((c : Context) × ((context ≡ some c)
              × IsAnswered c.settings.client channel_of timeout_ms out.1))
unfolding rvc_ipc_configure
rvc_ipc_configure_ok none channel_of response timeout_ms good = absurd (not_both refl good)
rvc_ipc_configure_ok (some c) channel_of response timeout_ms good =
    if_cases {A = IpcStatus × SettingsResponse}
      (λ out.
        is_ok out.0 ≡ true
        → (0 < timeout_ms)
          × ((c' : Context) × ((some c ≡ some c')
                × IsAnswered c'.settings.client channel_of timeout_ms out.1)))
      (timeout_ms == 0) _ _ (λ _ refused. absurd (not_both refl refused))
      (λ positive answered. (
        ground arith,
        (
          c,
          (
            refl,
            configure_over_ok c.settings.has_service c.settings.client channel_of timeout_ms
                response answered,
          ),
        ),
      ))
      good
