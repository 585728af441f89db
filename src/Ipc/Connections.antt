-- ===== src/Ipc/Connections.antt =====
-- How the clients connect to the services of iceoryx2, and what they do with the connections:
-- `BaseClient::open` of plugin/src/rvc/ipc/base/base-client.hpp, settings/rvc-settings-client.cpp,
-- the connections of audio/rvc-audio-client.cpp, and rvc-ipc.cpp.
pub mod Apart
pub mod Calls
pub mod Contexts
pub mod Settings
use obs_rvc.Prelude.{
  ℕ, Bool, true, false, not, ◌&&◌, ◌||◌, ◌==◌, Option, none, some, List, [], ◌∷◌, if◌then◌else◌,
  is_nil,
}
use obs_rvc.Ipc.Transport.{
  AudioRequest, AudioResponse, SettingsResponse, blank_response, response_ok,
}
use obs_rvc.Ipc.Status.{TransportStatus, IpcStatus, to_ipc_status}
use obs_rvc.Ipc.Exchange.{Channel, exchange, judged, is_invalid}

-- What iceoryx2 does on one call of `open`: it takes the name or not, opens the service or not, and
-- creates a client or not. A client is known by a number.
pub record Opening : Type 0 where
  pub is_name : Bool
  pub opens_service : Bool
  pub client : Option ℕ

-- The two pointers that `open` fills.
pub record Connection : Type 0 where
  pub has_service : Bool
  pub client : Option ℕ

abbrev pub unconnected : Connection
unconnected = record { has_service = false; client = none }

-- The end of `open`, with the service at hand.
unfoldable pub with_client : Connection → Option ℕ → Bool × Connection
with_client c none = (false, record c { has_service = true })
with_client c (some client) = (true, record { has_service = true; client = some client })

unfoldable pub open_service : Opening → Connection → Bool × Connection
open_service opening c =
    if not opening.is_name
    then (false, c)
    else if not opening.opens_service
    then (false, c)
    else with_client c opening.client

abbrev pub is_open : Connection → Bool
is_open c = elim c.client [ none ↦ false | some client ↦ c.has_service ]

-- The settings client is its one connection.
abbrev pub new_settings_client : Opening → Connection
new_settings_client opening = (open_service opening unconnected).1

-- What `RvcSettingsClient::configure` makes of an exchange.
unfoldable pub settings_judged :
    TransportStatus × SettingsResponse → TransportStatus × SettingsResponse
settings_judged (TransportStatus.ok, r) =
    (if r.status == response_ok then TransportStatus.ok else TransportStatus.remote_error, r)
settings_judged (TransportStatus.remote_error, r) = (TransportStatus.remote_error, r)
settings_judged (TransportStatus.transport_error, r) = (TransportStatus.transport_error, r)
settings_judged (TransportStatus.timeout, r) = (TransportStatus.timeout, r)

-- `RvcSettingsClient::configure` for its two pointers.
unfoldable pub configure_over :
    Bool
    → Option ℕ
    → (ℕ → Channel SettingsResponse)
    → ℕ
    → SettingsResponse
    → TransportStatus × SettingsResponse
configure_over has_service none channel_of timeout_ms response =
    (TransportStatus.transport_error, response)
configure_over false (some client) channel_of timeout_ms response =
    (TransportStatus.transport_error, response)
configure_over true (some client) channel_of timeout_ms response =
    settings_judged (exchange (channel_of client) timeout_ms blank_response)

-- `channel_of` is what a client does in this exchange.
abbrev configure_settings :
    Connection
    → (ℕ → Channel SettingsResponse)
    → ℕ
    → SettingsResponse
    → TransportStatus × SettingsResponse
configure_settings c = configure_over c.has_service c.client

-- The connections of the audio client, under the threads that they belong to.
abbrev pub Connections : Type 0
Connections = List (ℕ × Connection)

unfoldable pub find : ℕ → Connections → Option Connection
find thread [] = none
find thread ((owner, c) ∷ rest) = if owner == thread then some c else find thread rest

unfoldable pub new_audio_client : Opening → ℕ → Connections
new_audio_client opening thread =
    let (opened, c) = open_service opening unconnected in if opened then (thread, c) ∷ [] else []

-- The connection that was found, or the one that `open` made, if it did.
unfoldable pub found_or_opened :
    ℕ → Connections → Bool × Connection → Option Connection → Option Connection × Connections
found_or_opened thread connections opened (some c) = (some c, connections)
found_or_opened thread connections opened none =
    if opened.0 then (some opened.1, (thread, opened.1) ∷ connections) else (none, connections)

-- The critical section of `convert`: the connection of the thread, or `none` where it has none and
-- none can be opened.
abbrev connection_for : ℕ → Opening → Connections → Option Connection × Connections
connection_for thread opening connections =
    found_or_opened thread connections (open_service opening unconnected) (find thread connections)

-- The rest of `convert`; `none` is the use of a client through a null pointer.
unfoldable pub convert_on :
    Option Connection
    → (ℕ → Channel AudioResponse)
    → ℕ
    → AudioResponse
    → Option (TransportStatus × AudioResponse)
convert_on none channel_of timeout_ms response = some (TransportStatus.transport_error, response)
convert_on (some c) channel_of timeout_ms response = elim c.client [
  | none ↦ none
  | some client ↦ some (judged (exchange (channel_of client) timeout_ms response))
]

-- `RvcAudioClient::convert` on a thread.
unfoldable pub convert_audio_on :
    Connections
    → ℕ
    → Opening
    → (ℕ → Channel AudioResponse)
    → ℕ
    → AudioResponse
    → Option (TransportStatus × AudioResponse) × Connections
convert_audio_on connections thread opening channel_of timeout_ms response =
    let (c, after) = connection_for thread opening connections in
    if is_nil connections
    then (some (TransportStatus.transport_error, response), connections)
    else (convert_on c channel_of timeout_ms response, after)

-- `struct rvc_ipc`; its node is iceoryx2's.
pub record Context : Type 0 where
  pub settings : Connection
  pub audio : Connections

-- `rvc_ipc_create`, where `has_node` says whether iceoryx2 creates a node, for a pointer that is not
-- null: what it returns, and what the pointer holds then.
unfoldable pub rvc_ipc_create : Bool → Opening → Opening → ℕ → Bool × Option Context
rvc_ipc_create has_node settings_opening audio_opening thread =
    let settings = new_settings_client settings_opening in
    let audio = new_audio_client audio_opening thread in
    if not has_node
    then (false, none)
    else if not (is_open settings) || is_nil audio
    then (false, none)
    else (true, some (record { settings = settings; audio = audio }))

-- `rvc_ipc_configure` for a request and a response that are not null.
unfoldable pub rvc_ipc_configure :
    Option Context
    → (ℕ → Channel SettingsResponse)
    → SettingsResponse
    → ℕ
    → IpcStatus × SettingsResponse
rvc_ipc_configure none channel_of response timeout_ms = (IpcStatus.invalid_argument, response)
rvc_ipc_configure (some context) channel_of response timeout_ms =
    let out = configure_settings context.settings channel_of timeout_ms response in
    if timeout_ms == 0 then (IpcStatus.invalid_argument, response) else (to_ipc_status out.0, out.1)

unfoldable pub with_status :
    Option (TransportStatus × AudioResponse) → Option (IpcStatus × AudioResponse)
with_status none = none
with_status (some (status, response)) = some (to_ipc_status status, response)

-- `rvc_ipc_convert` on a thread, for pointers that are not null, with the context afterwards.
unfoldable pub rvc_ipc_convert_on :
    {F : Type 0}
    → Context
    → ℕ
    → Opening
    → (ℕ → Channel AudioResponse)
    → AudioRequest F
    → AudioResponse
    → ℕ
    → Option (IpcStatus × AudioResponse) × Context
rvc_ipc_convert_on context thread opening channel_of request response timeout_ms =
    let (out, audio) =
      convert_audio_on context.audio thread opening channel_of timeout_ms response in
    if is_invalid request timeout_ms
    then (some (IpcStatus.invalid_argument, response), context)
    else (with_status out, record context { audio = audio })
