-- ===== src/Ipc/Connections/Contexts.antt =====
-- The life of a context: `rvc_ipc_create`, then calls of `rvc_ipc_convert` on any threads.
use mathlib.Core.Option
use mathlib.Core.Option.{some-injective}
use mathlib.Core.Path.{subst}
use obs_rvc.Prelude.{
  not_both, ℕ, ◌≡◌, refl, sym, ap, ◌∙◌, ◌⊎◌, inl, inr, Bool, true, false, not, ◌||◌, Option, none,
  some, [], arith, if_cases, is_nil, Bool-cases,
}
use obs_rvc.Ipc.Transport.{AudioRequest, AudioResponse}
use obs_rvc.Ipc.Status.{IpcStatus}
use obs_rvc.Ipc.Exchange.{Channel, rvc_ipc_convert, is_invalid, convert_audio}
use obs_rvc.Ipc.Connections.{
  Opening, unconnected, open_service, is_open, new_settings_client, find, new_audio_client, Context,
  rvc_ipc_create, with_status, rvc_ipc_convert_on, convert_audio_on, convert_on,
}
use obs_rvc.Ipc.Connections.Apart.{
  connected, open_service-IsOpened, AreApart, AreApart-cons, none_found, no_connections-AreApart,
}
use obs_rvc.Ipc.Connections.Calls.{
  IsFresh, IsOwn, Keeps, convert_audio_on-IsGoodCall, found_or_opened-IsServed, none_is_some,
}

-- A context as `rvc_ipc_create` makes it, and as the calls keep it.
pub record IsReady (context : Context) : Type 0 where
  settings_open : is_open context.settings ≡ true
  audio_open : is_nil context.audio ≡ false
  audio_apart : AreApart context.audio

-- The calls of `rvc_ipc_convert` by any threads; iceoryx2 makes each client anew.
pub data Calls (F : Type 0) (context : Context) : Context → Type 0 where
  no_calls : Calls F context context
  and_convert :
      {s : Context}
      → Calls F context s
      → (thread : ℕ) (opening : Opening) (channel_of : ℕ → Channel AudioResponse)
        (request : AudioRequest F) (response : AudioResponse) (timeout_ms : ℕ)
      → IsFresh opening s.audio
      → Calls F context
          (rvc_ipc_convert_on s thread opening channel_of request response timeout_ms).1

-- An opening that does not succeed.
abbrev Fails : Opening → Type 0
Fails opening = (open_service opening unconnected).0 ≡ false

settings_cases :
    (opening : Opening) → Fails opening ⊎ (is_open (new_settings_client opening) ≡ true)
settings_cases opening = elim (open_service-IsOpened opening unconnected) [
  | inl closed ↦ inl closed
  | inr (client, (_, e)) ↦ inr (ap (λ out. is_open out.1) e)
]

audio_cases :
    (opening : Opening) (thread : ℕ)
    → (Fails opening × (is_nil (new_audio_client opening thread) ≡ true))
      ⊎ ((is_nil (new_audio_client opening thread) ≡ false)
          × AreApart (new_audio_client opening thread))
unfolding new_audio_client
audio_cases opening thread = elim (open_service-IsOpened opening unconnected) [
  | inl closed ↦ inl (closed, ground arith)
  | inr (client, (_, e)) ↦ inr (
      rw e (
        refl,
        AreApart-cons thread client [] no_connections-AreApart
            (λ other. none_found other (connected client)),
      ))
]

-- What may come of a creation.
abbrev IsCreation : Bool → Opening → Opening → Bool × Option Context → Type 0
IsCreation has_node settings_opening audio_opening out =
    ((out ≡ (false, none)) × ((has_node ≡ false) ⊎ Fails settings_opening ⊎ Fails audio_opening))
    ⊎ ((context : Context) × ((out ≡ (true, some context)) × IsReady context))

-- A creation that returns true fills the pointer with a context whose two clients are connected; one
-- that returns false leaves it null, and the node or one of the clients could not be had.
pub rvc_ipc_create_lem :
    (has_node : Bool) (settings_opening audio_opening : Opening) (thread : ℕ)
    → IsCreation has_node settings_opening audio_opening
        (rvc_ipc_create has_node settings_opening audio_opening thread)
unfolding rvc_ipc_create
rvc_ipc_create_lem false settings_opening audio_opening thread = inl (refl, inl refl)
rvc_ipc_create_lem true settings_opening audio_opening thread =
    let settings = new_settings_client settings_opening in
    let audio = new_audio_client audio_opening thread in
    if_cases (IsCreation true settings_opening audio_opening)
      (not (is_open settings) || is_nil audio) _ _
      (λ closed. inl (
        refl,
        inr (elim (settings_cases settings_opening) [
          | inl fails ↦ inl fails
          | inr opened ↦ elim (audio_cases audio_opening thread) [
            | inl (fails, _) ↦ inr fails
            | inr (opened', _) ↦ absurd (ground arith)
          ]
        ]),
      ))
      (λ opened. inr (
        _,
        (
          refl,
          record {
            settings_open = ground arith;
            audio_open = ground arith;
            audio_apart = elim (audio_cases audio_opening thread) [
              | inl (_, no_audio) ↦ absurd (ground arith)
              | inr (_, apart) ↦ apart
            ];
          },
        ),
      ))

created-IsReady :
    (has_node : Bool) (settings_opening audio_opening : Opening) (main : ℕ) {context : Context}
    → rvc_ipc_create has_node settings_opening audio_opening main ≡ (true, some context)
    → IsReady context
created-IsReady has_node settings_opening audio_opening main created =
    elim (rvc_ipc_create_lem has_node settings_opening audio_opening main) [
      | inl (e, _) ↦ absurd (not_both refl (ap (λ out. out.0) (sym e ∙ created)))
      | inr (context', (e, v)) ↦
          subst IsReady (some-injective _ _ (ap (λ out. out.1) (sym e ∙ created))) v
    ]

IsReady-call :
    {F : Type 0} (s : Context) (thread : ℕ) (opening : Opening)
    (channel_of : ℕ → Channel AudioResponse) (request : AudioRequest F) (response : AudioResponse)
    (timeout_ms : ℕ)
    → IsReady s
    → IsFresh opening s.audio
    → IsReady (rvc_ipc_convert_on s thread opening channel_of request response timeout_ms).1
unfolding rvc_ipc_convert_on
IsReady-call s thread opening channel_of request response timeout_ms v fresh =
    let call =
      convert_audio_on-IsGoodCall s.audio thread opening channel_of timeout_ms response
        v.audio_apart fresh in
    if_cases {A = Option (IpcStatus × AudioResponse) × Context} (λ out. IsReady out.1)
      (is_invalid request timeout_ms) _ _ (λ _. v)
      (λ _. record {
        settings_open = v.settings_open;
        audio_open = call.good_open v.audio_open;
        audio_apart = call.good_apart;
      })

IsReady-Calls : {F : Type 0} {context s : Context} → IsReady context → Calls F context s → IsReady s
IsReady-Calls v no_calls = v
IsReady-Calls v (and_convert calls thread opening channel_of request response timeout_ms fresh) =
    IsReady-call _ thread opening channel_of request response timeout_ms (IsReady-Calls v calls)
      fresh

-- A call of `rvc_ipc_convert` on a thread, but for what the clients do.
pub record Conversion (F : Type 0) : Type 0 where
  pub thread : ℕ
  pub opening : Opening
  pub request : AudioRequest F
  pub response : AudioResponse
  pub timeout_ms : ℕ

abbrev pub converted :
    {F : Type 0}
    → Context
    → Conversion F
    → (ℕ → Channel AudioResponse)
    → Option (IpcStatus × AudioResponse) × Context
converted s call channel_of =
    rvc_ipc_convert_on s call.thread call.opening channel_of call.request call.response
      call.timeout_ms

-- The call exchanges over this client and over no other: whatever the clients do, it returns what
-- `rvc_ipc_convert` makes of what this one does.
abbrev pub Uses : {F : Type 0} → Context → Conversion F → Option ℕ → Type 0
Uses s call client =
    (channel_of : ℕ → Channel AudioResponse)
    → (converted s call channel_of).0
      ≡ some (
          rvc_ipc_convert (Option.map channel_of client) call.request call.response call.timeout_ms)

call-Uses :
    {F : Type 0} (s : Context) (call : Conversion F)
    → IsReady s
    → IsFresh call.opening s.audio
    → (client : Option ℕ) × (Uses s call client
        × ((channel_of : ℕ → Channel AudioResponse) (n : ℕ)
            → client ≡ some n
            → find call.thread (converted s call channel_of).1.audio ≡ some (connected n)))
unfolding rvc_ipc_convert_on rvc_ipc_convert with_status convert_audio_on convert_on convert_audio
call-Uses s call v fresh = elim (Bool-cases (is_invalid call.request call.timeout_ms)) [
  | inl invalid ↦ (none, (λ channel_of. rw invalid refl, λ channel_of n e. absurd (none_is_some e)))
  | inr valid ↦
      let served =
        (found_or_opened-IsServed call.thread call.opening.client s.audio
          (open_service call.opening unconnected) (find call.thread s.audio) v.audio_apart fresh
          (open_service-IsOpened call.opening unconnected) refl).served in
      elim served [
        | inl e ↦ (
          none,
          (
            λ channel_of. rw (valid, v.audio_open, e) refl,
            λ channel_of n e'. absurd (none_is_some e'),
          ),
        )
        | inr (client, (e, own)) ↦ (
          some client,
          (
            λ channel_of. rw (valid, v.audio_open, e) refl,
            λ channel_of n e'.
                rw (valid, v.audio_open)
                  (own ∙ ap (λ m. some (connected m)) (some-injective client n e')),
          ),
        )
      ]
]

Keeps-call :
    {F : Type 0} (s : Context) (call : Conversion F) (channel_of : ℕ → Channel AudioResponse)
    → IsReady s
    → IsFresh call.opening s.audio
    → Keeps s.audio (converted s call channel_of).1.audio
unfolding rvc_ipc_convert_on
Keeps-call s call channel_of v fresh =
    let good =
      convert_audio_on-IsGoodCall s.audio call.thread call.opening channel_of call.timeout_ms
        call.response v.audio_apart fresh in
    if_cases {A = Option (IpcStatus × AudioResponse) × Context} (λ out. Keeps s.audio out.1.audio)
      (is_invalid call.request call.timeout_ms) _ _ (λ _ other c at. at) (λ _. good.good_kept)

Keeps-Calls :
    {F : Type 0} {context s : Context}
    → IsReady context
    → Calls F context s
    → Keeps context.audio s.audio
Keeps-Calls v no_calls = λ other c at. at
Keeps-Calls v
      (and_convert {s = s} calls thread opening channel_of request response timeout_ms fresh) =
    let call : Conversion _ = record {
      thread = thread;
      opening = opening;
      request = request;
      response = response;
      timeout_ms = timeout_ms;
    } in
    λ other c at.
      Keeps-call s call channel_of (IsReady-Calls v calls) fresh other c
        (Keeps-Calls v calls other c at)

-- After a creation and any conversions, take two conversions, with any others between them. Each
-- exchanges over one client at most; and if that is the same client, it is one thread that converts:
-- no two threads ever use the same client. iceoryx2 is taken to make each client anew.
pub clients_not_shared :
    {F : Type 0} (has_node : Bool) (settings_opening audio_opening : Opening) (main : ℕ)
    {context s t : Context} (first second : Conversion F) (channel_of : ℕ → Channel AudioResponse)
    → rvc_ipc_create has_node settings_opening audio_opening main ≡ (true, some context)
    → Calls F context s
    → IsFresh first.opening s.audio
    → Calls F (converted s first channel_of).1 t
    → IsFresh second.opening t.audio
    → (one : Option ℕ) × ((other : Option ℕ) × (Uses s first one
          × Uses t second other
          × ((client : ℕ)
              → one ≡ some client
              → other ≡ some client
              → first.thread ≡ second.thread)))
clients_not_shared has_node settings_opening audio_opening main {s = s} {t = t} first second
      channel_of created calls fresh between fresh' =
    let v =
      IsReady-Calls (created-IsReady has_node settings_opening audio_opening main created) calls in
    let after =
      IsReady-call s first.thread first.opening channel_of first.request first.response
        first.timeout_ms v fresh in
    let v' = IsReady-Calls after between in
    let (one, (uses, owns)) = call-Uses s first v fresh in
    let (other, (uses', owns')) = call-Uses t second v' fresh' in
    let last =
      IsReady-call t second.thread second.opening channel_of second.request second.response
        second.timeout_ms v' fresh' in
    (
      one,
      (
        other,
        (
          uses,
          uses',
          λ client e e'.
              let held =
                Keeps-Calls after between first.thread (connected client)
                  (owns channel_of client e) in
              last.audio_apart.apart first.thread second.thread client
                (Keeps-call t second channel_of v' fresh' first.thread (connected client) held)
                (owns' channel_of client e'),
        ),
      ),
    )

-- What a conversion on a thread returns, and what it leaves of the connections.
pub record IsConversion (F : Type 0) (thread timeout_ms : ℕ)
    (channel_of : ℕ → Channel AudioResponse) (request : AudioRequest F) (response : AudioResponse)
    (before : Context) (out : Option (IpcStatus × AudioResponse) × Context) : Type 0 where
  result :
      (channel : Option (Channel AudioResponse)) × ((out.0
          ≡ some (rvc_ipc_convert channel request response timeout_ms))
        × IsOwn thread channel_of out.1.audio channel)
  others : (other : ℕ) → ¬ other ≡ thread → find other out.1.audio ≡ find other before.audio

-- After a creation and any conversions, a conversion on a thread uses no null client. It returns
-- what `rvc_ipc_convert` makes of one channel, that of the thread's own client, or of none, and it
-- leaves the connections of all other threads as they were. iceoryx2 makes each client anew.
pub conversion_lem :
    {F : Type 0} (has_node : Bool) (settings_opening audio_opening : Opening) (main : ℕ)
    {context s : Context}
    → rvc_ipc_create has_node settings_opening audio_opening main ≡ (true, some context)
    → Calls F context s
    → (thread : ℕ) (opening : Opening) (channel_of : ℕ → Channel AudioResponse)
      (request : AudioRequest F) (response : AudioResponse) (timeout_ms : ℕ)
    → IsFresh opening s.audio
    → IsConversion F thread timeout_ms channel_of request response s
        (rvc_ipc_convert_on s thread opening channel_of request response timeout_ms)
unfolding rvc_ipc_convert_on rvc_ipc_convert with_status
conversion_lem {F} has_node settings_opening audio_opening main {s = s} created calls thread opening
      channel_of request response timeout_ms fresh =
    let v =
      IsReady-Calls (created-IsReady has_node settings_opening audio_opening main created) calls in
    let call =
      convert_audio_on-IsGoodCall s.audio thread opening channel_of timeout_ms response
        v.audio_apart fresh in
    if_cases {A = Option (IpcStatus × AudioResponse) × Context}
      (IsConversion F thread timeout_ms channel_of request response s)
      (is_invalid request timeout_ms) _ _
      (λ invalid. record {
        result = (none, (rw invalid refl, inl refl));
        others = λ other differ. refl;
      })
      (λ valid. record {
        result = let (channel, (e, own)) = call.good_result in (channel, (rw (valid, e) refl, own));
        others = call.good_others;
      })
