-- ===== src/Tests/Contexts.antt =====
-- A context that two threads convert with.
use mathlib.Core.Option.{some-injective}
use obs_rvc.Prelude.{ℕ, ◌≡◌, refl, inl, inr, true, some, Option, sym, ap, ◌∙◌, [], ◌∷◌, arith}
use obs_rvc.Ipc.Transport.{AudioResponse}
use obs_rvc.Ipc.Exchange.{Channel}
use obs_rvc.Ipc.Connections.{
  Opening, find, Context, open_service, with_client, new_audio_client, convert_audio_on,
  found_or_opened, rvc_ipc_create, rvc_ipc_convert_on,
}
use obs_rvc.Ipc.Connections.Apart.{connected, find-cons, same_client, none_found}
use obs_rvc.Ipc.Connections.Calls.{IsFresh}
use obs_rvc.Ipc.Connections.Contexts.{
  no_calls, Conversion, Uses, IsConversion, clients_not_shared, conversion_lem,
}
use obs_rvc.Tests.Sample.{blank, channel, request}

abbrev pub opening_of : ℕ → Opening
opening_of client = record { is_name = true; opens_service = true; client = some client }

-- Thread 10 creates the context.
abbrev pub context : Context
context = record { settings = connected 1; audio = (10, connected 2) ∷ [] }

created : rvc_ipc_create true (opening_of 1) (opening_of 2) 10 ≡ (true, some context)
unfolding rvc_ipc_create open_service with_client new_audio_client
created = refl

abbrev channel_of : ℕ → Channel AudioResponse
channel_of client = channel

client-IsFresh : IsFresh (opening_of 3) context.audio
client-IsFresh thread client same found = elim (find-cons thread 10 (connected 2) [] _ found) [
  | inl (_, e) ↦
      let two = same_client 2 client e in
      let three = some-injective 3 client same in absurd (omega (arith, two, three))
  | inr e ↦ absurd (none_found thread (connected client) e)
]

-- Then thread 11 converts, for the first time, and thread 10 behind it.
abbrev second : Context
second = (rvc_ipc_convert_on context 11 (opening_of 3) channel_of request blank 10).1

abbrev on_second_thread : Conversion ℕ
on_second_thread = record {
  thread = 11;
  opening = opening_of 3;
  request = request;
  response = blank;
  timeout_ms = 10;
}

abbrev on_first_thread : Conversion ℕ
on_first_thread = record on_second_thread { thread = 10; opening = opening_of 4 }

-- The clients of the two threads are 3 and 2.
not_a_third :
    (thread client : ℕ)
    → client ≡ 4
    → ¬ find thread ((11, connected 3) ∷ (10, connected 2) ∷ []) ≡ some (connected client)
not_a_third thread client four found =
    elim (find-cons thread 11 (connected 3) ((10, connected 2) ∷ []) _ found) [
      | inl (_, e) ↦ let three = same_client 3 client e in absurd (omega (arith, three, four))
      | inr found' ↦ elim (find-cons thread 10 (connected 2) [] _ found') [
        | inl (_, e) ↦ let two = same_client 2 client e in absurd (omega (arith, two, four))
        | inr e ↦ none_found thread (connected client) e
      ]
    ]

second_audio : second.audio ≡ (11, connected 3) ∷ (10, connected 2) ∷ []
unfolding rvc_ipc_convert_on find convert_audio_on found_or_opened open_service with_client
second_audio = refl

next_client-IsFresh : IsFresh (opening_of 4) second.audio
next_client-IsFresh thread client same found =
    not_a_third thread client (sym (some-injective 4 client same))
      (ap (find thread) (sym second_audio) ∙ found)

clients_not_shared_example :
    (one : Option ℕ) × ((other : Option ℕ) × (Uses context on_second_thread one
        × Uses second on_first_thread other
        × ((client : ℕ) → one ≡ some client → other ≡ some client → ◌≡◌ {A = ℕ} 11 10)))
clients_not_shared_example =
    clients_not_shared true (opening_of 1) (opening_of 2) 10 on_second_thread on_first_thread
      channel_of created no_calls client-IsFresh no_calls next_client-IsFresh

conversion_lem_example :
    IsConversion ℕ 11 10 channel_of request blank context
      (rvc_ipc_convert_on context 11 (opening_of 3) channel_of request blank 10)
conversion_lem_example =
    conversion_lem true (opening_of 1) (opening_of 2) 10 created no_calls 11 (opening_of 3)
      channel_of request blank 10 client-IsFresh
