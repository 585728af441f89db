-- ===== src/Ipc/Connections/Calls.antt =====
-- The calls of the two clients over the life of a context, by any threads in any order.
use mathlib.Core.Path.{subst}
use obs_rvc.Prelude.{
  ==_iff, Bool-cases, ◌==◌, not_both, sym, ◌∙◌, ℕ, ◌≡◌, refl, ap, ◌∙◌, ◌⊎◌, inl, inr, Bool, false,
  Option, none, some, ◌∷◌, arith, if_cases, is_nil,
}
use obs_rvc.Ipc.Transport.{AudioResponse}
use obs_rvc.Ipc.Status.{TransportStatus}
use obs_rvc.Ipc.Exchange.{Channel, convert_audio}
use obs_rvc.Ipc.Connections.{
  Opening, Connection, unconnected, open_service, Connections, find, found_or_opened, convert_on,
  convert_audio_on,
}
use obs_rvc.Ipc.Connections.Apart.{
  connected, IsOpened, open_service-IsOpened, AreApart, AreApart-cons,
}

-- No connection is lost.
abbrev pub Keeps : Connections → Connections → Type 0
Keeps before after =
    (other : ℕ) (c : Connection) → find other before ≡ some c → find other after ≡ some c

-- What the lock of `convert` leaves: the connections are still apart, the thread has its own, whole,
-- unless none can be opened, and those of the others are as they were.
pub record IsServed (thread : ℕ) (before after : Connections) (c : Option Connection) : Type 0 where
  still_apart : AreApart after
  pub served :
      (c ≡ none)
      ⊎ ((client : ℕ) × ((c ≡ some (connected client))
            × (find thread after ≡ some (connected client))))
  others : (other : ℕ) → ¬ other ≡ thread → find other after ≡ find other before
  kept : Keeps before after
  stays_open : is_nil before ≡ false → is_nil after ≡ false

-- The client that an opening may create is not in use.
abbrev pub IsFresh : Opening → Connections → Type 0
IsFresh opening connections =
    (thread client : ℕ)
    → opening.client ≡ some client
    → ¬ find thread connections ≡ some (connected client)

find_other :
    (thread other : ℕ) (c : Connection) (connections : Connections)
    → ¬ other ≡ thread
    → find other ((thread, c) ∷ connections) ≡ find other connections
unfolding find
find_other thread other c connections differ = ground arith

find_own :
    (thread : ℕ) (c : Connection) (connections : Connections)
    → find thread ((thread, c) ∷ connections) ≡ some c
unfolding find
find_own thread c connections = ground arith

pub none_is_some : {A : Type 0} {a : A} → ¬ none ≡ some a
none_is_some e = ground arith

find_keeps :
    (thread : ℕ) (c : Connection) (connections : Connections)
    → find thread connections ≡ none
    → Keeps connections ((thread, c) ∷ connections)
find_keeps thread c connections new other c' at = elim (Bool-cases (other == thread)) [
  | inl e ↦
      let found = subst (λ t. find t connections ≡ some c') ((==_iff other thread).0 e) at in
      absurd (none_is_some (sym new ∙ found))
  | inr e ↦
      let differ : ¬ other ≡ thread = λ same. not_both e ((==_iff other thread).1 same) in
      find_other thread other c connections differ ∙ at
]

pub found_or_opened-IsServed :
    (thread : ℕ) (created : Option ℕ) (connections : Connections) (opened : Bool × Connection)
    (found : Option Connection)
    → AreApart connections
    → ((other client : ℕ)
        → created ≡ some client
        → ¬ find other connections ≡ some (connected client))
    → IsOpened created opened
    → find thread connections ≡ found
    → let out = found_or_opened thread connections opened found in
      IsServed thread connections out.1 out.0
unfolding found_or_opened
found_or_opened-IsServed thread created connections opened (some c) v fresh o at = record {
  still_apart = v;
  served =
      let (client, same) = v.whole thread c at in inr (client, (ap some same, at ∙ ap some same));
  others = λ other differ. refl;
  kept = λ other c' at'. at';
  stays_open = λ opened. opened;
}
found_or_opened-IsServed thread created connections opened none v fresh (inl closed) at =
    if_cases {A = Option Connection × Connections} (λ out. IsServed thread connections out.1 out.0)
      opened.0 _ _ (λ open_now. absurd (ground arith))
      (λ _. record {
        still_apart = v;
        served = inl refl;
        others = λ other differ. refl;
        kept = λ other c' at'. at';
        stays_open = λ opened. opened;
      })
found_or_opened-IsServed thread created connections opened none v fresh (inr (client, (at', e)))
      at =
    rw e (record {
      still_apart = AreApart-cons thread client connections v (λ other. fresh other client at');
      served = inr (client, (refl, find_own thread (connected client) connections));
      others = λ other differ. find_other thread other (connected client) connections differ;
      kept = find_keeps thread (connected client) connections at;
      stays_open = λ opened. refl;
    })

-- The channel is that of the thread's own client, if there is one.
abbrev pub IsOwn :
    ℕ → (ℕ → Channel AudioResponse) → Connections → Option (Channel AudioResponse) → Type 0
IsOwn thread channel_of connections channel =
    (channel ≡ none)
    ⊎ ((client : ℕ) × ((find thread connections ≡ some (connected client))
          × (channel ≡ some (channel_of client))))

-- A call of `convert` never uses a null client, leaves the connections apart and those of the other
-- threads as they were, and does what an exchange over one client does, its thread's own.
pub record IsGoodCall (thread timeout_ms : ℕ) (channel_of : ℕ → Channel AudioResponse)
    (response : AudioResponse) (before : Connections)
    (out : Option (TransportStatus × AudioResponse) × Connections) : Type 0 where
  pub good_apart : AreApart out.1
  pub good_others : (other : ℕ) → ¬ other ≡ thread → find other out.1 ≡ find other before
  pub good_kept : Keeps before out.1
  pub good_open : is_nil before ≡ false → is_nil out.1 ≡ false
  pub good_result :
      (channel : Option (Channel AudioResponse)) × ((out.0
          ≡ some (convert_audio channel timeout_ms response))
        × IsOwn thread channel_of out.1 channel)

convert_on_served :
    (thread : ℕ) (before after : Connections) (c : Option Connection)
    (channel_of : ℕ → Channel AudioResponse) (timeout_ms : ℕ) (response : AudioResponse)
    → IsServed thread before after c
    → IsGoodCall thread timeout_ms channel_of response before
        (convert_on c channel_of timeout_ms response, after)
unfolding convert_on convert_audio
convert_on_served thread before after c channel_of timeout_ms response v = record {
  good_apart = v.still_apart;
  good_others = v.others;
  good_kept = v.kept;
  good_open = v.stays_open;
  good_result = elim v.served [
    | inl e ↦ (none, (rw e refl, inl refl))
    | inr (client, (e, own)) ↦ (some (channel_of client), (rw e refl, inr (client, (own, refl))))
  ];
}

pub convert_audio_on-IsGoodCall :
    (connections : Connections) (thread : ℕ) (opening : Opening)
    (channel_of : ℕ → Channel AudioResponse) (timeout_ms : ℕ) (response : AudioResponse)
    → AreApart connections
    → IsFresh opening connections
    → IsGoodCall thread timeout_ms channel_of response connections
        (convert_audio_on connections thread opening channel_of timeout_ms response)
unfolding convert_audio_on convert_audio
convert_audio_on-IsGoodCall connections thread opening channel_of timeout_ms response v fresh =
    if_cases (IsGoodCall thread timeout_ms channel_of response connections) (is_nil connections) _ _
      (λ _. record {
        good_apart = v;
        good_others = λ other differ. refl;
        good_kept = λ other c at. at;
        good_open = λ opened. opened;
        good_result = (none, (refl, inl refl));
      })
      (λ _. convert_on_served thread connections _ _ channel_of timeout_ms response (
        found_or_opened-IsServed thread opening.client connections
          (open_service opening unconnected) (find thread connections) v fresh
          (open_service-IsOpened opening unconnected) refl))
