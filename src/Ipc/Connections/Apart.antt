-- ===== src/Ipc/Connections/Apart.antt =====
-- The connections of the audio client: each is whole, and none serves two threads.
use mathlib.Core.Option.{some-injective}
use obs_rvc.Prelude.{
  ℕ, ◌≡◌, refl, sym, ap, ◌∙◌, ◌⊎◌, inl, inr, Bool, true, false, not, ◌==◌, Option, none, some, [],
  ◌∷◌, arith, if_cases, ==_iff,
}
use obs_rvc.Ipc.Connections.{Opening, Connection, with_client, open_service, Connections, find}

-- A connection that `open` made.
abbrev pub connected : ℕ → Connection
connected client = record { has_service = true; client = some client }

-- Either nothing is opened, or a client is.
abbrev pub IsOpened : Option ℕ → Bool × Connection → Type 0
IsOpened created out =
    (out.0 ≡ false) ⊎ ((client : ℕ) × ((created ≡ some client) × (out ≡ (true, connected client))))

with_client-IsOpened :
    (c : Connection) (created : Option ℕ) → IsOpened created (with_client c created)
unfolding with_client
with_client-IsOpened c none = inl refl
with_client-IsOpened c (some client) = inr (client, (refl, refl))

pub open_service-IsOpened :
    (opening : Opening) (c : Connection) → IsOpened opening.client (open_service opening c)
unfolding open_service
open_service-IsOpened opening c =
    if_cases (IsOpened opening.client) (not opening.is_name) _ _ (λ _. inl refl)
      (λ _.
        if_cases (IsOpened opening.client) (not opening.opens_service) _ _ (λ _. inl refl)
          (λ _. with_client-IsOpened c opening.client))

-- Each connection is whole, and two threads with the same client are one.
pub record AreApart (connections : Connections) : Type 0 where
  pub whole :
      (thread : ℕ) (c : Connection)
      → find thread connections ≡ some c
      → (client : ℕ) × (c ≡ connected client)
  pub apart :
      (thread other client : ℕ)
      → find thread connections ≡ some (connected client)
      → find other connections ≡ some (connected client)
      → thread ≡ other

-- The client that an opening may create is not in use.
abbrev pub IsFresh : Opening → Connections → Type 0
IsFresh opening connections =
    (thread client : ℕ)
    → opening.client ≡ some client
    → ¬ find thread connections ≡ some (connected client)

pub find-cons :
    (thread owner : ℕ) (c : Connection) (rest : Connections) (out : Option Connection)
    → find thread ((owner, c) ∷ rest) ≡ out
    → ((owner ≡ thread) × (some c ≡ out)) ⊎ (find thread rest ≡ out)
unfolding find
find-cons thread owner c rest out =
    if_cases (λ found. found ≡ out → ((owner ≡ thread) × (some c ≡ out)) ⊎ (find thread rest ≡ out))
      (owner == thread) (some c) (find thread rest) (λ own e. inl ((==_iff owner thread).0 own, e))
      (λ _ e. inr e)

-- The number of the client that a search found.
abbrev client_found : Option Connection → ℕ
client_found none = 0
client_found (some c) = elim c.client [ none ↦ 0 | some client ↦ client ]

pub same_client : (a b : ℕ) → some (connected a) ≡ some (connected b) → a ≡ b
same_client a b e = ap client_found e

pub AreApart-cons :
    (thread client : ℕ) (connections : Connections)
    → AreApart connections
    → ((other : ℕ) → ¬ find other connections ≡ some (connected client))
    → AreApart ((thread, connected client) ∷ connections)
AreApart-cons thread client connections v fresh = record {
  whole = λ t c found. elim (find-cons t thread (connected client) connections (some c) found) [
    | inl (_, e) ↦ (client, some-injective _ _ (sym e))
    | inr later ↦ v.whole t c later
  ];
  apart = λ t u h found found'. elim (find-cons t thread (connected client) connections _ found) [
    | inl (own, e) ↦ elim (find-cons u thread (connected client) connections _ found') [
      | inl (own', _) ↦ sym own ∙ own'
      | inr later ↦ absurd (fresh u (rw (same_client client h e) later))
    ]
    | inr first ↦ elim (find-cons u thread (connected client) connections _ found') [
      | inl (_, e) ↦ absurd (fresh t (rw (same_client client h e) first))
      | inr later ↦ v.apart t u h first later
    ]
  ];
}

pub none_found : (thread : ℕ) (c : Connection) → ¬ find thread [] ≡ some c
unfolding find
none_found thread c e = ground arith

pub no_connections-AreApart : AreApart []
no_connections-AreApart = record {
  whole = λ t c found. absurd (none_found t c found);
  apart = λ t u h found found'. absurd (none_found t (connected h) found);
}
