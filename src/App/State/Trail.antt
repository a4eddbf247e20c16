-- ===== src/App/State/Trail.antt =====
-- What holds of the store of app/state.rs after any sequence of writes. The only caller-chosen
-- target of `fail` is ERROR: both calls in the source, in app/lifecycle.rs, pass it.
use network_client.Prelude.{
  ◌≡◌, refl, sym, subst, ◌⊎◌, inl, inr, true, List, [], ◌∷◌, Text, ℤ, arith,
}
use network_client.App.State.{
  ConnState, initializing, ready, connecting, connected, reconnecting, error, Inner, Payload,
  StateStore, as_str, can_transition, default_inner, new, payload, transition, set_context,
  set_latency, fail,
}
use network_client.App.State.Store.{transition_lem, set_context_lem}

pub data Write : Type 0 where
  moves : ConnState → Write
  binds : ConnState → Text → Text → Text → Write
  measures : ℤ → Write
  fails : Text → Text → Write

unfoldable pub apply : StateStore → Write → StateStore
unfolding transition set_context set_latency fail
apply s (moves to) = (transition to s).0
apply s (binds to node_id node_name mode) = (set_context to node_id node_name mode s).0
apply s (measures ms) = set_latency ms s
apply s (fails code message) = fail error code message s

unfoldable pub run : StateStore → List Write → StateStore
run s [] = s
run s (w ∷ ws) = run (apply s w) ws

-- What one event may follow: the same state, a legal move, or a failure.
abbrev pub Follows : ConnState → ConnState → Type 0
Follows a b = (a ≡ b) ⊎ ((can_transition a b ≡ true) ⊎ (b ≡ error))

-- The events lead from the initial fields to the fields `g`, newest first, and each tells the
-- fields that it left behind.
abbrev pub IsTrail : Inner → List Payload → Type 0
IsTrail g [] = g ≡ default_inner
IsTrail g (p ∷ ps) =
    (before : Inner) × (p ≡ payload g) × Follows before.state g.state × IsTrail before ps

-- A write changes nothing and is silent, or sends one event for a legal move.
apply-Follows :
    (s : StateStore) (w : Write)
    → let u = apply s w in
      (u ≡ s) ⊎ ((u.bus ≡ payload u.inner ∷ s.bus) × Follows s.inner.state u.inner.state)
unfolding apply
apply-Follows s (moves to) = ground (arith, transition_lem to s)
apply-Follows s (binds to node_id node_name mode) =
    ground (arith, set_context_lem to node_id node_name mode s)
apply-Follows s (measures ms) = inr (refl, inl refl)
apply-Follows s (fails code message) = inr (refl, inr (inr refl))

apply-IsTrail :
    (s : StateStore) (w : Write) → IsTrail s.inner s.bus → IsTrail (apply s w).inner (apply s w).bus
apply-IsTrail s w h = elim (apply-Follows s w) [
  | inl same ↦ subst (λ (u : StateStore). IsTrail u.inner u.bus) (sym same) h
  | inr (sent, follows) ↦ subst (IsTrail (apply s w).inner) (sym sent) (s.inner, refl, follows, h)
]

run-IsTrail_from :
    (s : StateStore) (ws : List Write)
    → IsTrail s.inner s.bus
    → IsTrail (run s ws).inner (run s ws).bus
unfolding run
run-IsTrail_from s [] h = h
run-IsTrail_from s (w ∷ ws) h = run-IsTrail_from (apply s w) ws (apply-IsTrail s w h)

-- After any writes, refused ones included, the events that a subscriber has seen form a path of the
-- diagram from the initial fields to the present ones: each event is the fields at its time, and
-- each is reached from the one before by a legal move, by a failure, or within one state.
pub run-IsTrail : (ws : List Write) → IsTrail (run new ws).inner (run new ws).bus
unfolding new
run-IsTrail ws = run-IsTrail_from new ws refl

abbrev pub HasSent : ConnState → List Payload → Type 0
HasSent a [] = ⊥
HasSent a (p ∷ ps) = (p.state ≡ as_str a) ⊎ HasSent a ps

abbrev pub IsUp : ConnState → Type 0
IsUp a = (a ≡ connected) ⊎ (a ≡ reconnecting)

-- Only CONNECTING leads into the two states in which a session is up.
Follows-IsUp : (a b : ConnState) → Follows a b → IsUp b → IsUp a ⊎ (a ≡ connecting)
unfolding can_transition
Follows-IsUp a b f u = ground arith

HasSent-of_connecting :
    (g : Inner) (ps : List Payload) → IsTrail g ps → g.state ≡ connecting → HasSent connecting ps
HasSent-of_connecting g [] h e = ground arith
HasSent-of_connecting g (p ∷ ps) (_, e', _, _) e = inl (ground arith)

HasSent-of_IsUp :
    (g : Inner) (ps : List Payload) → IsTrail g ps → IsUp g.state → HasSent connecting ps
HasSent-of_IsUp g [] h u = ground arith
HasSent-of_IsUp g (p ∷ ps) (before, e, f, h) u = elim (Follows-IsUp before.state g.state f u) [
  | inl up ↦ inr (HasSent-of_IsUp before ps h up)
  | inr c ↦ inr (HasSent-of_connecting before ps h c)
]

-- No session is reported as up unless CONNECTING was reported before.
pub connected-HasSent :
    (ws : List Write) → IsUp (run new ws).inner.state → HasSent connecting (run new ws).bus
connected-HasSent ws = HasSent-of_IsUp (run new ws).inner (run new ws).bus (run-IsTrail ws)

abbrev pub IsBoot : ConnState → Type 0
IsBoot a = (a ≡ initializing) ⊎ (a ≡ ready)

Follows-IsBoot : (a b : ConnState) → Follows a b → IsBoot b → IsBoot a
unfolding can_transition
Follows-IsBoot a b f u = ground arith

not-IsBoot : (g : Inner) (ps : List Payload) → IsTrail g ps → ¬ IsBoot g.state
not-IsBoot g [] h u = ground arith
not-IsBoot g (p ∷ ps) (before, _, f, h) u =
    not-IsBoot before ps h (Follows-IsBoot before.state g.state f u)

-- INITIALIZING and READY are never entered: the store begins in STOPPED, and nothing leads to them.
pub run-not-IsBoot : (ws : List Write) → ¬ IsBoot (run new ws).inner.state
run-not-IsBoot ws = not-IsBoot (run new ws).inner (run new ws).bus (run-IsTrail ws)
