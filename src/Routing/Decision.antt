-- ===== src/Routing/Decision.antt =====
-- Which rule decides a flow, in service/network-service/src/routing/engine.rs.
use network_client.Prelude.{
  ℕ, suc, ◌≡◌, refl, ◌⊎◌, inl, inr, ◌<◌, ◌≤◌, Bool, Option, none, some, List, [], ◌∷◌, ◌++◌, Text,
  arith, ltb, ap, true, false,
}
use network_client.Routing.Rule.{Flow, Decision}
use network_client.Routing.DomainTrie.{M}
use network_client.Routing.IpIndex.{Ip}
use network_client.Routing.Engine.{
  RoutingEngine, consider_all, stages, mode_default, conclude, decide,
}

abbrev pub Stages : Type 0
Stages = List (Text × Option M)

-- Every candidate of the stages has a priority below the bound.
abbrev pub Below : ℕ → Stages → Type 0
Below n [] = Unit
Below n ((_, none) ∷ cs) = Below n cs
Below n ((_, some m) ∷ cs) = (m.priority < n) × Below n cs

-- The stage of this label has this candidate, which beats those before it and is not beaten after.
abbrev pub Picks : Stages → Text → M → Type 0
Picks cs label m =
    (before : Stages) × (after : Stages) × (cs ≡ before ++ (label, some m) ∷ after)
    × Below m.priority before
    × Below (suc m.priority) after

-- A winner so far either stays, or a later candidate of a greater priority is picked.
Outcome : Stages → M → Text → Type 0
Outcome cs cur why =
    ((consider_all cs (some cur, why) ≡ (some cur, why)) × Below (suc cur.priority) cs)
    ⊎ ((label : Text) × (m : M) × (consider_all cs (some cur, why) ≡ (some m, label))
        × (cur.priority < m.priority)
        × Picks cs label m)

ltb_cases : (a b : ℕ) → ((ltb a b ≡ true) × (a < b)) ⊎ ((ltb a b ≡ false) × (b ≤ a))
ltb_cases a b = ground arith

Below-le : (cs : Stages) (n k : ℕ) → n ≤ k → Below n cs → Below k cs
Below-le [] n k h b = tt
Below-le ((_, none) ∷ cs) n k h b = Below-le cs n k h b
Below-le ((_, some m) ∷ cs) n k h (lt, b) = (omega arith, Below-le cs n k h b)

-- The new candidate has replaced the winner.
replaced :
    (l : Text) (c : M) (cs : Stages) (cur : M) (why : Text)
    → cur.priority < c.priority
    → Outcome cs c l
    → ((consider_all cs (some c, l) ≡ (some cur, why))
        × Below (suc cur.priority) ((l, some c) ∷ cs))
      ⊎ ((label : Text) × (m : M) × (consider_all cs (some c, l) ≡ (some m, label))
          × (cur.priority < m.priority)
          × Picks ((l, some c) ∷ cs) label m)
unfolding Outcome
replaced l c cs cur why lt (inl (h, b)) = inr (l, c, h, lt, ([], cs, refl, tt, b))
replaced l c cs cur why lt (inr (label, m, h, lt', (before, after, e, b, a))) = inr (
  label,
  m,
  h,
  omega arith,
  ((l, some c) ∷ before, after, ap (λ k. (l, some c) ∷ k) e, (lt', b), a),
)

-- The winner has stayed.
kept :
    (l : Text) (c : M) (cs : Stages) (cur : M) (why : Text)
    → c.priority ≤ cur.priority
    → Outcome cs cur why
    → ((consider_all cs (some cur, why) ≡ (some cur, why))
        × Below (suc cur.priority) ((l, some c) ∷ cs))
      ⊎ ((label : Text) × (m : M) × (consider_all cs (some cur, why) ≡ (some m, label))
          × (cur.priority < m.priority)
          × Picks ((l, some c) ∷ cs) label m)
unfolding Outcome
kept l c cs cur why le (inl (h, b)) = inl (h, (omega arith, b))
kept l c cs cur why le (inr (label, m, h, lt, (before, after, e, b, a))) = inr (
  label,
  m,
  h,
  lt,
  ((l, some c) ∷ before, after, ap (λ k. (l, some c) ∷ k) e, (omega arith, b), a),
)

consider_all_some : (cs : Stages) (cur : M) (why : Text) → Outcome cs cur why
unfolding consider_all Outcome
consider_all_some [] cur why = inl (refl, tt)
consider_all_some ((l, none) ∷ cs) cur why = elim (consider_all_some cs cur why) [
  | inl s ↦ inl s
  | inr (label, m, h, lt, (before, after, e, b, a)) ↦
      inr (label, m, h, lt, ((l, none) ∷ before, after, ap (λ k. (l, none) ∷ k) e, b, a))
]
consider_all_some ((l, some c) ∷ cs) cur why = elim (ltb_cases cur.priority c.priority) [
  | inl (h, lt) ↦ rw h (replaced l c cs cur why lt (consider_all_some cs c l))
  | inr (h, le) ↦ rw h (kept l c cs cur why le (consider_all_some cs cur why))
]

-- From no winner: no stage has a candidate, or one is picked.
consider_all-none :
    (cs : Stages)
    → ((consider_all cs (none, []) ≡ (none, [])) × Below 0 cs)
      ⊎ ((label : Text) × (m : M) × (consider_all cs (none, []) ≡ (some m, label))
          × Picks cs label m)
unfolding consider_all Outcome
consider_all-none [] = inl (refl, tt)
consider_all-none ((l, none) ∷ cs) = elim (consider_all-none cs) [
  | inl s ↦ inl s
  | inr (label, m, h, (before, after, e, b, a)) ↦
      inr (label, m, h, ((l, none) ∷ before, after, ap (λ k. (l, none) ∷ k) e, b, a))
]
consider_all-none ((l, some c) ∷ cs) = elim (consider_all_some cs c l) [
  | inl (h, b) ↦ inr (l, c, h, ([], cs, refl, tt, b))
  | inr (label, m, h, lt, (before, after, e, b, a)) ↦
      inr (label, m, h, ((l, some c) ∷ before, after, ap (λ k. (l, some c) ∷ k) e, (lt, b), a))
]

-- The decision of a matching rule.
abbrev pub by_match : M → Text → Decision
by_match m label = record { action = m.action; rule_id = some m.rule_id; reason = label }

module _ {Regex : Type 0} (is_match : Regex → Text → Bool) where
  -- A decision has one of two causes. Either no stage has a matching rule, and the default of the
  -- mode decides; or the decision is the action, the rule and the stage of a match whose priority is
  -- greater than those of all earlier stages and at least those of all later ones.
  pub decide_lem :
      (flow : Flow Ip) (engine : RoutingEngine Regex)
      → (Below 0 (stages is_match flow engine)
          × (decide is_match flow engine ≡ mode_default engine.cfg.mode flow engine))
        ⊎ ((label : Text) × (m : M) × Picks (stages is_match flow engine) label m
            × (decide is_match flow engine ≡ by_match m label))
  unfolding decide conclude
  decide_lem flow engine = elim (consider_all-none (stages is_match flow engine)) [
    | inl (h, b) ↦ inl (b, ap (λ w. conclude w flow engine) h)
    | inr (label, m, h, p) ↦ inr (label, m, p, ap (λ w. conclude w flow engine) h)
  ]
