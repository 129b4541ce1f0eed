-- ===== src/Agents/Signal/Registry.antt =====
-- Signals reach the agent they are meant for (src/core/signal.rs).
use auxlry.Prelude.{
  ◌≡◌, ◌≢◌, refl, sym, ◌∙◌, String, Bool, true, false, Option, none, some, List, [], ◌∷◌, ◌++◌, ◌⊎◌,
  inl, inr, Bool-cases, str_eq, str_eq_iff,
}
use auxlry.Prelude.Bytes.{Bytes}
use auxlry.Prelude.Membership.{Elem, Distinct}
use auxlry.Agents.Signal.{
  AgentSignal, AgentKind, ActiveAgent, ActiveAgents, deregister, register, signal,
}

abbrev pub ids : ActiveAgents → List String
ids [] = []
ids (a ∷ agents) = a.id ∷ ids agents

ids-deregister :
    (id k : String) (agents : ActiveAgents)
    → Elem k (ids (deregister id agents))
    → Elem k (ids agents) × (k ≢ id)
unfolding deregister
ids-deregister id k [] h = absurd h
ids-deregister id k (a ∷ agents) h = elim (Bool-cases (str_eq a.id id)) [
  | inl same ↦ let (e, n) = ids-deregister id k agents (rw same at h) in (inr e, n)
  | inr other ↦
      let further : Elem k (a.id ∷ ids (deregister id agents)) = rw other at h in
      elim further [
        | inl e ↦ (inl e, (λ is. absurd (cc (other, (str_eq_iff a.id id).1 (sym e ∙ is)))))
        | inr j ↦ let (e, n) = ids-deregister id k agents j in (inr e, n)
      ]
]

Distinct-deregister :
    (id : String) (agents : ActiveAgents)
    → Distinct (ids agents)
    → Distinct (ids (deregister id agents))
unfolding deregister
Distinct-deregister id [] d = tt
Distinct-deregister id (a ∷ agents) d = elim (Bool-cases (str_eq a.id id)) [
  | inl same ↦ rw same (Distinct-deregister id agents d.1)
  | inr other ↦
      rw other ((λ h. d.0 (ids-deregister id a.id agents h).0), Distinct-deregister id agents d.1)
]

-- If the registry has one entry to each id, it is so after an agent is registered or deregistered;
-- after the first its id is there, and after the second it is not.
pub ids-register :
    (id : String) (kind : AgentKind) (task : Bytes) (interface channel : Option String)
    (agents : ActiveAgents)
    → Distinct (ids agents)
    → Distinct (ids (register id kind task interface channel agents))
      × Elem id (ids (register id kind task interface channel agents))
      × Distinct (ids (deregister id agents))
      × (¬ Elem id (ids (deregister id agents)))
unfolding register
ids-register id kind task interface channel agents d =
    let gone : ¬ Elem id (ids (deregister id agents)) =
      λ h. (ids-deregister id id agents h).1 refl in
    let kept = Distinct-deregister id agents d in ((gone, kept), inl refl, kept, gone)

-- One entry of `before` passes the test, listens and has the signal in `after`: the first that
-- passes. All else is as before.
pub record Delivered (p : ActiveAgent → Bool) (s : AgentSignal) (before after : ActiveAgents)
    : Type 0 where
  pub earlier : ActiveAgents
  pub agent : ActiveAgent
  pub later : ActiveAgents
  pub was : before ≡ earlier ++ agent ∷ later
  pub is : after ≡ earlier ++ record agent { signal = s } ∷ later
  pub passes : p agent ≡ true
  pub listens : agent.listening ≡ true

-- The first entry that passes the test does not listen, or none passes.
abbrev pub Refused : (ActiveAgent → Bool) → ActiveAgents → Type 0
Refused p [] = Unit
Refused p (a ∷ agents) = ((p a ≡ true) × (a.listening ≡ false)) ⊎ ((p a ≡ false) × Refused p agents)

abbrev pub Delivery :
    (ActiveAgent → Bool) → AgentSignal → ActiveAgents → Option ActiveAgents → Type 0
Delivery p s before (some after) = Delivered p s before after
Delivery p s before none = Refused p before
