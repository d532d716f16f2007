-- ===== src/Agent/Provisioning/Traces.antt =====
-- What holds of a node over every sequence of events
-- (apps/node-agent/src/provisioning-state.js). The agent keeps its state where an event is refused.
use full_revna_like_projekt.Base.{
  suc, String, ◌≡◌, refl, inl, inr, ◌↔◌, subst, true, false, Option, none, some, List, [], ◌∷◌,
  arith, All, or_else,
}
use full_revna_like_projekt.Base.Reply.{Reply, ok, settled, Reply-cases}
use full_revna_like_projekt.Base.Json.{Json, bool, nullish}
use full_revna_like_projekt.Agent.Provisioning.{
  Mode, active, quarantined, Phase, idle, Event, apply_started, apply_succeeded, resume_requested,
  quarantine_requested, ProvisioningState, EventInput, no_input, dispatch, clears,
  create_provisioning_state, transition_provisioning_state, state_input, either,
}
use full_revna_like_projekt.Agent.Provisioning.Diagram.{
  Edge, LeadsTo, dispatch-Edge, Edge-dispatch, clears_iff,
}
use full_revna_like_projekt.Agent.Provisioning.Invariant.{
  Coherent, is_work, fresh_input, create_fresh-Coherent, dispatch-Coherent, transition-dispatch,
}

-- A call of `transitionProvisioningState` on the state that the agent keeps.
pub record Request : Type 0 where
  pub event : Event
  pub input : EventInput
  pub now : String

abbrev pub requested : ProvisioningState → Request → Reply ProvisioningState
requested s q = transition_provisioning_state q.now (state_input s) q.event q.input

unfoldable pub run : ProvisioningState → List Request → ProvisioningState
run s [] = s
run s (q ∷ qs) = run (settled (requested s q) s) qs

-- One request keeps a property that every accepted event keeps.
kept {ℓ} :
    (P : ProvisioningState → Type ℓ) (s : ProvisioningState) (q : Request)
    → Coherent s
    → P s
    → ((t : ProvisioningState) → dispatch q.event q.input (or_else q.input.at q.now) s ≡ ok t → P t)
    → P (settled (requested s q) s)
kept P s q c p step =
    rw (transition-dispatch q.now s q.event q.input c)
      (elim (Reply-cases (dispatch q.event q.input (or_else q.input.at q.now) s)) [
        | inl (t, e) ↦ rw e (step t e)
        | inr (m, e) ↦ rw e p
      ])

request-Coherent :
    (s : ProvisioningState) (q : Request) → Coherent s → Coherent (settled (requested s q) s)
request-Coherent s q c =
    kept Coherent s q c c
      (λ t e. dispatch-Coherent q.event q.input (or_else q.input.at q.now) s t c e)

pub run-Coherent : (s : ProvisioningState) (qs : List Request) → Coherent s → Coherent (run s qs)
unfolding run
run-Coherent s [] c = c
run-Coherent s (q ∷ qs) c = run-Coherent (settled (requested s q) s) qs (request-Coherent s q c)

-- Whatever is requested of a node after its first state has been created, with each request taken
-- or refused: its identifier is not blank, a quarantine is recorded exactly in the mode
-- "quarantined" and the time of a pause exactly in the mode "paused", the phases "applying",
-- "removing" and "failed" occur only in the mode "active", and a failed node has its last error.
pub create_run-Coherent :
    (now node_id : String) (updated_at : Option String) (s : ProvisioningState) (qs : List Request)
    → create_provisioning_state now (fresh_input node_id updated_at) ≡ ok s
    → Coherent (run s qs)
create_run-Coherent now node_id updated_at s qs h =
    run-Coherent s qs (create_fresh-Coherent now node_id updated_at s h)

-- On a coherent state, an event is accepted and leads to a mode and a phase exactly where the
-- transition diagram has an edge to them.
pub transition_iff_Edge :
    (now : String) (s : ProvisioningState) (e : Event) (input : EventInput) (m : Mode) (p : Phase)
    → Coherent s
    → LeadsTo (transition_provisioning_state now (state_input s) e input) m p
      ↔ Edge input s.mode s.phase e m p
transition_iff_Edge now s e input m p c = rw (transition-dispatch now s e input c) (
  λ (t, h, em, ep).
      subst (λ x. Edge input s.mode s.phase e x p) em
        (subst (λ x. Edge input s.mode s.phase e t.mode x) ep
          (dispatch-Edge e input (or_else input.at now) s t h)),
  λ edge. Edge-dispatch (or_else input.at now) s refl refl edge,
)

-- The request does not lift a quarantine.
abbrev pub IsConfining : Request → Type 0
IsConfining q = q.event ≡ resume_requested → ¬ (q.input.clear_quarantine ≡ some (bool true))

-- What a quarantined node keeps.
abbrev pub Confined : ProvisioningState → Option Json → Type 0
Confined s v = (s.mode ≡ quarantined) × (s.applied_revision ≡ v) × (is_work s.phase ≡ false)

dispatch-Confined :
    (e : Event) (input : EventInput) (at : String) (s t : ProvisioningState) (v : Option Json)
    → (e ≡ resume_requested → ¬ (input.clear_quarantine ≡ some (bool true)))
    → Confined s v
    → dispatch e input at s ≡ ok t
    → Confined t v
unfolding dispatch
dispatch-Confined e input at s t v n c h = ground (arith, clears_iff input.clear_quarantine)

run-Confined :
    (s : ProvisioningState) (qs : List Request) (v : Option Json)
    → Coherent s
    → Confined s v
    → All IsConfining qs
    → Confined (run s qs) v
unfolding run
run-Confined s [] v c h a = h
run-Confined s (q ∷ qs) v c h (n, a) =
    run-Confined (settled (requested s q) s) qs v (request-Coherent s q c)
      (kept (λ t. Confined t v) s q c h
        (λ t e. dispatch-Confined q.event q.input (or_else q.input.at q.now) s t v n h e))
      a

-- A node in quarantine stays there and keeps its applied revision, neither applying nor removing
-- anything, through every sequence of requests in which no resume has `clearQuarantine` true.
pub quarantine-holds :
    (s : ProvisioningState) (qs : List Request)
    → Coherent s
    → s.mode ≡ quarantined
    → All IsConfining qs
    → Confined (run s qs) s.applied_revision
quarantine-holds s qs c m a = run-Confined s qs s.applied_revision c (m, refl, still) a
  where
    still : is_work s.phase ≡ false
    still = ground (arith, c.works_active)

-- Requests that bring a node back to work: quarantine it, lift the quarantine, apply a revision.
abbrev pub confine_request : String → Request
confine_request now = record { event = quarantine_requested; input = no_input; now = now }

abbrev lift_request : String → Request
lift_request now = record {
  event = resume_requested;
  input = record no_input { clear_quarantine = some (bool true) };
  now = now;
}

abbrev start_request : Json → String → Request
start_request v now = record {
  event = apply_started;
  input = record no_input { desired_revision = some v };
  now = now;
}

abbrev finish_request : String → Request
finish_request now = record { event = apply_succeeded; input = no_input; now = now }

abbrev pub recovery : Json → String → List Request
recovery v now =
    confine_request now ∷ lift_request now ∷ start_request v now ∷ finish_request now ∷ []

-- A request that is accepted is carried out before the others.
run_accepted {ℓ} :
    (P : ProvisioningState → Type ℓ) (s t : ProvisioningState) (q : Request) (qs : List Request)
    → Coherent s
    → dispatch q.event q.input (or_else q.input.at q.now) s ≡ ok t
    → (Coherent t → P (run t qs))
    → P (run s (q ∷ qs))
unfolding run
run_accepted P s t q qs c e rest =
    rw (transition-dispatch q.now s q.event q.input c, e)
      (rest (dispatch-Coherent q.event q.input (or_else q.input.at q.now) s t c e))

abbrev pub Recovered : Json → ProvisioningState → ProvisioningState → Type 0
Recovered v s t =
    (t.mode ≡ active)
    × (t.phase ≡ idle)
    × (t.applied_revision ≡ some v)
    × (t.quarantine ≡ none)
    × (t.last_error ≡ none)
    × (t.revision ≡ suc (suc (suc s.revision)))

-- From every coherent state, whatever its mode and phase, four requests that are all accepted lead
-- to an active and idle node without quarantine and last error, which has applied a given revision.
pub recovery-returns :
    (s : ProvisioningState) (v : Json) (now : String)
    → Coherent s
    → nullish (some v) ≡ some v
    → Recovered v s (run s (recovery v now))
unfolding run dispatch clears
recovery-returns s v now c h =
    run_accepted P s _ (confine_request now) (lift_request now ∷ after_lift) c refl (λ c1.
      run_accepted P _ _ (lift_request now) after_lift c1 refl (λ c2.
        run_accepted P _ _ (start_request v now) (finish_request now ∷ []) c2 refl (λ c3.
          run_accepted P _ _ (finish_request now) [] c3 refl
            (λ c4. (refl, refl, sent, refl, refl, refl)))))
  where
    P : ProvisioningState → Type 0
    P = Recovered v s

    after_lift : List Request
    after_lift = start_request v now ∷ finish_request now ∷ []

    sent : either (some v) s.desired_revision ≡ some v
    sent = rw (h, either) refl
