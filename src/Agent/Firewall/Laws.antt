-- ===== src/Agent/Firewall/Laws.antt =====
-- What passes the checks of a firewall plan (apps/node-agent/src/firewall-plan.js).
use full_revna_like_projekt.Base.{
  ℕ, suc, ◌≤◌, String, ◌≡◌, refl, subst, inl, inr, ◌⊎◌, ◌↔◌, Bool, true, false, not, ◌&&◌, Option,
  none, some, List, [], ◌∷◌, arith, All,
}
use full_revna_like_projekt.Base.Json.{
  Json, null, bool, num, str, arr, obj, Items, nil, cons, items, Fields, get,
}
use full_revna_like_projekt.Agent.Checks.Laws.{Filled, OneOf, require_string_iff, assert_known_iff}
use full_revna_like_projekt.Agent.Commands.{is_text}
use full_revna_like_projekt.Agent.Commands.Laws.{both, compose, failing_iff, is_text_iff}
use full_revna_like_projekt.Agent.Firewall.{
  firewall_rule_actions, firewall_rule_directions, firewall_rule_protocols, is_port, path_at,
  port_errors, cidr_errors, array_errors, is_empty_array, rule_errors,
}

-- A port that can be listened on
abbrev pub IsPort : Json → Type 0
IsPort v = (n : ℕ) × (v ≡ num n) × (1 ≤ n) × (n ≤ 65535)

pub is_port_iff : (v : Json) → (not (is_port v) ≡ false) ↔ IsPort v
is_port_iff null = ground arith
is_port_iff (bool b) = ground arith
is_port_iff (str s) = ground arith
is_port_iff (arr vs) = ground arith
is_port_iff (obj fs) = ground arith
is_port_iff (num n) =
    (λ h. (n, refl, omega (arith, low h), omega (arith, high h)), λ (m, e, l, k). ground arith)
  where
    low : not (is_port (num n)) ≡ false → 1 ≤ n
    low h = ground arith

    high : not (is_port (num n)) ≡ false → n ≤ 65535
    high h = ground arith

port_errors_iff :
    (vs : List Json) (path : String) (i : ℕ) → (port_errors vs path i ≡ []) ↔ All IsPort vs
unfolding port_errors
port_errors_iff [] path i = (λ e. tt, λ h. refl)
port_errors_iff (v ∷ vs) path i =
    both _ _ (compose (failing_iff (not (is_port v)) _) (is_port_iff v))
      (port_errors_iff vs path (suc i))

cidr_errors_iff :
    (vs : List Json) (path : String) (i : ℕ)
    → (cidr_errors vs path i ≡ []) ↔ All (λ v. Filled (some v)) vs
unfolding cidr_errors
cidr_errors_iff [] path i = (λ e. tt, λ h. refl)
cidr_errors_iff (v ∷ vs) path i =
    both _ _ (require_string_iff (some v) (path_at path i)) (cidr_errors_iff vs path (suc i))

-- An array all of whose entries pass
abbrev pub ArrayOf : (Json → Type 0) → Option Json → Type 0
ArrayOf P v = (vs : Items) × (v ≡ some (arr vs)) × All P (items vs)

pub array_errors_iff :
    (Q : List Json → Type 0) (v : Option Json) (path : String) (check : List Json → List String)
    → ((vs : List Json) → (check vs ≡ []) ↔ Q vs)
    → (array_errors v path check ≡ []) ↔ ((vs : Items) × (v ≡ some (arr vs)) × Q (items vs))
array_errors_iff Q none path check h = ground arith
array_errors_iff Q (some null) path check h = ground arith
array_errors_iff Q (some (bool b)) path check h = ground arith
array_errors_iff Q (some (num n)) path check h = ground arith
array_errors_iff Q (some (str s)) path check h = ground arith
array_errors_iff Q (some (obj fs)) path check h = ground arith
array_errors_iff Q (some (arr vs)) path check h = (
  λ e. (vs, refl, (h (items vs)).0 e),
  λ (ws, e, q). (h (items vs)).1 (subst (λ l. Q (items l)) (own ws e) q),
)
  where
    own : (ws : Items) → some (arr vs) ≡ some (arr ws) → ws ≡ vs
    own ws e = cc e

-- A rule, without the order in which it is checked
pub record IsRule (rule : Fields) : Type 0 where
  pub identified : Filled (get "id" rule)
  pub acts : OneOf firewall_rule_actions (get "action" rule)
  pub directed : OneOf firewall_rule_directions (get "direction" rule)
  pub spoken : OneOf firewall_rule_protocols (get "protocol" rule)
  pub on_ports : ArrayOf IsPort (get "ports" rule)
  pub from_ranges : ArrayOf (λ v. Filled (some v)) (get "cidrs" rule)
  pub has_port : (get "protocol" rule ≡ some (str "icmp")) ⊎ ¬ (get "ports" rule ≡ some (arr nil))

is_empty_array_iff : (v : Option Json) → (is_empty_array v ≡ true) ↔ (v ≡ some (arr nil))
is_empty_array_iff none = ground arith
is_empty_array_iff (some null) = ground arith
is_empty_array_iff (some (bool b)) = ground arith
is_empty_array_iff (some (num n)) = ground arith
is_empty_array_iff (some (str s)) = ground arith
is_empty_array_iff (some (obj fs)) = ground arith
is_empty_array_iff (some (arr nil)) = (λ e. refl, λ e. refl)
is_empty_array_iff (some (arr (cons v vs))) = (λ e. absurd (cc e), λ e. absurd (cc e))

has_port_iff :
    (protocol ports : Option Json)
    → (not (is_text protocol "icmp") && is_empty_array ports ≡ false)
      ↔ ((protocol ≡ some (str "icmp")) ⊎ ¬ (ports ≡ some (arr nil)))
has_port_iff protocol ports =
    either_iff (is_text protocol "icmp") (is_empty_array ports) (is_text_iff protocol "icmp")
      (is_empty_array_iff ports)
  where
    either_iff :
        {P Q : Type 0} (a b : Bool)
        → (a ≡ true) ↔ P
        → (b ≡ true) ↔ Q
        → (not a && b ≡ false) ↔ (P ⊎ ¬ Q)
    either_iff true b p q = (λ e. inl (p.0 refl), λ h. refl)
    either_iff false true p q = (
      λ e. absurd (cc e),
      λ h. elim h [ inl x ↦ absurd (cc (p.1 x)) | inr n ↦ absurd (n (q.0 refl)) ],
    )
    either_iff false false p q = (λ e. inr (λ x. absurd (cc (q.1 x))), λ h. refl)

pub rule_errors_iff : (rule : Fields) (path : String) → (rule_errors rule path ≡ []) ↔ IsRule rule
unfolding rule_errors
rule_errors_iff rule path =
    compose
      (both _ _ (require_string_iff (get "id" rule) _) (
        both _ _ (assert_known_iff (get "action" rule) firewall_rule_actions _) (
          both _ _ (assert_known_iff (get "direction" rule) firewall_rule_directions _) (
            both _ _ (assert_known_iff (get "protocol" rule) firewall_rule_protocols _) (
              both _ _
                (array_errors_iff (All IsPort) (get "ports" rule) _ _
                  (λ vs. port_errors_iff vs _ 0))
                (both _ _
                  (array_errors_iff (All (λ v. Filled (some v))) (get "cidrs" rule) _ _
                    (λ vs. cidr_errors_iff vs _ 0))
                  (compose (failing_iff _ _)
                    (has_port_iff (get "protocol" rule) (get "ports" rule)))))))))
      (
        λ (i, (a, (d, (s, (p, (c, h)))))). record {
          identified = i;
          acts = a;
          directed = d;
          spoken = s;
          on_ports = p;
          from_ranges = c;
          has_port = h;
        },
        λ r. (
          r.identified,
          (r.acts, (r.directed, (r.spoken, (r.on_ports, (r.from_ranges, r.has_port))))),
        ),
      )
