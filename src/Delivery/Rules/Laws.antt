-- ===== src/Delivery/Rules/Laws.antt =====
-- Which rule answers a request, and which rules a reordering numbers.
use full_revna_like_projekt.Base.{
  ℕ, String, ◌≡◌, refl, ◌∙◌, sym, ap, subst, inl, inr, ◌⊎◌, ◌↔◌, Bool, true, false, none, some, not,
  List, [], ◌∷◌, ◌++◌, map, if◌then◌else◌, Among, All, Bool-cases, Option-cases, filter, includes,
}
use full_revna_like_projekt.Base.Distinct.{Distinct}
use mathlib.Core.List.{map-append}
use full_revna_like_projekt.Table.{first, values, find, find_all}
use full_revna_like_projekt.Table.Map.{ids}
use full_revna_like_projekt.Table.Once.{Once}
use full_revna_like_projekt.Table.Reorder.{reorder-permutes}
use full_revna_like_projekt.Table.Numbering.{reorder-values, set_from}
use full_revna_like_projekt.Types.Delivery.{ResponseRuleRecord, ResponseRuleTestRequest}
use full_revna_like_projekt.Client.{Client, response_rule_keyed}
use full_revna_like_projekt.Delivery.Rules.{answers, test_response_rule, reorder_response_rules}

-- The first reference that passes splits the list.
first-splits :
    (p : ℕ → Bool) (rs : List ℕ) (r : ℕ)
    → first p rs ≡ some r
    → (before : List ℕ) × (after : List ℕ) × (rs ≡ before ++ r ∷ after)
      × All (λ q. p q ≡ false) before
      × (p r ≡ true)
unfolding first
first-splits p [] r e = cc
first-splits p (q ∷ rs) r e = elim (Bool-cases (p q)) [
  | inl passes ↦
      let same = the (sym (ap (λ b. if b then some q else first p rs) passes) ∙ e) in
      ([], rs, (λ i. same i ∷ rs), tt, subst (λ x. p x ≡ true) same passes)
  | inr fails ↦
      let (before, after, split, none_passes, passes) =
        first-splits p rs r (sym (ap (λ b. if b then some q else first p rs) fails) ∙ e) in
      (q ∷ before, after, (λ i. q ∷ split i), (fails, none_passes), passes)
]
  where
    the : some q ≡ some r → q ≡ r
    the h = cc

first-none : (p : ℕ → Bool) (rs : List ℕ) → first p rs ≡ none → All (λ q. p q ≡ false) rs
unfolding first
first-none p [] e = tt
first-none p (q ∷ rs) e = elim (Bool-cases (p q)) [
  | inl passes ↦ absurd (clash (sym (ap (λ b. if b then some q else first p rs) passes) ∙ e))
  | inr fails ↦
      (fails, first-none p rs (sym (ap (λ b. if b then some q else first p rs) fails) ∙ e))
]
  where
    clash : some q ≡ none → ⊥
    clash h = cc

All-values :
    (f : ℕ → ResponseRuleRecord) (P : ResponseRuleRecord → Type 0) (rs : List ℕ)
    → All (λ q. P (f q)) rs
    → All P (map f rs)
All-values f P [] a = tt
All-values f P (r ∷ rs) a = (a.0, All-values f P rs a.1)

-- A test of the rules answers with the first rule that is enabled and is for the status asked
-- about: its body, headers and status code. It answers `matched = false` with no rule exactly where
-- there is none such.
pub test_response_rule_first :
    (request : ResponseRuleTestRequest) (c : Client)
    → (let response = test_response_rule request c in
        ((response.matched ≡ false)
          × (response.rule ≡ none)
          × (response.status_code ≡ 200)
          × All
              (λ rule. answers request.subscription_status rule ≡ false)
              (values c.response_rules))
        ⊎ ((rule : ResponseRuleRecord) × (before : List ResponseRuleRecord) × (after : List
              ResponseRuleRecord)
            × (values c.response_rules ≡ before ++ rule ∷ after)
            × All (λ other. answers request.subscription_status other ≡ false) before
            × (answers request.subscription_status rule ≡ true)
            × (response ≡ record {
              body = rule.body;
              headers = rule.headers;
              matched = true;
              rule = some rule;
              status_code = rule.status_code;
            })))
unfolding test_response_rule find values
test_response_rule_first request c =
    let s = c.response_rules.store in
    let passes : ℕ → Bool = λ r. answers request.subscription_status (s r) in
    elim (Option-cases (first passes c.response_rules.refs)) [
      | inl missing ↦
          rw (missing, test_response_rule)
            (inl (
              refl,
              refl,
              refl,
              All-values s _ c.response_rules.refs
                  (first-none passes c.response_rules.refs missing),
            ))
      | inr (r, found) ↦
          let (before, after, split, earlier, own) =
            first-splits passes c.response_rules.refs r found in
          rw (found, test_response_rule)
            (inr (
              s r,
              map s before,
              map s after,
              ap (map s) split ∙ map-append s before (r ∷ after),
              All-values s _ before earlier,
              own,
              refl,
            ))
    ]

-- A reordering of the rules by different identifiers, in a client whose rules have different
-- identifiers and are there once, permutes the rules. Those that are named come first, in the order
-- of the request and with their places, from zero, as their `order`; the others follow, unchanged.
pub reorder_response_rules_orders :
    (is : List String) (c : Client)
    → Distinct is
    → Distinct (ids c.response_rules)
    → Once c.response_rules.refs
    → (let t = (reorder_response_rules is c).0.response_rules in
        (values t
          ≡ set_from
              (λ n a. record a { order = some n })
              0
              (map c.response_rules.store (find_all is c.response_rules))
            ++ filter (λ a. not (includes a.id is)) (values c.response_rules))
        × Once t.refs
        × ((r : ℕ) → Among r t.refs ↔ Among r c.response_rules.refs))
unfolding reorder_response_rules
reorder_response_rules_orders is c d own o =
    let (once, same) =
      reorder-permutes (λ n a. record a { order = some n }) is c.response_rules d own o in
    (reorder-values (λ n a. record a { order = some n }) is c.response_rules d, once, same)
