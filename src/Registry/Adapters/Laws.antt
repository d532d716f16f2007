-- ===== src/Registry/Adapters/Laws.antt =====
-- What a registry that has been created holds (packages/protocol-registry/src/adapter-interface.js).
use full_revna_like_projekt.Base.{
  String, ◌≡◌, refl, sym, subst, ap, ◌∙◌, inl, inr, ◌↔◌, Bool, true, false, some, List, [], ◌∷◌,
  ◌++◌, ◌==◌, eq_iff, Among, Bool-cases, if◌then◌else◌, map, map-append,
}
use mathlib.Core.List.{append_assoc, append-nil}
use full_revna_like_projekt.Base.Distinct.{Distinct, Distinct-snoc, Distinct-apart}
use full_revna_like_projekt.Base.Reply.{Reply, ok, throws, and_then-ok}
use full_revna_like_projekt.Registry.Ports.{map_reply}
use full_revna_like_projekt.Registry.Adapters.{
  AdapterInput, Adapter, define_protocol_adapter, get_adapter, has_adapter, require_adapter,
  register, create_protocol_registry,
}

admitted :
    {A : Type 0} (b : Bool) (m : String) (r : Reply A) (out : A)
    → (if b then throws m else r) ≡ ok out
    → (b ≡ false) × (r ≡ ok out)
admitted true m r out h = absurd (cc h)
admitted false m r out h = (refl, h)

module _ {F : Type 0} where
  abbrev pub protocols : List (Adapter F) → List String
  protocols registry = map (λ a. a.protocol) registry

  has_adapter_iff :
      (p : String) (registry : List (Adapter F))
      → (has_adapter p registry ≡ true) ↔ Among p (protocols registry)
  unfolding has_adapter get_adapter
  has_adapter_iff p [] = (λ e. absurd (cc e), λ h. absurd h)
  has_adapter_iff p (a ∷ registry) = elim (Bool-cases (a.protocol == p)) [
    | inl e ↦ rw e (λ h. inl (sym ((eq_iff a.protocol p).0 e)), λ h. refl)
    | inr e ↦ rw e (
      λ h. inr ((has_adapter_iff p registry).0 h),
      λ h. elim h [
        | inl same ↦ absurd (cc (e, (eq_iff a.protocol p).1 (sym same)))
        | inr m ↦ (has_adapter_iff p registry).1 m
      ],
    )
  ]

  -- An adapter is found by its protocol where no other has it.
  get-Among :
      (registry : List (Adapter F)) (a : Adapter F)
      → Distinct (protocols registry)
      → Among a registry
      → get_adapter a.protocol registry ≡ some a
  unfolding get_adapter
  get-Among [] a d m = absurd m
  get-Among (b ∷ registry) a (new, d) (inl e) =
      rw ((eq_iff b.protocol a.protocol).1 (ap (λ b. b.protocol) (sym e))) (ap some (sym e))
  get-Among (b ∷ registry) a (new, d) (inr m) = elim (Bool-cases (b.protocol == a.protocol)) [
    | inr e ↦ rw e (get-Among registry a d m)
    | inl e ↦ absurd (
        new (
          subst (λ p. Among p (protocols registry)) (sym ((eq_iff b.protocol a.protocol).0 e))
            (placed registry m)))
  ]
    where
      placed : (rs : List (Adapter F)) → Among a rs → Among a.protocol (protocols rs)
      placed [] m = m
      placed (b ∷ rs) (inl e) = inl (λ i. (e i).protocol)
      placed (b ∷ rs) (inr m) = inr (placed rs m)

  grown :
      (registry : List (Adapter F)) (a : Adapter F)
      → Distinct (protocols registry)
      → has_adapter a.protocol registry ≡ false
      → Distinct (protocols (registry ++ a ∷ []))
  grown registry a d new = subst Distinct (sym (map-append (λ b. b.protocol) registry (a ∷ []))) (
      Distinct-snoc (protocols registry) a.protocol d
        (λ m. absurd (cc (new, (has_adapter_iff a.protocol registry).1 m))))

  register-Distinct :
      (registry : List (Adapter F)) (xs : List (AdapterInput F)) (out : List (Adapter F))
      → Distinct (protocols registry)
      → register registry xs ≡ ok out
      → Distinct (protocols out)
  unfolding register
  register-Distinct registry [] out d h = subst (λ r. Distinct (protocols r)) (inner h) d
    where
      inner : ok registry ≡ ok out → registry ≡ out
      inner e = cc e
  register-Distinct registry (x ∷ xs) out d h =
      let (a, made, rest) = and_then-ok (define_protocol_adapter x) _ out h in
      let (new, more) = admitted (has_adapter a.protocol registry) _ _ out rest in
      register-Distinct (registry ++ a ∷ []) xs out (grown registry a d new) more

  -- What is registered is what the inputs define, after what was there.
  register-defined :
      (registry : List (Adapter F)) (xs : List (AdapterInput F)) (out : List (Adapter F))
      → register registry xs ≡ ok out
      → (ys : List (Adapter F)) × (map_reply define_protocol_adapter xs ≡ ok ys)
        × (out ≡ registry ++ ys)
  unfolding register map_reply
  register-defined registry [] out h = ([], refl, sym (append-nil registry ∙ inner h))
    where
      inner : {r q : List (Adapter F)} → ok r ≡ ok q → r ≡ q
      inner e = cc e
  register-defined registry (x ∷ xs) out h =
      let (a, made, rest) = and_then-ok (define_protocol_adapter x) _ out h in
      let (new, more) = admitted (has_adapter a.protocol registry) _ _ out rest in
      let (ys, all_made, placed) = register-defined (registry ++ a ∷ []) xs out more in
      (a ∷ ys, rw (made, all_made) refl, placed ∙ append_assoc registry (a ∷ []) ys)

  fresh :
      (registry : List (Adapter F)) (a : Adapter F) (zs : List (Adapter F))
      → Distinct (protocols (registry ++ a ∷ zs))
      → has_adapter a.protocol registry ≡ false
  fresh registry a zs d = elim (Bool-cases (has_adapter a.protocol registry)) [
    | inr e ↦ e
    | inl e ↦ absurd (
        Distinct-apart (protocols registry) a.protocol (protocols zs)
          (subst Distinct (map-append (λ b. b.protocol) registry (a ∷ zs)) d)
          ((has_adapter_iff a.protocol registry).0 e))
  ]

  -- Adapters that can be defined and have protocols of their own are all registered.
  register_all :
      (registry : List (Adapter F)) (xs : List (AdapterInput F)) (ys : List (Adapter F))
      → map_reply define_protocol_adapter xs ≡ ok ys
      → Distinct (protocols (registry ++ ys))
      → register registry xs ≡ ok (registry ++ ys)
  unfolding register map_reply
  register_all registry [] ys h d = rw (← (none_made h)) (ap ok (sym (append-nil registry)))
    where
      none_made : {zs : List (Adapter F)} → ok [] ≡ ok zs → [] ≡ zs
      none_made e = cc e
  register_all registry (x ∷ xs) ys h d =
      let (a, made, more) = and_then-ok (define_protocol_adapter x) _ ys h in
      let (zs, all_made, same) = and_then-ok (map_reply define_protocol_adapter xs) _ ys more in
      let split : a ∷ zs ≡ ys = cc same in
      let parted : Distinct (protocols (registry ++ a ∷ zs)) =
        subst (λ l. Distinct (protocols (registry ++ l))) (sym split) d in
      let moved : (registry ++ a ∷ []) ++ zs ≡ registry ++ a ∷ zs =
        append_assoc registry (a ∷ []) zs in
      let rest =
        register_all (registry ++ a ∷ []) xs zs all_made
          (subst (λ l. Distinct (protocols l)) (sym moved) parted) in
      rw (made, fresh registry a zs parted) (rest ∙ ap ok (moved ∙ ap (λ l. registry ++ l) split))

  -- What a created registry promises: its adapters are those that the inputs define, in their order,
  -- and each is the one that its protocol gives.
  pub record IsRegistry (xs : List (AdapterInput F)) (registry : List (Adapter F)) : Type 0 where
    pub defined : map_reply define_protocol_adapter xs ≡ ok registry
    pub own_protocols : Distinct (protocols registry)
    pub found :
        (a : Adapter F)
        → Among a registry
        → (get_adapter a.protocol registry ≡ some a) × (require_adapter a.protocol registry ≡ ok a)

  -- A registry is created exactly where each input defines an adapter and no two have the same
  -- protocol; it then lists the adapters in the order of the inputs, and looking up the protocol of
  -- one of them gives that adapter.
  pub create_protocol_registry_iff :
      (xs : List (AdapterInput F)) (registry : List (Adapter F))
      → (create_protocol_registry xs ≡ ok registry) ↔ IsRegistry xs registry
  unfolding create_protocol_registry require_adapter
  create_protocol_registry_iff xs registry = (
    λ h.
        let (ys, made, same) = register-defined [] xs registry h in
        let d = register-Distinct [] xs registry tt h in
        record {
          defined = subst (λ l. map_reply define_protocol_adapter xs ≡ ok l) (sym same) made;
          own_protocols = d;
          found = λ a m. (get-Among registry a d m, rw (get-Among registry a d m) refl);
        },
    λ r. register_all [] xs registry r.defined r.own_protocols,
  )
