-- ===== src/Profiles/Ports/Laws.antt =====
-- When the check of ports refuses a request.
use full_revna_like_projekt.Base.{
  ◌≡◌, ◌↔◌, refl, inl, inr, ◌∙◌, sym, subst, true, false, List, [], ◌∷◌, ◌++◌, map, ◌==◌, eq_iff,
  Among, filter, any, flat_map, filter-Among, Among-filter, filter_none, filter_empty, All-of_Among,
}
use full_revna_like_projekt.Table.{values}
use full_revna_like_projekt.Types.Profiles.{
  PortReservation, PortCheckRequest, ProtocolProfileRecord,
}
use full_revna_like_projekt.Client.{Client}
use full_revna_like_projekt.Profiles.Readiness.{is_empty}
use full_revna_like_projekt.Profiles.Ports.{
  clashes, conflict, profile_conflicts, check_port_conflicts,
}

module _ {A B : Type 0} (f : A → List B) where
  flat_map_none :
      (xs : List A) → is_empty (flat_map f xs) ≡ true → (a : A) → Among a xs → is_empty (f a) ≡ true
  flat_map_none [] e a m = absurd m
  flat_map_none (x ∷ xs) e a (inl same) =
      subst (λ y. is_empty (f y) ≡ true) (sym same) (left (f x) (flat_map f xs) e)
    where
      left : (ys zs : List B) → is_empty (ys ++ zs) ≡ true → is_empty ys ≡ true
      left [] zs h = refl
      left (y ∷ ys) zs h = cc
  flat_map_none (x ∷ xs) e a (inr m) = flat_map_none xs (right (f x) (flat_map f xs) e) a m
    where
      right : (ys zs : List B) → is_empty (ys ++ zs) ≡ true → is_empty zs ≡ true
      right [] zs h = h
      right (y ∷ ys) zs h = cc

  none_flat_map :
      (xs : List A)
      → ((a : A) → Among a xs → is_empty (f a) ≡ true)
      → is_empty (flat_map f xs) ≡ true
  none_flat_map [] h = refl
  none_flat_map (x ∷ xs) h =
      both (f x) (flat_map f xs) (h x (inl refl)) (none_flat_map xs (λ a m. h a (inr m)))
    where
      both : (ys zs : List B) → is_empty ys ≡ true → is_empty zs ≡ true → is_empty (ys ++ zs) ≡ true
      both [] zs e h = h
      both (y ∷ ys) zs e h = cc

is_empty_nil {ℓ} : {A : Type ℓ} (xs : List A) → is_empty xs ≡ true → xs ≡ []
is_empty_nil [] e = refl
is_empty_nil (x ∷ xs) e = cc

is_empty-map : {A B : Type 0} (f : A → B) (xs : List A) → is_empty (map f xs) ≡ is_empty xs
is_empty-map f [] = refl
is_empty-map f (x ∷ xs) = refl

-- A profile gives no conflict exactly if it has no reservation that takes a port asked for.
profile_conflicts_iff :
    (reservations : List PortReservation) (p : ProtocolProfileRecord)
    → (is_empty (profile_conflicts reservations p) ≡ true)
      ↔ ((r : PortReservation) → Among r reservations → any (clashes r) p.port_reservations ≡ false)
unfolding profile_conflicts
profile_conflicts_iff reservations p =
    let taken = λ (r : PortReservation). any (clashes r) p.port_reservations in
    (
      λ e r m.
          filter_none taken reservations r
            (is_empty_nil _ (sym (is_empty-map (conflict p) (filter taken reservations)) ∙ e)) m,
      λ h.
          is_empty-map (conflict p) (filter taken reservations)
          ∙ subst (λ l. is_empty l ≡ true)
              (sym (filter_empty taken reservations (All-of_Among _ reservations h))) refl,
    )

-- The check allows a request exactly if no profile of that node has a reservation with the port
-- and the protocol of one that is asked for.
pub port_check_iff :
    (request : PortCheckRequest) (c : Client)
    → ((check_port_conflicts request c).allowed ≡ true) ↔ (
        (p : ProtocolProfileRecord)
        → Among p (values c.profiles)
        → p.node_id ≡ request.node_id
        → (r : PortReservation) → Among r request.reservations
        → any (clashes r) p.port_reservations ≡ false)
unfolding check_port_conflicts
port_check_iff request c =
    let on_node = λ (p : ProtocolProfileRecord). p.node_id == request.node_id in
    let found = profile_conflicts request.reservations in
    (
      λ e p m same. (profile_conflicts_iff request.reservations p).0 (
          flat_map_none found (filter on_node (values c.profiles)) e p
            (Among-filter on_node (values c.profiles) p m ((eq_iff _ _).1 same))),
      λ h. none_flat_map found (filter on_node (values c.profiles)) λ p m.
          let (listed, here) = filter-Among on_node (values c.profiles) p m in
          (profile_conflicts_iff request.reservations p).1 (h p listed ((eq_iff _ _).0 here)),
    )
