-- ===== src/Registry/Ports.antt =====
-- Reservations of ports and their conflicts (packages/protocol-registry/src/port-reservations.js).
pub mod Laws
use full_revna_like_projekt.Base.{
  ℕ, String, Bool, true, false, not, ◌&&◌, ◌||◌, Option, none, some, List, [], ◌∷◌, ◌++◌, ◌==◌,
  ◌==ₙ◌, ltb, leb, if◌then◌else◌, or_else, flat_map, map,
}
use full_revna_like_projekt.Base.Text.{to_lower_case}
use full_revna_like_projekt.Base.Json.{Json, num}
use full_revna_like_projekt.Base.Reply.{Reply, ok, throws, and_then}

-- A value such as `ownerId`: `undefined`, `null`, or a text
pub data OwnerId : Type 0 where
  undefined_id : OwnerId
  null_id : OwnerId
  id_of : String → OwnerId

-- `left ?? right`
abbrev pub nullish_or : OwnerId → OwnerId → OwnerId
nullish_or (id_of i) right = id_of i
nullish_or undefined_id right = right
nullish_or null_id right = right

-- The input of a reservation
pub record ReservationInput : Type 0 where
  pub owner_id : OwnerId
  pub address : Option String
  pub port : Option Json
  pub protocol : Option String
  pub purpose : Option String
  pub exclusive : Option Bool

pub record Reservation : Type 0 where
  pub owner_id : OwnerId
  pub address : String
  pub port : ℕ
  pub protocol : String
  pub purpose : String
  pub exclusive : Bool

pub record BindConflict : Type 0 where
  pub kind : String
  pub port : ℕ
  pub protocol : String
  pub owner_ids : List OwnerId
  pub message : String

-- What is passed to `detectExclusiveBindPortConflicts`: an object with reservations, or with a bind,
-- or with the fields of a reservation of its own.
pub record Item : Type 0 where
  pub port_reservations : Option (List ReservationInput)
  pub bind : Option ReservationInput
  pub outbound_id : OwnerId
  pub id : OwnerId
  pub own : ReservationInput

-- `assertPort(port)`, and otherwise the port
unfoldable pub assert_port : Option Json → Reply ℕ
assert_port (some (num n)) =
    if leb 1 n && leb n 65535 then ok n else throws "port must be an integer between 1 and 65535"
assert_port _ = throws "port must be an integer between 1 and 65535"

abbrev pub normalize_address : Option String → String
normalize_address address = or_else address "0.0.0.0"

abbrev pub normalize_protocol : Option String → String
normalize_protocol protocol = to_lower_case (or_else protocol "tcp")

unfoldable pub addresses_overlap : String → String → Bool
addresses_overlap left right =
    (left == right)
    || (left == "0.0.0.0")
    || (right == "0.0.0.0")
    || (left == "::")
    || (right == "::")
    || (left == "*")
    || (right == "*")

unfoldable pub reservations_overlap : Reservation → Reservation → Bool
unfolding addresses_overlap
reservations_overlap left right =
    (left.port ==ₙ right.port)
    && (left.protocol == right.protocol)
    && addresses_overlap left.address right.address

-- The condition of the inner loop
unfoldable pub bind_clash : Reservation → Reservation → Bool
unfolding reservations_overlap
bind_clash r other = reservations_overlap r other && (r.exclusive || other.exclusive)

-- A reservation for an owner, and for a purpose where its input names none
abbrev pub reserve : String → OwnerId → ReservationInput → ℕ → Reservation
reserve purpose owner_id input port = record {
  owner_id = owner_id;
  address = normalize_address input.address;
  port = port;
  protocol = normalize_protocol input.protocol;
  purpose = or_else input.purpose purpose;
  exclusive = or_else input.exclusive true;
}

unfoldable pub create_bind_reservation : ReservationInput → Reply Reservation
unfolding assert_port
create_bind_reservation input =
    and_then (assert_port input.port)
      (λ port. ok (reserve "xray-listener" (nullish_or input.owner_id null_id) input port))

-- `items.map(create)`, where a call may throw
unfoldable pub map_reply : {A B : Type 0} → (A → Reply B) → List A → Reply (List B)
map_reply f [] = ok []
map_reply f (x ∷ xs) = and_then (f x) (λ y. and_then (map_reply f xs) (λ ys. ok (y ∷ ys)))

abbrev pub expand_reservation : Item → List ReservationInput
expand_reservation item = expanded item.port_reservations item.bind
  where
    expanded : Option (List ReservationInput) → Option ReservationInput → List ReservationInput
    expanded (some reservations) bind = reservations
    expanded none (some bind) =
        record bind { owner_id = nullish_or item.outbound_id item.id; purpose = none } ∷ []
    expanded none none = item.own ∷ []

abbrev pub expand_reservations : List Item → List ReservationInput
expand_reservations items = flat_map expand_reservation items

-- The inner loop: the conflicts of a reservation with those after it
abbrev pub clashes_with :
    (Reservation → Reservation → BindConflict) → Reservation → List Reservation → List BindConflict
clashes_with conflict r [] = []
clashes_with conflict r (other ∷ rs) =
    if bind_clash r other
    then conflict r other ∷ clashes_with conflict r rs
    else clashes_with conflict r rs

abbrev pub exclusive_conflict : Reservation → Reservation → BindConflict
exclusive_conflict r other = record {
  kind = "exclusive_bind_port";
  port = r.port;
  protocol = r.protocol;
  owner_ids = r.owner_id ∷ other.owner_id ∷ [];
  message = "Two exclusive bind reservations overlap on address, port, and protocol.";
}

unfoldable pub conflicts_of : List Reservation → List BindConflict
unfolding bind_clash
conflicts_of [] = []
conflicts_of (r ∷ rs) = clashes_with exclusive_conflict r rs ++ conflicts_of rs

unfoldable pub detect_exclusive_bind_port_conflicts : List Item → Reply (List BindConflict)
unfolding create_bind_reservation map_reply conflicts_of
detect_exclusive_bind_port_conflicts items =
    and_then (map_reply create_bind_reservation (expand_reservations items))
      (λ rs. ok (conflicts_of rs))
