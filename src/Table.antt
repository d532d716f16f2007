-- ===== src/Table.antt =====
-- An array of records as the client keeps it (apps/web/src/shared/api/developmentClient.ts): the
-- array holds references, and the records they point to are changed in place. An array may hold
-- one reference twice, and two records may carry the same identifier.
pub mod Laws
pub mod Map
pub mod Once
pub mod Upkeep
pub mod Bulk
pub mod Reorder
pub mod Numbering
use full_revna_like_projekt.Base.{
  ℕ, zero, suc, ◌<◌, String, ◌≡◌, Bool, not, Option, none, some, List, [], ◌∷◌, ◌++◌, map, ◌==◌,
  ◌==ₙ◌, if◌then◌else◌, filter, length, includes,
}

pub record Table {ℓ} (A : Type ℓ) : Type ℓ where
  pub refs : List ℕ
  -- The record behind a reference.
  pub store : ℕ → A
  -- The first reference that is not in use.
  pub next : ℕ

-- Records with a field `id`.
pub record Keyed {ℓ} (A : Type ℓ) : Type ℓ where
  pub id : A → String

-- `f.store r` after the record `a` has been written at `r`.
abbrev pub write {ℓ} : {A : Type ℓ} → ℕ → A → (ℕ → A) → ℕ → A
write r a store q = if q ==ₙ r then a else store q

-- The first reference of a list whose record passes the test.
unfoldable pub first : (ℕ → Bool) → List ℕ → Option ℕ
first p [] = none
first p (r ∷ rs) = if p r then some r else first p rs

-- `rs` without its first reference whose record passes the test.
unfoldable pub drop_first : (ℕ → Bool) → List ℕ → List ℕ
drop_first p [] = []
drop_first p (r ∷ rs) = if p r then rs else r ∷ drop_first p rs

-- A new array over the given records; `unused` stands behind the references not in use.
abbrev nth_or {ℓ} : {A : Type ℓ} → A → List A → ℕ → A
nth_or unused [] n = unused
nth_or unused (a ∷ rest) zero = a
nth_or unused (a ∷ rest) (suc n) = nth_or unused rest n

abbrev count_from : ℕ → ℕ → List ℕ
count_from n zero = []
count_from n (suc k) = n ∷ count_from (suc n) k

abbrev pub table_of {ℓ} : {A : Type ℓ} → A → List A → Table A
table_of unused records = record {
  refs = count_from 0 (length records);
  store = nth_or unused records;
  next = length records;
}

module _ {ℓ} {A : Type ℓ} where
  -- The records of the array, in its order.
  unfoldable pub values : Table A → List A
  values t = map t.store t.refs

  unfoldable pub size : Table A → ℕ
  size t = length t.refs

  -- `array.find(p)`
  unfoldable pub find : (A → Bool) → Table A → Option ℕ
  unfolding first
  find p t = first (λ r. p (t.store r)) t.refs

  -- `array.filter(p)`, as references
  unfoldable pub select : (A → Bool) → Table A → List ℕ
  select p t = filter (λ r. p (t.store r)) t.refs

  -- Assignments to the fields of the record behind a reference.
  unfoldable pub assign : ℕ → (A → A) → Table A → Table A
  assign r f t = record t { store = write r (f (t.store r)) t.store }

  -- `for (const record of selected) { … }`
  unfoldable pub assign_all : List ℕ → (A → A) → Table A → Table A
  unfolding assign
  assign_all [] f t = t
  assign_all (r ∷ rs) f t = assign_all rs f (assign r f t)

  -- `ordered.forEach((record, n) => { … })` from the place `n` on
  unfoldable pub number : (ℕ → A → A) → ℕ → List ℕ → Table A → Table A
  unfolding assign
  number set n [] t = t
  number set n (r ∷ rs) t = number set (suc n) rs (assign r (set n) t)

  -- `array.unshift({ … })` with a new record
  unfoldable pub unshift : A → Table A → Table A
  unshift a t = record { refs = t.next ∷ t.refs; store = write t.next a t.store; next = suc t.next }

  -- `array.push({ … })` with a new record
  unfoldable pub push : A → Table A → Table A
  push a t = record {
    refs = t.refs ++ t.next ∷ [];
    store = write t.next a t.store;
    next = suc t.next;
  }

  -- `const index = array.findIndex(p); if (index >= 0) array.splice(index, 1)`
  unfoldable pub remove : (A → Bool) → Table A → Table A
  unfolding drop_first
  remove p t = record t { refs = drop_first (λ r. p (t.store r)) t.refs }

module _ {ℓ} {A : Type ℓ} ⦃k : Keyed A⦄ where
  abbrev pub has_id : String → A → Bool
  has_id i a = k.id a == i

  unfoldable pub find_id : String → Table A → Option ℕ
  unfolding find
  find_id i = find (has_id i)

  unfoldable pub remove_id : String → Table A → Table A
  unfolding remove
  remove_id i = remove (has_id i)

  -- `for (const id of ids) { … splice … }`
  unfoldable pub remove_ids : List String → Table A → Table A
  unfolding remove_id
  remove_ids [] t = t
  remove_ids (i ∷ is) t = remove_ids is (remove_id i t)

  -- `ids.map((id) => array.find(…)).filter(Boolean)`
  unfoldable pub find_all : List String → Table A → List ℕ
  unfolding find_id
  find_all [] t = []
  find_all (i ∷ is) t =
      let rest = find_all is t in elim (find_id i t) [ none ↦ rest | some r ↦ r ∷ rest ]

  -- `array.splice(0, array.length, ...ordered, ...remainder)`, the records with the given
  -- identifiers before the others.
  unfoldable pub bring_forward : List String → Table A → Table A
  unfolding find_all select
  bring_forward ids t = record t {
    refs = find_all ids t ++ select (λ a. not (includes (k.id a) ids)) t;
  }

  -- The whole of `reorder…`: `set n` is the assignment of the place `n`.
  unfoldable pub reorder : (ℕ → A → A) → List String → Table A → Table A
  unfolding bring_forward number
  reorder set ids t = number set 0 (find_all ids t) (bring_forward ids t)
