-- ===== src/Agent/Secrets/Laws.antt =====
-- Which values the search for secrets lets through (apps/node-agent/src/outbound-model.js).
use full_revna_like_projekt.Base.{
  ℕ, suc, String, ◌≡◌, refl, inl, inr, ◌↔◌, Bool, true, false, not, ◌&&◌, ◌||◌, List, [], ◌∷◌,
  arith, if◌then◌else◌, any, append-empty, Bool-cases,
}
use full_revna_like_projekt.Base.Json.{
  Json, null, bool, num, str, arr, obj, Items, nil, cons, Fields, end, field,
}
use full_revna_like_projekt.Base.Reply.{ok}
use full_revna_like_projekt.Agent.Secrets.{
  forbidden_inline_secret_keys, same_name, is_allowed_runtime_credential_key, member_path,
  item_path, key_violations, find_forbidden_keys, find_in_items, find_in_fields, none_found,
  assert_no_inline_secrets,
}

-- A field's name is that of a secret.
abbrev pub is_secret_name : String → Bool
is_secret_name key = any (same_name key) forbidden_inline_secret_keys

-- Somewhere in a value stands a field with the name of a secret, at a path where it is not allowed.
mutual
  pub data Leak (allow : Bool) : String → Json → Type 0 where
    in_array : {path : String} {vs : Items} → LeakItem allow path 0 vs → Leak allow path (arr vs)
    in_object : {path : String} {fs : Fields} → LeakField allow path fs → Leak allow path (obj fs)

  pub data LeakItem (allow : Bool) : String → ℕ → Items → Type 0 where
    this :
        {path : String} {i : ℕ} {v : Json} {vs : Items}
        → Leak allow (item_path path i) v
        → LeakItem allow path i (cons v vs)
    later :
        {path : String} {i : ℕ} {v : Json} {vs : Items}
        → LeakItem allow path (suc i) vs
        → LeakItem allow path i (cons v vs)

  pub data LeakField (allow : Bool) : String → Fields → Type 0 where
    named :
        {path key : String} {v : Json} {fs : Fields}
        → is_secret_name key ≡ true
        → is_allowed_runtime_credential_key allow path key ≡ false
        → LeakField allow path (field key v fs)
    within :
        {path key : String} {v : Json} {fs : Fields}
        → Leak allow (member_path path key) v
        → LeakField allow path (field key v fs)
    after :
        {path key : String} {v : Json} {fs : Fields}
        → LeakField allow path fs
        → LeakField allow path (field key v fs)

pushed_iff :
    (a b more : Bool) (path : String) (rest : List String)
    → (rest ≡ []) ↔ (more && b ≡ false)
    → ((if a && b then path ∷ rest else rest) ≡ []) ↔ ((a || more) && b ≡ false)
pushed_iff true true more path rest h = ground arith
pushed_iff true false more path rest h = ground arith
pushed_iff false b more path rest h = h

key_violations_iff :
    (allow : Bool) (path key : String) (names : List String)
    → (key_violations allow path key names ≡ []) ↔ (
        any (same_name key) names && not (is_allowed_runtime_credential_key allow path key) ≡ false)
unfolding key_violations
key_violations_iff allow path key [] = (λ e. refl, λ e. refl)
key_violations_iff allow path key (f ∷ fs) =
    pushed_iff (same_name key f) (not (is_allowed_runtime_credential_key allow path key))
      (any (same_name key) fs) (member_path path key) (key_violations allow path key fs)
      (key_violations_iff allow path key fs)

mutual
  unfolding find_forbidden_keys

  leaks_found :
      (allow : Bool) (path : String) (v : Json)
      → Leak allow path v
      → ¬ (find_forbidden_keys allow v path ≡ [])
  leaks_found allow path null l e = elim l [ ]
  leaks_found allow path (bool b) l e = elim l [ ]
  leaks_found allow path (num n) l e = elim l [ ]
  leaks_found allow path (str t) l e = elim l [ ]
  leaks_found allow path (arr vs) (in_array l) e = item_leaks_found allow path 0 vs l e
  leaks_found allow path (obj fs) (in_object l) e = field_leaks_found allow path fs l e

  item_leaks_found :
      (allow : Bool) (path : String) (i : ℕ) (vs : Items)
      → LeakItem allow path i vs
      → ¬ (find_in_items allow vs path i ≡ [])
  item_leaks_found allow path i nil l e = elim l [ ]
  item_leaks_found allow path i (cons v vs) (this l) e =
      leaks_found allow (item_path path i) v l
        ((append-empty (find_forbidden_keys allow v (item_path path i)) _).0 e).0
  item_leaks_found allow path i (cons v vs) (later l) e =
      item_leaks_found allow path (suc i) vs l
        ((append-empty (find_forbidden_keys allow v (item_path path i)) _).0 e).1

  field_leaks_found :
      (allow : Bool) (path : String) (fs : Fields)
      → LeakField allow path fs
      → ¬ (find_in_fields allow fs path ≡ [])
  field_leaks_found allow path end l e = elim l [ ]
  field_leaks_found allow path (field key v fs) (named s a) e = absurd (
      cc (
        s,
        a,
        (key_violations_iff allow path key forbidden_inline_secret_keys).0
            ((append-empty (key_violations allow path key forbidden_inline_secret_keys) _).0 e).0,
      ))
  field_leaks_found allow path (field key v fs) (within l) e =
      leaks_found allow (member_path path key) v l
        ((append-empty (find_forbidden_keys allow v (member_path path key)) _).0
          ((append-empty (key_violations allow path key forbidden_inline_secret_keys) _).0 e).1).0
  field_leaks_found allow path (field key v fs) (after l) e =
      field_leaks_found allow path fs l
        ((append-empty (find_forbidden_keys allow v (member_path path key)) _).0
          ((append-empty (key_violations allow path key forbidden_inline_secret_keys) _).0 e).1).1

-- The name of a field gives no cause.
name_clean :
    (allow : Bool) (path key : String) (v : Json) (fs : Fields)
    → ¬ LeakField allow path (field key v fs)
    → key_violations allow path key forbidden_inline_secret_keys ≡ []
name_clean allow path key v fs h =
    (key_violations_iff allow path key forbidden_inline_secret_keys).1
      (elim (Bool-cases (is_secret_name key)) [
        | inr e ↦ rw e refl
        | inl e ↦ elim (Bool-cases (is_allowed_runtime_credential_key allow path key)) [
          | inl a ↦ rw (e, a) refl
          | inr a ↦ absurd (h (named e a))
        ]
      ])

mutual
  unfolding find_forbidden_keys

  clean_passes :
      (allow : Bool) (path : String) (v : Json)
      → ¬ Leak allow path v
      → find_forbidden_keys allow v path ≡ []
  clean_passes allow path null h = refl
  clean_passes allow path (bool b) h = refl
  clean_passes allow path (num n) h = refl
  clean_passes allow path (str t) h = refl
  clean_passes allow path (arr vs) h = items_pass allow path 0 vs (λ l. h (in_array l))
  clean_passes allow path (obj fs) h = fields_pass allow path fs (λ l. h (in_object l))

  items_pass :
      (allow : Bool) (path : String) (i : ℕ) (vs : Items)
      → ¬ LeakItem allow path i vs
      → find_in_items allow vs path i ≡ []
  items_pass allow path i nil h = refl
  items_pass allow path i (cons v vs) h =
      (append-empty (find_forbidden_keys allow v (item_path path i)) _).1 (
        clean_passes allow (item_path path i) v (λ l. h (this l)),
        items_pass allow path (suc i) vs (λ l. h (later l)),
      )

  fields_pass :
      (allow : Bool) (path : String) (fs : Fields)
      → ¬ LeakField allow path fs
      → find_in_fields allow fs path ≡ []
  fields_pass allow path end h = refl
  fields_pass allow path (field key v fs) h =
      (append-empty (key_violations allow path key forbidden_inline_secret_keys) _).1 (
        name_clean allow path key v fs h,
        (append-empty (find_forbidden_keys allow v (member_path path key)) _).1 (
          clean_passes allow (member_path path key) v (λ l. h (within l)),
          fields_pass allow path fs (λ l. h (after l)),
        ),
      )

none_found_iff : (violations : List String) → (none_found violations ≡ ok tt) ↔ (violations ≡ [])
none_found_iff [] = (λ e. refl, λ e. refl)
none_found_iff (v ∷ vs) = (λ e. absurd (cc e), λ e. absurd (cc e))

-- The check for inline secrets passes exactly the values in which no field, in an object at any
-- depth of arrays and objects, has the name of a secret at a path where it is not allowed.
pub assert_no_inline_secrets_iff :
    (allow : Bool) (v : Json) → (assert_no_inline_secrets allow v ≡ ok tt) ↔ (¬ Leak allow "$" v)
unfolding assert_no_inline_secrets
assert_no_inline_secrets_iff allow v =
    let outcome = none_found_iff (find_forbidden_keys allow v "$") in
    (λ e l. leaks_found allow "$" v l (outcome.0 e), λ h. outcome.1 (clean_passes allow "$" v h))
