-- ===== src/Catalog/Accepts.antt =====
-- What the schema check accepts.
use forgeiq.Prelude.{
  then_iff, String, ◌≡◌, ◌≢◌, refl, ◌↔◌, ◌⊎◌, inl, inr, Bool, true, false, Option, none, some, List,
  [], ◌∷◌, Result, ok, err, All, arith, eq_iff, Bool-cases, Option-cases, ◌==◌,
}
use forgeiq.GoMap.{GoMap, get}
use forgeiq.Contracts.Values.{Any}
use forgeiq.Catalog.{
  guard, is_string, is_number, is_object, is_array, is_boolean, type_check, is_missing,
  check_required, required_names, wrap_type_error, given, check_value, property_check, type_of,
  check_properties, properties_of, is_other_type, validate_args,
}

-- The argument is there; it may be nil.
abbrev pub HasArg : Option (GoMap Any) → String → Type 0
HasArg none k = ⊥
HasArg (some m) k = (v : Any) × (get m k ≡ some v)

-- A value of the type that the name stands for; any value has a type of another name.
abbrev pub IsTyped : String → Any → Type 0
IsTyped pt v =
    (pt ≡ "string" → is_string v ≡ true)
    × (pt ≡ "number" → is_number v ≡ true)
    × (pt ≡ "object" → is_object v ≡ true)
    × (pt ≡ "array" → is_array v ≡ true)
    × (pt ≡ "boolean" → is_boolean v ≡ true)

abbrev pub IsTypedIfGiven : String → Option Any → Type 0
IsTypedIfGiven pt none = Unit
IsTypedIfGiven pt (some v) = IsTyped pt v

-- Every required name is given, and every argument that is given and not nil has the type of its
-- property.
pub record IsAccepted (schema : GoMap Any) (args : Option (GoMap Any)) : Type 0 where
  pub required : All (λ k. k ≢ "" → HasArg args k) (required_names (get schema "required"))
  pub typed :
      All
        (λ p. IsTypedIfGiven (type_of p.1) (given args p.0))
        (properties_of (get schema "properties"))

guard_passes : (b : Bool) (e : String) → guard b e ≡ ok tt → b ≡ true
guard_passes true e h = refl
guard_passes false e h = absurd (cc)

type_check_iff : (pt : String) (v : Any) → (type_check pt v ≡ ok tt) ↔ IsTyped pt v
unfolding type_check
type_check_iff pt v = (
  λ h. (
    λ e. guard_passes (is_string v) "string" (rw e at h),
    λ e. guard_passes (is_number v) "number" (rw e at h),
    λ e. guard_passes (is_object v) "object" (rw e at h),
    λ e. guard_passes (is_array v) "array" (rw e at h),
    λ e. guard_passes (is_boolean v) "boolean" (rw e at h),
  ),
  λ t. ground (
    arith,
    eq_iff pt "string",
    eq_iff pt "number",
    eq_iff pt "object",
    eq_iff pt "array",
    eq_iff pt "boolean",
  ),
)

is_missing-HasArg :
    (args : Option (GoMap Any)) (k : String) → is_missing args k ≡ false → HasArg args k
is_missing-HasArg none k h = cc
is_missing-HasArg (some m) k h = elim (Option-cases (get m k)) [
  | inl e ↦ absurd (cc (rw e at h))
  | inr p ↦ p
]

HasArg-is_missing :
    (args : Option (GoMap Any)) (k : String) → HasArg args k → is_missing args k ≡ false
HasArg-is_missing none k h = absurd h
HasArg-is_missing (some m) k (v, e) = rw e refl

check_required_iff :
    (args : Option (GoMap Any)) (ks : List String)
    → (check_required args ks ≡ ok tt) ↔ All (λ k. k ≢ "" → HasArg args k) ks
unfolding check_required
check_required_iff args [] = (λ h. tt, λ h. refl)
check_required_iff args (k ∷ ks) =
    let (to, from) = check_required_iff args ks in
    elim (Bool-cases (k == "")) [
      | inl e ↦ rw e (λ h. (λ n. absurd (n ((eq_iff k "").0 e)), to h), λ h. from h.1)
      | inr e ↦ rw e (elim (Bool-cases (is_missing args k)) [
        | inl m ↦ rw m (
          λ h. absurd (cc),
          λ h.
              absurd
                (ground (arith, HasArg-is_missing args k (h.0 (λ p. ground (arith, eq_iff k ""))))),
        )
        | inr m ↦ rw m (λ h. (λ n. is_missing-HasArg args k m, to h), λ h. from h.1)
      ])
    ]

unwrap_type_error :
    (k : String) (r : Result String (Unit {0})) → wrap_type_error k r ≡ ok tt → r ≡ ok tt
unwrap_type_error k (ok tt) h = refl
unwrap_type_error k (err t) h = absurd (cc)

untyped : (v : Option Any) → IsTypedIfGiven "" v
untyped none = tt
untyped (some v) =
    (λ e. absurd (cc), λ e. absurd (cc), λ e. absurd (cc), λ e. absurd (cc), λ e. absurd (cc))

check_value_iff :
    (k pt : String) (v : Option Any) → (check_value k pt v ≡ ok tt) ↔ IsTypedIfGiven pt v
check_value_iff k pt none = (λ h. tt, λ h. refl)
check_value_iff k pt (some v) =
    let (to, from) = type_check_iff pt v in
    (λ h. to (unwrap_type_error k (type_check pt v) h), λ h. rw (from h) refl)

check_properties_iff :
    (args : Option (GoMap Any)) (ps : GoMap Any)
    → (check_properties args ps ≡ ok tt)
      ↔ All (λ p. IsTypedIfGiven (type_of p.1) (given args p.0)) ps
unfolding check_properties
check_properties_iff args [] = (λ h. tt, λ h. refl)
check_properties_iff args ((k, pv) ∷ rest) =
    let (to, from) = check_properties_iff args rest in
    let (first, last) = check_value_iff k (type_of pv) (given args k) in
    let (split, join) = then_iff (property_check args k pv) (check_properties args rest) in
    elim (Bool-cases (type_of pv == "")) [
      | inl e ↦ (
        λ h. (rw ((eq_iff (type_of pv) "").0 e) (untyped (given args k)), to (split h).1),
        λ h. join (rw e refl, from h.1),
      )
      | inr e ↦ (
        λ h. let (a, b) = split h in (first (rw e at a), to b),
        λ h. join (rw e (last h.0), from h.1),
      )
    ]

-- Arguments pass the check of an object schema exactly when every required name is given and every
-- argument that is given and not nil, and whose property names one of the five types, has that type.
-- A schema of another type, and a nil schema, let everything pass.
pub validate_args_iff :
    (schema : GoMap Any) (args : Option (GoMap Any))
    → (validate_args none args ≡ ok tt)
      × ((validate_args (some schema) args ≡ ok tt)
          ↔ ((is_other_type schema ≡ true) ⊎ IsAccepted schema args))
unfolding validate_args
validate_args_iff schema args =
    let (split, join) =
      then_iff (check_required args (required_names (get schema "required")))
        (check_properties args (properties_of (get schema "properties"))) in
    let (to, from) = check_required_iff args (required_names (get schema "required")) in
    let (typed, untype) = check_properties_iff args (properties_of (get schema "properties")) in
    (
      refl,
      elim (Bool-cases (is_other_type schema)) [
        | inl e ↦ rw e (λ h. inl refl, λ h. refl)
        | inr e ↦ rw e (
          λ h. let (a, b) = split h in inr (record { required = to a; typed = typed b }),
          λ h. elim h [ inl t ↦ absurd (cc) | inr a ↦ join (from a.required, untype a.typed) ],
        )
      ],
    )
