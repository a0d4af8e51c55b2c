-- ===== src/Rbac/Remote/Shapes.antt =====
-- packages/rbac-opa/src/index.ts: which answers of the policy service let a principal through.
use mavio_mcp.Base.{
  ℕ, String, Bool, true, false, Option, none, some, ◌≡◌, ◌⊎◌, ◌↔◌, ◌<◌, refl, ap, ◌∙◌, inl, inr,
  arith, Bool-cases, Option-cases, leb,
}
use mavio_mcp.Json.{Json, null, bool, num, neg, str, arr, obj, prop}
use mavio_mcp.Rbac.Remote.{
  Fetched, fetched, threw, Allow, allow_field, boolean_allow, text_or_none, extract_allow,
  nested_boolean, parse_nested, parse_result, parse_object, parse_decision, remote_can,
}
use mavio_mcp.Rbac.Remote.Fields.{Grants, Reads-Grants, Grants-Reads}

-- The shapes of a body that allow: `true`, an object that grants, and an object whose `result`
-- grants, where the object itself has no boolean of its own.
abbrev pub Allows : Json → Type 0
Allows v =
    (v ≡ bool true)
    ⊎ (Grants v
        ⊎ ((extract_allow v ≡ none)
            × ((inner : Json) × (prop "result" v ≡ some inner) × Grants inner)))

abbrev allow_or : Bool → Option Allow → Bool
allow_or b none = b
allow_or b (some a) = a.allow

boolean_allow-true :
    (o : Option Json) (r : Option String) (a : Allow)
    → boolean_allow o r ≡ some a
    → a.allow ≡ true
    → o ≡ some (bool true)
boolean_allow-true none r a e t = absurd (cc e)
boolean_allow-true (some (bool b)) r a e t = ap (λ x. some (bool x)) (ap (allow_or b) e ∙ t)
boolean_allow-true (some null) r a e t = absurd (cc e)
boolean_allow-true (some (num n)) r a e t = absurd (cc e)
boolean_allow-true (some (neg n)) r a e t = absurd (cc e)
boolean_allow-true (some (str s)) r a e t = absurd (cc e)
boolean_allow-true (some (arr vs)) r a e t = absurd (cc e)
boolean_allow-true (some (obj fs)) r a e t = absurd (cc e)

extract_allow-Grants : (v : Json) (a : Allow) → extract_allow v ≡ some a → a.allow ≡ true → Grants v
unfolding extract_allow
extract_allow-Grants v a e t =
    Reads-Grants v (boolean_allow-true (allow_field v) (text_or_none (prop "reason" v)) a e t)

parse_nested-Grants :
    (v : Json) → (nested_boolean v).allowed ≡ false → (parse_nested v).allowed ≡ true → Grants v
unfolding parse_nested
parse_nested-Grants v container = elim (Option-cases (extract_allow v)) [
  | inl shapeless ↦ rw (parse_nested, shapeless) (λ t. absurd (cc (container, t)))
  | inr (a, extracted) ↦ rw (parse_nested, extracted) (λ t. extract_allow-Grants v a extracted t)
]

parse_result-Grants :
    (o : Option Json)
    → (parse_result o).allowed ≡ true
    → (inner : Json) × (o ≡ some inner) × Grants inner
unfolding parse_result
parse_result-Grants none t = absurd (cc t)
parse_result-Grants (some (bool b)) t = absurd (cc t)
parse_result-Grants (some null) t = absurd (cc t)
parse_result-Grants (some (num n)) t = absurd (cc t)
parse_result-Grants (some (neg n)) t = absurd (cc t)
parse_result-Grants (some (str s)) t = absurd (cc t)
parse_result-Grants (some (arr vs)) t = (arr vs, refl, parse_nested-Grants (arr vs) refl t)
parse_result-Grants (some (obj fs)) t = (obj fs, refl, parse_nested-Grants (obj fs) refl t)

parse_object-Allows : (v : Json) → (parse_object v).allowed ≡ true → Allows v
unfolding parse_object
parse_object-Allows v = elim (Option-cases (extract_allow v)) [
  | inl shapeless ↦
      rw (parse_object, shapeless) (λ t. inr (inr (refl, parse_result-Grants (prop "result" v) t)))
  | inr (a, extracted) ↦
      rw (parse_object, extracted) (λ t. inr (inl (extract_allow-Grants v a extracted t)))
]

parse_decision-Allows : (v : Json) → (parse_decision v).allowed ≡ true → Allows v
unfolding parse_decision
parse_decision-Allows null t = absurd (cc t)
parse_decision-Allows (bool b) t = inl (ap bool t)
parse_decision-Allows (num n) t = absurd (cc t)
parse_decision-Allows (neg n) t = absurd (cc t)
parse_decision-Allows (str s) t = absurd (cc t)
parse_decision-Allows (arr vs) t = parse_object-Allows (arr vs) t
parse_decision-Allows (obj fs) t = parse_object-Allows (obj fs) t

-- The engine of the policy service allows only on a response below status 400 whose body reads as
-- one of the shapes that allow; a failure of the service denies, whatever `failClosed` says.
pub remote_can-Allows :
    (fail_closed : Bool) (f : Fetched)
    → (remote_can fail_closed f).allowed ≡ true
    → (status : ℕ) × (v : Json) × (message : String) × (f ≡ fetched status (some v) message)
      × (status < 400)
      × Allows v
unfolding remote_can
remote_can-Allows fail_closed (threw message) = λ t. absurd (cc t)
remote_can-Allows fail_closed (fetched status body message) = elim (Bool-cases (leb 400 status)) [
  | inl refused ↦ rw (remote_can, refused) (λ t. absurd (ground (arith, t)))
  | inr accepted ↦ elim (Option-cases body) [
    | inl unreadable ↦ rw (remote_can, accepted) (rw unreadable (λ t. absurd (cc t)))
    | inr (v, read) ↦
        rw (remote_can, accepted)
          (rw read
            (λ t. (status, v, message, refl, ground (arith, accepted), parse_decision-Allows v t)))
  ]
]

abbrev allowing : Json → Allow
allowing v = record { allow = true; reason = text_or_none (prop "reason" v) }

extract_allow-allowing : (v : Json) → Grants v → extract_allow v ≡ some (allowing v)
unfolding extract_allow
extract_allow-allowing v grants =
    ap (λ o. boolean_allow o (text_or_none (prop "reason" v))) (Grants-Reads v grants)

parse_object-allowed : (v : Json) → Grants v → (parse_object v).allowed ≡ true
unfolding parse_object
parse_object-allowed v grants =
    let extracted = extract_allow-allowing v grants in rw (parse_object, extracted) refl

parse_nested-allowed : (v : Json) → Grants v → (parse_nested v).allowed ≡ true
unfolding parse_nested
parse_nested-allowed v grants =
    let extracted = extract_allow-allowing v grants in rw (parse_nested, extracted) refl

-- Only an object can grant: nothing else has a field.
parse_result-allowed : (v : Json) → Grants v → (parse_result (some v)).allowed ≡ true
unfolding parse_result allow_field prop
parse_result-allowed null grants = absurd (cc (Grants-Reads null grants))
parse_result-allowed (bool b) grants = absurd (cc (Grants-Reads (bool b) grants))
parse_result-allowed (num n) grants = absurd (cc (Grants-Reads (num n) grants))
parse_result-allowed (neg n) grants = absurd (cc (Grants-Reads (neg n) grants))
parse_result-allowed (str s) grants = absurd (cc (Grants-Reads (str s) grants))
parse_result-allowed (arr vs) grants = absurd (cc (Grants-Reads (arr vs) grants))
parse_result-allowed (obj fs) grants = parse_nested-allowed (obj fs) grants

parse_object-result :
    (v inner : Json)
    → extract_allow v ≡ none
    → prop "result" v ≡ some inner
    → Grants inner
    → (parse_object v).allowed ≡ true
unfolding parse_object
parse_object-result v inner shapeless there grants =
    rw (parse_object, shapeless)
      (ap (λ o. (parse_result o).allowed) there ∙ parse_result-allowed inner grants)

-- A body that grants, or whose result does, is an object.
object-Grants : (v : Json) → Grants v → (parse_decision v).allowed ≡ true
unfolding parse_decision allow_field prop
object-Grants null grants = absurd (cc (Grants-Reads null grants))
object-Grants (bool b) grants = absurd (cc (Grants-Reads (bool b) grants))
object-Grants (num n) grants = absurd (cc (Grants-Reads (num n) grants))
object-Grants (neg n) grants = absurd (cc (Grants-Reads (neg n) grants))
object-Grants (str s) grants = absurd (cc (Grants-Reads (str s) grants))
object-Grants (arr vs) grants = absurd (cc (Grants-Reads (arr vs) grants))
object-Grants (obj fs) grants = parse_object-allowed (obj fs) grants

object-result :
    (v inner : Json)
    → extract_allow v ≡ none
    → prop "result" v ≡ some inner
    → Grants inner
    → (parse_decision v).allowed ≡ true
unfolding parse_decision prop
object-result null inner shapeless there grants = absurd (cc there)
object-result (bool b) inner shapeless there grants = absurd (cc there)
object-result (num n) inner shapeless there grants = absurd (cc there)
object-result (neg n) inner shapeless there grants = absurd (cc there)
object-result (str s) inner shapeless there grants = absurd (cc there)
object-result (arr vs) inner shapeless there grants = absurd (cc there)
object-result (obj fs) inner shapeless there grants =
    parse_object-result (obj fs) inner shapeless there grants

Allows-parse_decision : (v : Json) → Allows v → (parse_decision v).allowed ≡ true
unfolding parse_decision
Allows-parse_decision v (inl e) = ap (λ x. (parse_decision x).allowed) e
Allows-parse_decision v (inr (inl grants)) = object-Grants v grants
Allows-parse_decision v (inr (inr (shapeless, (inner, there, grants)))) =
    object-result v inner shapeless there grants

-- A decision allows if and only if its body is one of the shapes that allow. No boolean is among
-- the results that grant, so the body `{"result": true}` does not allow.
pub parse_decision-allowed_iff : (v : Json) → ((parse_decision v).allowed ≡ true) ↔ Allows v
parse_decision-allowed_iff v = (parse_decision-Allows v, Allows-parse_decision v)
