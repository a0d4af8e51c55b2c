-- ===== src/Rbac/Remote/Fields.antt =====
-- packages/rbac-opa/src/index.ts: the three fields in which a policy service may say `true`.
use mavio_mcp.Base.{sym, true, Option, none, some, ◌≡◌, ◌⊎◌, refl, ap, ◌∙◌, inl, inr}
use mavio_mcp.Json.{Json, null, bool, num, neg, str, arr, obj, prop}
use mavio_mcp.Rbac.Remote.{or_else, allow_field}

-- The field is not there, or is null.
abbrev pub Missing : Option Json → Type 0
Missing o = (o ≡ none) ⊎ (o ≡ some null)

-- `allow` is true; or it is missing and `decision` is true, or both are missing and `allowed` is.
abbrev pub Grants : Json → Type 0
Grants v =
    (prop "allow" v ≡ some (bool true))
    ⊎ (Missing (prop "allow" v)
        × ((prop "decision" v ≡ some (bool true))
            ⊎ (Missing (prop "decision" v) × (prop "allowed" v ≡ some (bool true)))))

-- What the code reads of the three fields is `true`.
abbrev pub Reads : Json → Type 0
Reads v = allow_field v ≡ some (bool true)

or_else_assoc : (a d e : Option Json) → or_else (or_else a d) e ≡ or_else a (or_else d e)
or_else_assoc none d e = refl
or_else_assoc (some null) d e = refl
or_else_assoc (some (bool x)) d e = refl
or_else_assoc (some (num x)) d e = refl
or_else_assoc (some (neg x)) d e = refl
or_else_assoc (some (str x)) d e = refl
or_else_assoc (some (arr x)) d e = refl
or_else_assoc (some (obj x)) d e = refl

abbrev First : Option Json → Option Json → Type 0
First a b = (a ≡ some (bool true)) ⊎ (Missing a × (b ≡ some (bool true)))

or_else-First : (a b : Option Json) → or_else a b ≡ some (bool true) → First a b
or_else-First none b e = inr (inl refl, e)
or_else-First (some null) b e = inr (inr refl, e)
or_else-First (some (bool x)) b e = inl e
or_else-First (some (num x)) b e = inl e
or_else-First (some (neg x)) b e = inl e
or_else-First (some (str x)) b e = inl e
or_else-First (some (arr x)) b e = inl e
or_else-First (some (obj x)) b e = inl e

First-or_else : (a b : Option Json) → First a b → or_else a b ≡ some (bool true)
First-or_else a b (inl e) = ap (λ o. or_else o b) e
First-or_else a b (inr (inl missing, e)) = ap (λ o. or_else o b) missing ∙ e
First-or_else a b (inr (inr missing, e)) = ap (λ o. or_else o b) missing ∙ e

pub Reads-Grants : (v : Json) → Reads v → Grants v
unfolding allow_field
Reads-Grants v reads =
    elim (or_else-First (prop "allow" v) (or_else (prop "decision" v) (prop "allowed" v))
      (sym (or_else_assoc (prop "allow" v) (prop "decision" v) (prop "allowed" v)) ∙ reads)) [
        | inl allow_true ↦ inl allow_true
        | inr (missing, later) ↦
            inr (missing, or_else-First (prop "decision" v) (prop "allowed" v) later)
      ]

pub Grants-Reads : (v : Json) → Grants v → Reads v
unfolding allow_field
Grants-Reads v grants =
    or_else_assoc (prop "allow" v) (prop "decision" v) (prop "allowed" v)
    ∙ First-or_else (prop "allow" v) (or_else (prop "decision" v) (prop "allowed" v)) (elim grants [
      | inl allow_true ↦ inl allow_true
      | inr (missing, later) ↦
          inr (missing, First-or_else (prop "decision" v) (prop "allowed" v) later)
    ])
