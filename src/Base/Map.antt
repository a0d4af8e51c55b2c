-- ===== src/Base/Map.antt =====
-- A JavaScript `Map` with text keys, as the list of its entries in insertion order. `set` on a
-- key that is present keeps its place.
use Prim.Native.String.{String}
use mathlib.Core.Path.{◌≡◌, refl, subst}
use mathlib.Core.Logic.{inl, inr, ◌≢◌}
use mathlib.Core.Bool.{Bool, true, false}
use mathlib.Core.Option.{Option, none, some}
use mathlib.Core.List.{List, [], ◌∷◌, map}
use native.Mathlib.Omega.{arith}
use text.Mathlib.TextEquality.{eq_iff}
use mavio_mcp.Base.Tests.{str_eq, if◌then◌else◌, Bool-cases}

abbrev pub Map {ℓ} : Type ℓ → Type ℓ
Map V = List (String × V)

module _ {ℓ} {V : Type ℓ} where
  abbrev pub get : String → Map V → Option V
  get k [] = none
  get k ((j, v) ∷ m) = if str_eq j k then some v else get k m

  abbrev pub has : String → Map V → Bool
  has k m = elim (get k m) [ none ↦ false | some _ ↦ true ]

  abbrev pub set : String → V → Map V → Map V
  set k v [] = (k, v) ∷ []
  set k v ((j, w) ∷ m) = if str_eq j k then (j, v) ∷ m else (j, w) ∷ set k v m

  abbrev pub delete : String → Map V → Map V
  delete k [] = []
  delete k ((j, w) ∷ m) = if str_eq j k then delete k m else (j, w) ∷ delete k m

  abbrev pub values : Map V → List V
  values m = map (λ e. e.1) m

  pub get-set :
      (k j : String) (v : V) (m : Map V)
      → get j (set k v m) ≡ (if str_eq k j then some v else get j m)
  get-set k j v [] = refl
  get-set k j v ((i, w) ∷ m) = ground (arith, eq_iff k j, eq_iff i k, eq_iff i j, get-set k j v m)

  pub get-delete :
      (k j : String) (m : Map V) → get j (delete k m) ≡ (if str_eq k j then none else get j m)
  get-delete k j [] = ground arith
  get-delete k j ((i, w) ∷ m) = ground (arith, eq_iff k j, eq_iff i k, eq_iff i j, get-delete k j m)

module _ {ℓ κ} {V : Type ℓ} (P : V → Type κ) where
  abbrev pub AllValues : Map V → Type κ
  AllValues [] = Unit
  AllValues ((k, v) ∷ m) = P v × AllValues m

  pub AllValues-set : (k : String) (v : V) (m : Map V) → P v → AllValues m → AllValues (set k v m)
  AllValues-set k v [] p h = (p, tt)
  AllValues-set k v ((j, w) ∷ m) p h = ground (arith, AllValues-set k v m p h.1)

  pub AllValues-delete : (k : String) (m : Map V) → AllValues m → AllValues (delete k m)
  AllValues-delete k [] h = tt
  AllValues-delete k ((j, w) ∷ m) h = ground (arith, AllValues-delete k m h.1)

  pub AllValues-get : (k : String) (m : Map V) (v : V) → AllValues m → get k m ≡ some v → P v
  AllValues-get k [] v h e = absurd (cc)
  AllValues-get k ((j, w) ∷ m) v h e = elim (Bool-cases (str_eq j k)) [
    | inl same ↦ subst P (ground arith) h.0
    | inr other ↦ AllValues-get k m v h.1 (ground arith)
  ]

module _ {ℓ} {V : Type ℓ} where
  pub get-set_self : (k : String) (v : V) (m : Map V) → get k (set k v m) ≡ some v
  get-set_self k v m = ground (arith, get-set k k v m, eq_iff k k)

  pub has-set_self : (k : String) (v : V) (m : Map V) → has k (set k v m) ≡ true
  has-set_self k v m = rw (has, get-set_self k v m) refl

  pub get-set_ne : {k j : String} (v : V) (m : Map V) → k ≢ j → get j (set k v m) ≡ get j m
  get-set_ne {k} {j} v m h = ground (arith, get-set k j v m, eq_iff k j)

  pub get-delete_self : (k : String) (m : Map V) → get k (delete k m) ≡ none
  get-delete_self k m = ground (arith, get-delete k k m, eq_iff k k)

  pub get-delete_ne : {k j : String} (m : Map V) → k ≢ j → get j (delete k m) ≡ get j m
  get-delete_ne {k} {j} m h = ground (arith, get-delete k j m, eq_iff k j)

-- No key stands twice.
abbrev pub IsMap {ℓ} : {V : Type ℓ} → Map V → Type ℓ
IsMap [] = Unit
IsMap ((k, v) ∷ m) = (get k m ≡ none) × IsMap m

module _ {ℓ} {V : Type ℓ} where
  pub set-IsMap : (k : String) (v : V) (m : Map V) → IsMap m → IsMap (set k v m)
  set-IsMap k v [] h = (refl, tt)
  set-IsMap k v ((j, w) ∷ m) (new, h) =
      ground (arith, eq_iff j k, eq_iff k j, get-set k j v m, set-IsMap k v m h)

  pub delete-IsMap : (k : String) (m : Map V) → IsMap m → IsMap (delete k m)
  delete-IsMap k [] h = tt
  delete-IsMap k ((j, w) ∷ m) (new, h) = ground (arith, get-delete k j m, delete-IsMap k m h)
