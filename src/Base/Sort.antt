-- ===== src/Base/Sort.antt =====
-- `sort` with a comparison, and `order by` of a query: elements that compare equal stay in order.
use mathlib.Core.Bool.{Bool}
use Prim.Native.Nat.{suc}
use mathlib.Core.Path.{◌≡◌, refl, ap, ◌∙◌}
use mathlib.Core.List.{List, [], ◌∷◌}
use mavio_mcp.Base.Tests.{if◌then◌else◌}
use mavio_mcp.Base.Lists.{All, length}
use native.Mathlib.Omega.{arith}

-- The test puts its first argument before the second.
abbrev pub insert_by {ℓ} : {A : Type ℓ} → (A → A → Bool) → A → List A → List A
insert_by before a [] = a ∷ []
insert_by before a (b ∷ bs) = if before b a then b ∷ insert_by before a bs else a ∷ b ∷ bs

unfoldable pub sort_by {ℓ} : {A : Type ℓ} → (A → A → Bool) → List A → List A
sort_by before [] = []
sort_by before (a ∷ as_) = insert_by before a (sort_by before as_)

module _ {ℓ κ} {A : Type ℓ} (P : A → Type κ) (before : A → A → Bool) where
  All-insert_by : (a : A) (as_ : List A) → P a → All P as_ → All P (insert_by before a as_)
  All-insert_by a [] p h = (p, tt)
  All-insert_by a (b ∷ bs) p (q, h) = ground (arith, All-insert_by a bs p h)

  pub All-sort_by : (as_ : List A) → All P as_ → All P (sort_by before as_)
  unfolding sort_by
  All-sort_by [] h = tt
  All-sort_by (a ∷ as_) (p, h) = All-insert_by a (sort_by before as_) p (All-sort_by as_ h)

module _ {ℓ} {A : Type ℓ} (before : A → A → Bool) where
  length-insert_by : (a : A) (as_ : List A) → length (insert_by before a as_) ≡ suc (length as_)
  length-insert_by a [] = refl
  length-insert_by a (b ∷ bs) = ground (arith, length-insert_by a bs)

  pub length-sort_by : (as_ : List A) → length (sort_by before as_) ≡ length as_
  unfolding sort_by
  length-sort_by [] = refl
  length-sort_by (a ∷ as_) =
      length-insert_by a (sort_by before as_) ∙ ap (λ n. suc n) (length-sort_by as_)
