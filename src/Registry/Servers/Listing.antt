-- ===== src/Registry/Servers/Listing.antt =====
-- packages/registry/src/index.ts: what `list` and `latestCapabilities` select.
use mavio_mcp.Base.Sort.{insert_by, sort_by}
use mavio_mcp.Base.{
  String, Bool, true, ◌&&◌, none, some, List, [], ◌∷◌, map, ◌≡◌, refl, ap, sym, ◌∙◌, arith, inl,
  inr, Bool-cases, length, keep, All,
}
use mavio_mcp.Base.Map.{values}
use mavio_mcp.Core.{ApprovalStatus, pending, approved, rejected, ServerDescriptor}
use mavio_mcp.Registry.Servers.{ServerRow, Database, to_descriptor}
use mavio_mcp.Registry.Servers.Statements.{
  ListFilter, selected, filter_status, same_status, list_servers,
}

module _ {A : Type 0} (before : A → A → Bool) where
  insert_by-count :
      (p : A → Bool) (a : A) (as_ : List A)
      → length (keep p (insert_by before a as_)) ≡ length (keep p (a ∷ as_))
  insert_by-count p a [] = refl
  insert_by-count p a (b ∷ bs) = ground (arith, insert_by-count p a bs)

  sort_by-count :
      (p : A → Bool) (as_ : List A) → length (keep p (sort_by before as_)) ≡ length (keep p as_)
  unfolding sort_by
  sort_by-count p [] = refl
  sort_by-count p (a ∷ as_) =
      insert_by-count p a (sort_by before as_) ∙ ground (arith, sort_by-count p as_)

  insert_by-All :
      (P : A → Type 0) (a : A) (as_ : List A) → P a → All P as_ → All P (insert_by before a as_)
  insert_by-All P a [] here h = (here, tt)
  insert_by-All P a (b ∷ bs) here (k, h) = elim (Bool-cases (before b a)) [
    | inl first ↦ rw first (k, insert_by-All P a bs here h)
    | inr later ↦ rw later (here, (k, h))
  ]

  sort_by-All : (P : A → Type 0) (as_ : List A) → All P as_ → All P (sort_by before as_)
  unfolding sort_by
  sort_by-All P [] h = tt
  sort_by-All P (a ∷ as_) (here, h) =
      insert_by-All P a (sort_by before as_) here (sort_by-All P as_ h)

map-count :
    {A B : Type 0} (f : A → B) (p : B → Bool) (as_ : List A)
    → length (keep p (map f as_)) ≡ length (keep (λ a. p (f a)) as_)
map-count f p [] = refl
map-count f p (a ∷ as_) = ground (arith, map-count f p as_)

All-map :
    {A B : Type 0} (P : B → Type 0) (f : A → B) (as_ : List A)
    → All (λ a. P (f a)) as_
    → All P (map f as_)
All-map P f [] h = tt
All-map P f (a ∷ as_) (here, h) = (here, All-map P f as_ h)

keep-passes : {A : Type 0} (p : A → Bool) (as_ : List A) → All (λ a. p a ≡ true) (keep p as_)
keep-passes p [] = tt
keep-passes p (a ∷ as_) = ground (arith, keep-passes p as_)

-- The list has the rows that the filter selects, each as often as the table has it: it counts the
-- same by any test on descriptors.
pub list_servers-count :
    (text_before : String → String → Bool) (db : Database) (f : ListFilter)
    (p : ServerDescriptor → Bool)
    → length (keep p (list_servers text_before db f))
      ≡ length (keep (λ row. p (to_descriptor row)) (keep (selected f) (values db.servers)))
unfolding list_servers
list_servers-count text_before db f p =
    map-count to_descriptor p _ ∙ sort_by-count _ (λ row. p (to_descriptor row)) _

All-implies :
    {A : Type 0} (P Q : A → Type 0) (as_ : List A) → ((a : A) → P a → Q a) → All P as_ → All Q as_
All-implies P Q [] f h = tt
All-implies P Q (a ∷ as_) f (here, h) = (f a here, All-implies P Q as_ f h)

third : (a b c : Bool) → (a && (b && c)) ≡ true → c ≡ true
third a b c h = ground arith

same_status-approved : (s : ApprovalStatus) → same_status s approved ≡ true → s ≡ approved
same_status-approved approved h = refl
same_status-approved pending h = absurd (cc)
same_status-approved rejected h = absurd (cc)

selected-approved :
    (f : ListFilter) (row : ServerRow)
    → f.approval_status ≡ none
    → selected f row ≡ true
    → (to_descriptor row).approval_status ≡ some approved
unfolding to_descriptor
selected-approved f row unset h = ap some (
    same_status-approved row.approval_status
      (sym (ap (λ o. filter_status o row.approval_status) unset) ∙ third _ _ _ h))

-- Without a status in the filter, only approved servers are listed.
pub list_servers-approved :
    (text_before : String → String → Bool) (db : Database) (f : ListFilter)
    → f.approval_status ≡ none
    → All (λ d. d.approval_status ≡ some approved) (list_servers text_before db f)
unfolding list_servers
list_servers-approved text_before db f unset =
    All-map (λ d. d.approval_status ≡ some approved) to_descriptor _
      (sort_by-All _ (λ row. (to_descriptor row).approval_status ≡ some approved) _
        (All-implies _ _ _ (λ row. selected-approved f row unset) (keep-passes (selected f) _)))
