-- ===== src/UpstreamAuth/Keyring/Rotation.antt =====
-- packages/upstream-auth/src/keyring.ts: what rotation and retirement keep.
use mathlib.Core.List.{◌++◌}
use mathlib.Core.Path.{subst}
use mavio_mcp.Base.{
  ℕ, ◌≤◌, String, Bool, true, false, some, List, [], ◌∷◌, ◌≡◌, refl, sym, ◌∙◌, ◌⊎◌, arith, eq_iff,
  inl, inr, Bool-cases, Option-cases, if◌then◌else◌, length, any, any-append, find, str_eq, ltb,
  ◌==◌,
}
use mavio_mcp.UpstreamAuth.Keyring.{
  Checked-cases, fine, KekEntry, has_id, primary, get_kek, rotate, remove_first, retire, add_entry,
  parse_chunk, parse_chunks, parse_keyring, trim, split_colon,
}

-- The ids differ, and every key has 32 bytes.
abbrev pub IsKeyring : List KekEntry → Type 0
IsKeyring [] = Unit
IsKeyring (e ∷ es) = (any (has_id e.key_id) es ≡ false) × (length e.material ≡ 32) × IsKeyring es

snoc-IsKeyring :
    (es : List KekEntry) (next : KekEntry)
    → any (has_id next.key_id) es ≡ false
    → length next.material ≡ 32
    → IsKeyring es
    → IsKeyring (es ++ next ∷ [])
snoc-IsKeyring [] next new size h = (refl, size, tt)
snoc-IsKeyring (e ∷ es) next new size (alone, fits, h) = (
  ground (
    arith,
    any-append (has_id e.key_id) es (next ∷ []),
    eq_iff e.key_id next.key_id,
    eq_iff next.key_id e.key_id,
  ),
  fits,
  snoc-IsKeyring es next (ground arith) size h,
)

module _ (from_base64 : String → List ℕ) where
  add_entry-IsKeyring :
      (es : List KekEntry) (id b64 : String) (es' : List KekEntry)
      → IsKeyring es
      → add_entry from_base64 es id b64 ≡ fine es'
      → IsKeyring es'
  unfolding add_entry
  add_entry-IsKeyring es id b64 es' h e = elim (Bool-cases (str_eq id "")) [
    | inl unnamed ↦ absurd (ground arith)
    | inr named ↦ elim (Bool-cases (any (has_id id) es)) [
      | inl twice ↦ absurd (ground arith)
      | inr new ↦ elim (Bool-cases (length (from_base64 b64) == 32)) [
        | inr other ↦ absurd (ground arith)
        | inl size ↦
            let next : KekEntry = record { key_id = id; material = from_base64 b64 } in
            let same : es ++ next ∷ [] ≡ es' = ground arith in
            subst IsKeyring same (snoc-IsKeyring es next new (ground arith) h)
      ]
    ]
  ]

  parse_chunk-IsKeyring :
      (es : List KekEntry) (chunk : String) (es' : List KekEntry)
      → IsKeyring es
      → parse_chunk from_base64 es chunk ≡ fine es'
      → IsKeyring es'
  unfolding parse_chunk
  parse_chunk-IsKeyring es chunk es' h e = elim (Bool-cases (str_eq (trim chunk) "")) [
    | inl blank ↦ let same : es ≡ es' = ground arith in subst IsKeyring same h
    | inr text ↦ elim (Option-cases (split_colon (trim chunk))) [
      | inl bare ↦ absurd (ground arith)
      | inr ((before, after), split) ↦
          add_entry-IsKeyring es (trim before) (trim after) es' h (ground arith)
    ]
  ]

  parse_chunks-IsKeyring :
      (es : List KekEntry) (chunks : List String) (es' : List KekEntry)
      → IsKeyring es
      → parse_chunks from_base64 es chunks ≡ fine es'
      → IsKeyring es'
  unfolding parse_chunks
  parse_chunks-IsKeyring es [] es' h e =
      let same : es ≡ es' = ground arith in subst IsKeyring same h
  parse_chunks-IsKeyring es (chunk ∷ chunks) es' h e =
      elim (Checked-cases (parse_chunk from_base64 es chunk)) [
        | inl (m, broken) ↦ absurd (ground arith)
        | inr (es1, parsed) ↦
            parse_chunks-IsKeyring es1 chunks es' (parse_chunk-IsKeyring es chunk es1 h parsed)
              (ground arith)
      ]

  -- A keyring that is read from its text has keys of 32 bytes with ids that differ.
  pub parse_keyring-IsKeyring :
      (raw : String) (es : List KekEntry) → parse_keyring from_base64 raw ≡ fine es → IsKeyring es
  unfolding parse_keyring
  parse_keyring-IsKeyring raw es e = parse_chunks-IsKeyring [] _ es tt e

find-any :
    (p : KekEntry → Bool) (es : List KekEntry) (k : KekEntry) → find p es ≡ some k → any p es ≡ true
find-any p [] k found = absurd (cc)
find-any p (e ∷ es) k found = ground (arith, find-any p es k)

rotate-kept :
    (es : List KekEntry) (next : KekEntry)
    → any (has_id next.key_id) es ≡ false
    → (id : String) (k : KekEntry) → get_kek es id ≡ some k
    → get_kek (next ∷ es) id ≡ some k
rotate-kept es next new id k found = elim (Bool-cases (str_eq next.key_id id)) [
  | inr other ↦ rw other found
  | inl same ↦
      let named : next.key_id ≡ id = ground (arith, eq_iff next.key_id id) in
      let there : any (has_id id) es ≡ true = find-any (has_id id) es k found in
      let new' : any (has_id id) es ≡ false = subst (λ i. any (has_id i) es ≡ false) named new in
      absurd (cc)
]

-- A rotation makes the next key primary and keeps every key; the ids still differ.
pub rotate-IsKeyring :
    (es : List KekEntry) (next : KekEntry) (es' : List KekEntry)
    → IsKeyring es
    → length next.material ≡ 32
    → rotate es next ≡ fine es'
    → IsKeyring es'
      × (primary es' ≡ some next)
      × ((id : String) (e : KekEntry) → get_kek es id ≡ some e → get_kek es' id ≡ some e)
unfolding rotate
rotate-IsKeyring es next es' h size e = elim (Bool-cases (any (has_id next.key_id) es)) [
  | inl twice ↦ absurd (ground arith)
  | inr new ↦
      let same : next ∷ es ≡ es' = ground arith in
      subst
        (λ xs.
          IsKeyring xs
          × (primary xs ≡ some next)
          × ((id : String) (k : KekEntry) → get_kek es id ≡ some k → get_kek xs id ≡ some k))
        same ((new, size, h), refl, λ id k found. rotate-kept es next new id k found)
]

remove_first-any :
    (p : KekEntry → Bool) (id : String) (es : List KekEntry)
    → any p es ≡ false
    → any p (remove_first id es) ≡ false
unfolding remove_first
remove_first-any p id [] h = refl
remove_first-any p id (e ∷ es) h = ground (arith, remove_first-any p id es)

remove_first-IsKeyring :
    (id : String) (es : List KekEntry) → IsKeyring es → IsKeyring (remove_first id es)
unfolding remove_first
remove_first-IsKeyring id [] h = tt
remove_first-IsKeyring id (e ∷ es) (alone, size, h) = elim (Bool-cases (has_id id e)) [
  | inl found ↦ rw (remove_first, found) h
  | inr other ↦
      rw (remove_first, other)
        (remove_first-any (has_id e.key_id) id es alone, size, remove_first-IsKeyring id es h)
]

remove_first-first :
    (id : String) (e : KekEntry) (es : List KekEntry)
    → remove_first id (e ∷ es) ≡ (if has_id id e then es else e ∷ remove_first id es)
unfolding remove_first
remove_first-first id e es = refl

length-none : {A : Type 0} (xs : List A) → length xs ≤ 0 → xs ≡ []
length-none [] h = refl
length-none (x ∷ xs) h = absurd (omega arith)

-- A retirement leaves the ids different and the primary key as it was, or it leaves no key at all,
-- where the key that was retired was the only one.
pub retire-primary :
    (es : List KekEntry) (id : String) (es' : List KekEntry)
    → IsKeyring es
    → retire es id ≡ fine es'
    → IsKeyring es' × ((primary es' ≡ primary es) ⊎ ((es' ≡ []) × (length es ≡ 1)))
unfolding retire
retire-primary [] id es' h e = absurd (ground arith)
retire-primary (x ∷ xs) id es' (alone, size, h) e = elim (Bool-cases (any (has_id id) (x ∷ xs))) [
  | inr missing ↦ absurd (ground arith)
  | inl there ↦ elim (Bool-cases (has_id id x)) [
    | inl first ↦ elim (Bool-cases (ltb 1 (length (x ∷ xs)))) [
      | inl many ↦ absurd (ground arith)
      | inr single ↦
          let same : xs ≡ es' = ground (arith, remove_first-first id x xs) in
          let none_left : xs ≡ [] = length-none xs (ground arith) in
          (subst IsKeyring same h, inr (sym same ∙ none_left, rw none_left refl))
    ]
    | inr other ↦
        let same : x ∷ remove_first id xs ≡ es' = ground (arith, remove_first-first id x xs) in
        subst (λ ys. IsKeyring ys × ((primary ys ≡ some x) ⊎ ((ys ≡ []) × (length (x ∷ xs) ≡ 1))))
          same
          (
            (remove_first-any (has_id x.key_id) id xs alone, size, remove_first-IsKeyring id xs h),
            inl refl,
          )
  ]
]
