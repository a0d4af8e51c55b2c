-- ===== src/Registry/Diff/Laws.antt =====
-- packages/registry/src/diff.ts: what the parts of a difference are.
use mavio_mcp.Base.{
  ◌+◌, String, true, none, some, List, [], ◌∷◌, map, ◌≡◌, refl, ap, arith, eq_iff, inl, inr,
  Bool-cases, Option-cases, length, str_eq,
}
use mavio_mcp.Base.Map.{Map, get, set, IsMap, set-IsMap}
use mavio_mcp.Core.{ToolDefinition, ServerCapabilities}
use mavio_mcp.Registry.Diff.{
  ToolChange, by_name, named_tools, removed_tools, hash, compare_tools, diff_capabilities,
}

abbrev pub names : List ToolChange → List String
names changes = map (λ c. c.name) changes

by_name-IsMap : (m : Map ToolDefinition) (ts : List ToolDefinition) → IsMap m → IsMap (by_name m ts)
unfolding by_name
by_name-IsMap m [] h = h
by_name-IsMap m (t ∷ ts) h = by_name-IsMap (set t.name t m) ts (set-IsMap t.name t m h)

named_tools-IsMap : (caps : ServerCapabilities) → IsMap (named_tools caps)
unfolding named_tools
named_tools-IsMap caps = by_name-IsMap [] _ tt

module _ (sha256_hex : String → String) where
  compare_tools-added :
      (before after : Map ToolDefinition)
      → names (compare_tools sha256_hex before after).added ≡ names (removed_tools before after)
  unfolding compare_tools removed_tools
  compare_tools-added before [] = refl
  compare_tools-added before ((name, tool) ∷ after) = elim (Option-cases (get name before)) [
    | inl new ↦
        rw (compare_tools, removed_tools, new)
          (ap (λ ns. name ∷ ns) (compare_tools-added before after))
    | inr (prior, found) ↦
        elim (Bool-cases (str_eq (hash sha256_hex prior) (hash sha256_hex tool))) [
          | inl same ↦
              rw (compare_tools, removed_tools, found, same) (compare_tools-added before after)
          | inr other ↦
              rw (compare_tools, removed_tools, found, other) (compare_tools-added before after)
        ]
  ]

  compare_tools-counts :
      (before after : Map ToolDefinition)
      → let d = compare_tools sha256_hex before after in
        length d.added + (length d.changed + d.unchanged) ≡ length after
  unfolding compare_tools
  compare_tools-counts before [] = omega arith
  compare_tools-counts before ((name, tool) ∷ after) = elim (Option-cases (get name before)) [
    | inl new ↦ rw (compare_tools, new) (omega (arith, compare_tools-counts before after))
    | inr (prior, found) ↦
        elim (Bool-cases (str_eq (hash sha256_hex prior) (hash sha256_hex tool))) [
          | inl same ↦
              rw (compare_tools, found, same) (omega (arith, compare_tools-counts before after))
          | inr other ↦
              rw (compare_tools, found, other) (omega (arith, compare_tools-counts before after))
        ]
  ]

  -- The names that are added from one state to another are those that are removed on the way back,
  -- in the same order.
  pub diff_capabilities-swap :
      (a b : ServerCapabilities)
      → names (diff_capabilities sha256_hex a b).added
        ≡ names (diff_capabilities sha256_hex b a).removed
  unfolding diff_capabilities
  diff_capabilities-swap a b = compare_tools-added (named_tools a) (named_tools b)

  -- Each tool after is counted once, as added, as changed or as unchanged.
  pub diff_capabilities-counts :
      (a b : ServerCapabilities)
      → let d = diff_capabilities sha256_hex a b in
        length d.added + (length d.changed + d.unchanged) ≡ length (named_tools b)
  unfolding diff_capabilities
  diff_capabilities-counts a b = compare_tools-counts (named_tools a) (named_tools b)

  -- Entries that the other map has too.
  abbrev Within : Map ToolDefinition → Map ToolDefinition → Type 0
  Within m [] = Unit
  Within m ((k, t) ∷ rest) = (get k m ≡ some t) × Within m rest

  Within-cons :
      (k : String) (t : ToolDefinition) (m rest : Map ToolDefinition)
      → get k rest ≡ none
      → Within m rest
      → Within ((k, t) ∷ m) rest
  Within-cons k t m [] new h = tt
  Within-cons k t m ((j, u) ∷ rest) new (here, h) =
      ground (arith, eq_iff k j, eq_iff j k, Within-cons k t m rest)

  Within-self : (m : Map ToolDefinition) → IsMap m → Within m m
  Within-self [] h = tt
  Within-self ((k, t) ∷ m) (new, h) =
      (ground (arith, eq_iff k k), Within-cons k t m m new (Within-self m h))

  abbrev Same : Map ToolDefinition → Map ToolDefinition → Type 0
  Same before after =
      let d = compare_tools sha256_hex before after in
      (d.added ≡ []) × (d.changed ≡ []) × (removed_tools before after ≡ [])

  Within-Same : (m rest : Map ToolDefinition) → Within m rest → Same m rest
  unfolding compare_tools removed_tools
  Within-Same m [] h = (refl, refl, refl)
  Within-Same m ((k, t) ∷ rest) (here, h) =
      let same : str_eq (hash sha256_hex t) (hash sha256_hex t) ≡ true =
        ground (arith, eq_iff (hash sha256_hex t) (hash sha256_hex t)) in
      rw (compare_tools, removed_tools, here, same) (Within-Same m rest h)

  -- Nothing differs from itself.
  pub diff_capabilities_self :
      (a : ServerCapabilities)
      → diff_capabilities sha256_hex a a
        ≡ record { added = []; removed = []; changed = []; unchanged = length (named_tools a) }
  unfolding diff_capabilities
  diff_capabilities_self a =
      let m : Map ToolDefinition = named_tools a in
      let (added, changed, removed) = Within-Same m m (Within-self m (named_tools-IsMap a)) in
      let unchanged : (compare_tools sha256_hex m m).unchanged ≡ length m =
        omega (arith, compare_tools-counts m m, ap length added, ap length changed) in
      rw (added, changed, removed, unchanged) refl
