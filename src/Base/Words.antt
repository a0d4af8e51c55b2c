-- ===== src/Base/Words.antt =====
-- Texts of headers and settings: blanks, parts, prefixes and case.
use Prim.Native.Char.{code}
use Prim.Native.Nat.{ℕ}
use Prim.Native.String.{String}
use mathlib.Core.Bool.{Bool, true, false, ◌&&◌, ◌||◌, not}
use mathlib.Core.List.{List, map}
use mathlib.Core.Option.{Option, none, some}
use mavio_mcp.Base.Tests.{ltb, leb, ◌==◌, str_eq, if◌then◌else◌}
use mavio_mcp.Base.Lists.{keep}

abbrev pub is_blank : ℕ → Bool
is_blank c = c == 32 || ((ltb 8 c && ltb c 14) || (c == 160 || c == 65279))

unfoldable pub trim_start : String → String
trim_start String.[] = ""
trim_start (String.◌∷◌ c s) = if is_blank (code c) then trim_start s else String.◌∷◌ c s

unfoldable pub trim_end : String → String
trim_end String.[] = ""
trim_end (String.◌∷◌ c s) =
    let rest = trim_end s in if str_eq rest "" && is_blank (code c) then "" else String.◌∷◌ c rest

-- `text.trim()`, for the blanks of the basic Latin block, U+00A0 and U+FEFF.
unfoldable pub trim : String → String
trim s = trim_end (trim_start s)

-- `text.split(c)` for one character: the part before the first one, and the other parts.
unfoldable pub split_at : ℕ → String → String × List String
split_at c String.[] = ("", List.[])
split_at c (String.◌∷◌ d s) =
    let (part, parts) = split_at c s in
    if code d == c then ("", List.◌∷◌ part parts) else (String.◌∷◌ d part, parts)

unfoldable pub split_on : ℕ → String → List String
unfolding split_at
split_on c s = let (part, parts) = split_at c s in List.◌∷◌ part parts

-- The parts at commas, trimmed, without those that are empty.
unfoldable pub comma_list : String → List String
unfolding split_on trim
comma_list s = keep (λ part. not (str_eq part "")) (map trim (split_on b',' s))

-- What follows a prefix.
unfoldable pub after_prefix : String → String → Option String
after_prefix String.[] s = some s
after_prefix (String.◌∷◌ c p) String.[] = none
after_prefix (String.◌∷◌ c p) (String.◌∷◌ d s) =
    let rest = after_prefix p s in if code c == code d then rest else none

abbrev pub starts_with : String → String → Bool
starts_with p s = elim (after_prefix p s) [ none ↦ false | some _ ↦ true ]

-- The code of the small letter, for A to Z.
abbrev lower_code : ℕ → ℕ
lower_code c = if leb b'A' c && leb c b'Z' then Prim.Native.Nat.◌+◌ c 32 else c

-- Whether a text is another one in small letters, whatever its case.
unfoldable pub same_letters : String → String → Bool
same_letters String.[] String.[] = true
same_letters (String.◌∷◌ c s) (String.◌∷◌ d t) =
    let rest = same_letters s t in (lower_code (code c) == code d) && rest
same_letters _ _ = false

-- What follows a prefix, given in small letters, whatever the case of the text.
unfoldable pub after_letters : String → String → Option String
after_letters String.[] s = some s
after_letters (String.◌∷◌ c p) String.[] = none
after_letters (String.◌∷◌ c p) (String.◌∷◌ d s) =
    let rest = after_letters p s in if code c == lower_code (code d) then rest else none
