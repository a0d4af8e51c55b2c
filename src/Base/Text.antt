-- ===== src/Base/Text.antt =====
-- Texts by their characters: decimal numerals, and the last colon of a text.
use Prim.Native.Char.{Char, code}
use Prim.Native.String.{[], ◌∷◌, ◌++◌}
use text.Mathlib.TextLemmas.{cons-append, nil-append}
use Prim.Native.Nat.{ℕ, zero, suc, ◌+◌, ◌-◌, ◌*◌, ◌/◌, ◌%◌, ◌≤◌, ◌<◌}
use Prim.Native.String.{String}
use mathlib.Core.Path.{◌≡◌, refl}
use mathlib.Core.Logic.{◌≢◌, inl, inr}
use mathlib.Core.Bool.{◌&&◌}
use mathlib.Core.Option.{Option, none, some}
use native.Mathlib.Omega.{arith}
use mavio_mcp.Base.Tests.{ltb, leb, ◌==◌, if◌then◌else◌, Bool-cases}

-- The digit of a number below 10.
abbrev digit : ℕ → Char
digit zero = "0"
digit (suc zero) = "1"
digit (suc (suc zero)) = "2"
digit (suc (suc (suc zero))) = "3"
digit (suc (suc (suc (suc zero)))) = "4"
digit (suc (suc (suc (suc (suc zero))))) = "5"
digit (suc (suc (suc (suc (suc (suc zero)))))) = "6"
digit (suc (suc (suc (suc (suc (suc (suc zero))))))) = "7"
digit (suc (suc (suc (suc (suc (suc (suc (suc zero)))))))) = "8"
digit _ = "9"

code-digit : (d : ℕ) → d < 10 → code (digit d) ≡ d + b'0'
code-digit zero h = refl
code-digit (suc zero) h = refl
code-digit (suc (suc zero)) h = refl
code-digit (suc (suc (suc zero))) h = refl
code-digit (suc (suc (suc (suc zero)))) h = refl
code-digit (suc (suc (suc (suc (suc zero))))) h = refl
code-digit (suc (suc (suc (suc (suc (suc zero)))))) h = refl
code-digit (suc (suc (suc (suc (suc (suc (suc zero))))))) h = refl
code-digit (suc (suc (suc (suc (suc (suc (suc (suc zero)))))))) h = refl
code-digit (suc (suc (suc (suc (suc (suc (suc (suc (suc zero))))))))) h = refl
code-digit (suc (suc (suc (suc (suc (suc (suc (suc (suc (suc d)))))))))) h = absurd (omega arith)

-- The decimal numeral of `n` in front of a text; the fuel is `n`.
show_onto : ℕ → ℕ → String → String
show_onto zero n s = digit n ∷ s
show_onto (suc fuel) n s =
    let more = show_onto fuel (n / 10) (digit (n % 10) ∷ s) in
    if ltb n 10 then digit n ∷ s else more

-- `String(n)`.
unfoldable pub show : ℕ → String
unfolding show_onto
show n = show_onto n n ""

-- The number that the digits of a text add to `acc`, if there are only digits.
read_onto : ℕ → String → Option ℕ
read_onto acc [] = some acc
read_onto acc (c ∷ s) =
    let rest = read_onto (acc * 10 + (code c - b'0')) s in
    if leb b'0' (code c) && leb (code c) b'9' then rest else none

-- `Number(text)` on a text of digits, where it is a natural number; the empty text counts as 0.
unfoldable pub read : String → Option ℕ
unfolding read_onto
read s = read_onto 0 s

read_onto-digit :
    (acc d : ℕ) (s : String) → d < 10 → read_onto acc (digit d ∷ s) ≡ read_onto (acc * 10 + d) s
unfolding read_onto
read_onto-digit acc d s h = ground (arith, code-digit d h)

read_onto-show_onto :
    (fuel n : ℕ) (s : String) → n ≤ fuel → read_onto 0 (show_onto fuel n s) ≡ read_onto n s
unfolding show_onto
read_onto-show_onto zero n s h = ground (arith, read_onto-digit 0 n s (omega arith))
read_onto-show_onto (suc fuel) n s h = elim (Bool-cases (ltb n 10)) [
  | inl small ↦ rw small (ground (arith, read_onto-digit 0 n s))
  | inr large ↦ rw large (
      ground (
        arith,
        read_onto-show_onto fuel (n / 10) (digit (n % 10) ∷ s),
        read_onto-digit (n / 10) (n % 10) s,
      ))
]

pub read-show : (n : ℕ) → read (show n) ≡ some n
unfolding read show read_onto
read-show n = read_onto-show_onto n n "" (omega arith)

-- `text.slice(0, i)` and `text.slice(i + 1)` at the last colon, at `i`.
unfoldable pub split_last_colon : String → Option (String × String)
split_last_colon [] = none
split_last_colon (c ∷ s) = elim (split_last_colon s) [
  | none ↦ if code c == b':' then some ("", s) else none
  | some (before, after) ↦ some (c ∷ before, after)
]

abbrev NoColon : String → Type 0
NoColon [] = Unit
NoColon (c ∷ s) = (code c ≢ b':') × NoColon s

split-NoColon : (s : String) → NoColon s → split_last_colon s ≡ none
unfolding split_last_colon
split-NoColon [] h = refl
split-NoColon (c ∷ s) (p, h) = rw (split-NoColon s h) (ground arith)

split-append : (s t : String) → NoColon t → split_last_colon (s ++ (":" ∷ t)) ≡ some (s, t)
unfolding split_last_colon
split-append [] t h = rw (nil-append, split_last_colon, split-NoColon t h)
split-append (c ∷ s) t h = rw (cons-append, split_last_colon, split-append s t h)

show_onto-NoColon : (fuel n : ℕ) (s : String) → n ≤ fuel → NoColon s → NoColon (show_onto fuel n s)
unfolding show_onto
show_onto-NoColon zero n s le h = (ground (arith, code-digit n (omega arith)), h)
show_onto-NoColon (suc fuel) n s le h = elim (Bool-cases (ltb n 10)) [
  | inl small ↦ rw small (ground (arith, code-digit n), h)
  | inr large ↦ rw large (
      show_onto-NoColon fuel (n / 10) (digit (n % 10) ∷ s) (ground arith)
        (ground (arith, code-digit (n % 10)), h))
]

pub split_last_colon-show :
    (s : String) (n : ℕ) → split_last_colon (s ++ (":" ∷ show n)) ≡ some (s, show n)
unfolding show
split_last_colon-show s n = split-append s (show n) (show_onto-NoColon n n "" (omega arith) tt)

-- `text.length`: characters outside the basic plane count twice.
unfoldable pub utf16_length : String → ℕ
utf16_length [] = 0
utf16_length (c ∷ s) = (if ltb (code c) 65536 then 1 else 2) + utf16_length s

pub split_last_colon-ne-none : (s t : String) → split_last_colon (s ++ (":" ∷ t)) ≢ none
unfolding split_last_colon
split_last_colon-ne-none [] t = rw nil-append (ground arith)
split_last_colon-ne-none (c ∷ s) t = rw cons-append (ground (arith, split_last_colon-ne-none s t))
