-- ===== src/Json/Print.antt =====
-- `JSON.stringify` of the language, on JSON values: no white space, fields in their order.
use Prim.Native.Char.{code}
use Prim.Native.String.{◌∷◌, ◌++◌}
use mavio_mcp.Base.{ℕ, zero, suc, ◌/◌, ◌%◌, String, Bool, true, false, ltb, ◌==◌, if◌then◌else◌}
use mavio_mcp.Base.Text.{show}
use mavio_mcp.Json.{Json, null, bool, num, neg, str, arr, obj, Items, nil, cons, Fields, end, field}

abbrev hex_digit : ℕ → String
hex_digit (suc (suc (suc (suc (suc (suc (suc (suc (suc (suc zero)))))))))) = "a"
hex_digit (suc (suc (suc (suc (suc (suc (suc (suc (suc (suc (suc zero))))))))))) = "b"
hex_digit (suc (suc (suc (suc (suc (suc (suc (suc (suc (suc (suc (suc zero)))))))))))) = "c"
hex_digit (suc (suc (suc (suc (suc (suc (suc (suc (suc (suc (suc (suc (suc zero))))))))))))) = "d"
hex_digit (suc (suc (suc (suc (suc (suc (suc (suc (suc (suc (suc (suc (suc (suc zero)))))))))))))) =
    "e"
hex_digit
      (suc
        (suc (suc (suc (suc (suc (suc (suc (suc (suc (suc (suc (suc (suc (suc zero))))))))))))))) =
    "f"
hex_digit n = show n

-- A control character, by its code below 32.
abbrev escape_control : ℕ → String
escape_control n =
    if n == 8
    then "\\b"
    else if n == 9
    then "\\t"
    else if n == 10
    then "\\n"
    else if n == 12
    then "\\f"
    else if n == 13
    then "\\r"
    else ("\\u00" ++ (show (n / 16) ++ hex_digit (n % 16)))

escape : String → String
escape String.[] = ""
escape (c ∷ s) =
    let rest = escape s in
    if code c == b'"'
    then ("\\\"" ++ rest)
    else if code c == 92
    then ("\\\\" ++ rest)
    else if ltb (code c) 32
    then escape_control (code c) ++ rest
    else c ∷ rest

unfoldable pub quoted : String → String
unfolding escape
quoted s = "\"" ++ (escape s ++ "\"")

abbrev comma : Bool → String
comma true = ""
comma false = ","

unfoldable mutual
  unfolding quoted

  pub stringify : Json → String
  stringify null = "null"
  stringify (bool true) = "true"
  stringify (bool false) = "false"
  stringify (num n) = show n
  stringify (neg n) = "-" ++ show (suc n)
  stringify (str s) = quoted s
  stringify (arr xs) = "[" ++ (stringify_items true xs ++ "]")
  stringify (obj fs) = "{" ++ (stringify_fields true fs ++ "}")

  pub stringify_items : Bool → Items → String
  stringify_items first nil = ""
  stringify_items first (cons x xs) = comma first ++ (stringify x ++ stringify_items false xs)

  pub stringify_fields : Bool → Fields → String
  stringify_fields first end = ""
  stringify_fields first (field k v fs) =
      comma first ++ (quoted k ++ (":" ++ (stringify v ++ stringify_fields false fs)))
