-- ===== src/Rbac/Remote.antt =====
-- packages/rbac-opa/src/index.ts: `RemoteHttpPolicyEngine.can`, on what the request to the policy
-- service comes to.
pub mod Fields
pub mod Shapes
mod Tests
use Prim.Native.String.{◌++◌}
use mavio_mcp.Base.{ℕ, String, Bool, true, false, not, Option, none, some, leb, if◌then◌else◌}
use mavio_mcp.Base.Text.{show}
use mavio_mcp.Json.{Json, null, bool, str, arr, obj, prop}
use mavio_mcp.Rbac.{Decision}

-- `fetched` is a response with the body that `res.body.json()` reads, or the message that it
-- throws; `threw` is what `request` throws.
pub data Fetched : Type 0 where
  fetched : ℕ → Option Json → String → Fetched
  threw : String → Fetched

pub record Allow : Type 0 where
  pub allow : Bool
  pub reason : Option String

-- `a ?? b`.
abbrev pub or_else : Option Json → Option Json → Option Json
or_else none b = b
or_else (some null) b = b
or_else (some v) b = some v

abbrev pub text_or_none : Option Json → Option String
text_or_none (some (str s)) = some s
text_or_none _ = none

-- `obj.allow ?? obj.decision ?? obj.allowed`.
unfoldable pub allow_field : Json → Option Json
unfolding prop
allow_field v = or_else (or_else (prop "allow" v) (prop "decision" v)) (prop "allowed" v)

-- `typeof allow === "boolean"`, with the reason that goes with it.
abbrev pub boolean_allow : Option Json → Option String → Option Allow
boolean_allow (some (bool b)) reason = some (record { allow = b; reason = reason })
boolean_allow _ reason = none

unfoldable pub extract_allow : Json → Option Allow
unfolding allow_field prop
extract_allow v = boolean_allow (allow_field v) (text_or_none (prop "reason" v))

abbrev pub remote_reason : Bool → String
remote_reason b = if b then "remote allow" else "remote deny"

abbrev reason_or : Bool → Option String → String
reason_or b none = remote_reason b
reason_or b (some r) = r

abbrev pub decided : Bool → String → Decision
decided allowed reason = record { allowed = allowed; reason = reason; matched = none }

abbrev pub unrecognized : Decision
unrecognized = decided false "policy service returned unrecognized shape"

abbrev pub decision_of : Allow → Decision
decision_of a = decided a.allow (reason_or a.allow a.reason)

-- `typeof nested === "boolean"`, and what follows the last test.
abbrev pub nested_boolean : Json → Decision
nested_boolean (bool b) = decided b (remote_reason b)
nested_boolean _ = unrecognized

-- What `parseDecision` makes of `obj.result` once it is an object or an array. It looks for a boolean
-- again after that.
unfoldable pub parse_nested : Json → Decision
unfolding extract_allow
parse_nested v = elim (extract_allow v) [ some a ↦ decision_of a | none ↦ nested_boolean v ]

-- `nested && typeof nested === "object"`.
unfoldable pub parse_result : Option Json → Decision
unfolding parse_nested
parse_result (some (obj fs)) = parse_nested (obj fs)
parse_result (some (arr vs)) = parse_nested (arr vs)
parse_result _ = unrecognized

unfoldable pub parse_object : Json → Decision
unfolding extract_allow prop parse_result
parse_object v = elim (extract_allow v) [
  | some a ↦ decision_of a
  | none ↦ parse_result (prop "result" v)
]

unfoldable pub parse_decision : Json → Decision
unfolding parse_object
parse_decision (bool b) = decided b (remote_reason b)
parse_decision (obj fs) = parse_object (obj fs)
parse_decision (arr vs) = parse_object (arr vs)
parse_decision _ = unrecognized

unfoldable pub remote_can : Bool → Fetched → Decision
unfolding parse_decision
remote_can fail_closed (threw message) = decided false ("policy service error: " ++ message)
remote_can fail_closed (fetched status body message) =
    if leb 400 status
    then decided (if not fail_closed then false else false) ("policy service " ++ show status)
    else elim body [
      | none ↦ decided false ("policy service error: " ++ message)
      | some v ↦ parse_decision v
    ]
