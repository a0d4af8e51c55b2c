-- ===== src/Rbac/Remote/Tests.antt =====
-- The policy engine over HTTP at concrete answers.
use mavio_mcp.Base.{ℕ, ◌≡◌, ◌↔◌, ◌<◌, refl, String, Bool, true, false, none, some, arith}
use mavio_mcp.Json.{Json, Fields, bool, str, null, obj, field, end, prop, lookup_field}
use mavio_mcp.Rbac.Remote.{
  Fetched, fetched, threw, allow_field, extract_allow, decided, unrecognized, parse_nested,
  parse_result, parse_object, parse_decision, remote_can,
}
use mavio_mcp.Rbac.Remote.Shapes.{Allows, remote_can-Allows, parse_decision-allowed_iff}

Remote_engine : Unit {0}
unfolding prop lookup_field allow_field extract_allow parse_nested parse_result parse_object
    parse_decision remote_can mavio_mcp.Base.Text.show
Remote_engine = tt

abbrev allowing_result : Fields
allowing_result =
    field "allow" null
      (field "result" (obj (field "allow" (bool true) (field "reason" (str "rule 7") end))) end)

abbrev response : Json → Fetched
response v = fetched 200 (some v) ""

nested_allows : remote_can false (response (obj allowing_result)) ≡ decided true "rule 7"
unfolding Remote_engine
nested_allows = refl

is_allowed : (remote_can false (response (obj allowing_result))).allowed ≡ true
unfolding Remote_engine
is_allowed = refl

refused_status :
    remote_can true (fetched 500 (some (bool true)) "") ≡ decided false "policy service 500"
unfolding Remote_engine
refused_status = refl

unreachable : remote_can false (threw "timeout") ≡ decided false "policy service error: timeout"
unfolding Remote_engine
unreachable = refl

remote_can-Allows_example :
    (status : ℕ) × (v : Json) × (message : String) × (response (obj allowing_result)
      ≡ fetched status (some v) message)
    × (status < 400)
    × Allows v
remote_can-Allows_example = remote_can-Allows false (response (obj allowing_result)) is_allowed

-- What OPA answers at the address of a rule that is a boolean.
abbrev rule_result : Fields
rule_result = field "result" (bool true) end

boolean_result : parse_decision (obj rule_result) ≡ unrecognized
unfolding Remote_engine
boolean_result = refl

parse_decision-allowed_iff_example :
    ((parse_decision (obj rule_result)).allowed ≡ true) ↔ Allows (obj rule_result)
parse_decision-allowed_iff_example = parse_decision-allowed_iff (obj rule_result)
