-- ===== src/Router/Names.antt =====
-- apps/server/src/router.service.ts: names of tools, `server.tool`, listed and split.
use Prim.Native.Char.{code}
use Prim.Native.String.{[], ◌∷◌, ◌++◌}
use text.Mathlib.TextLemmas.{cons-append, nil-append}
use mavio_mcp.Base.{String, Option, none, some, ◌≡◌, ◌≢◌, arith, ◌==◌, if◌then◌else◌}

-- `fqName.slice(0, dot)` and `fqName.slice(dot + 1)` for `dot = fqName.indexOf(".")`.
unfoldable pub split_name : String → Option (String × String)
split_name [] = none
split_name (c ∷ s) =
    let rest = split_name s in
    if code c == b'.'
    then some ("", s)
    else elim rest [ none ↦ none | some (server, tool) ↦ some (c ∷ server, tool) ]

unfoldable pub full_name : String → String → String
full_name server_id tool_name = server_id ++ ("." ∷ tool_name)

abbrev pub NoDot : String → Type 0
NoDot [] = Unit
NoDot (c ∷ s) = (code c ≢ b'.') × NoDot s

-- The name under which a tool is listed is split into its server and its tool, if the id of the
-- server has no dot.
pub split_name-full_name :
    (server_id tool_name : String)
    → NoDot server_id
    → split_name (full_name server_id tool_name) ≡ some (server_id, tool_name)
unfolding split_name full_name
split_name-full_name [] tool_name h = rw nil-append (ground arith)
split_name-full_name (c ∷ s) tool_name (p, h) =
    rw cons-append (ground (arith, split_name-full_name s tool_name h))
