-- ===== src/Events/Render.antt =====
-- apps/server/src/event-bridge.util.ts: `renderArgs` and `renderValue`. A value that is undefined
-- is `none`, and a field whose value is undefined is left out. `Object.entries` is the list of a
-- map's entries.
use Prim.Native.Char.{Char, code}
use Prim.Native.String.{[], ◌∷◌}
use mavio_mcp.Base.{
  ℕ, zero, suc, String, Bool, ◌&&◌, ◌||◌, Option, none, some, List, leb, ◌==◌, str_eq,
  if◌then◌else◌,
}
use mavio_mcp.Base.Map.{Map}
use mavio_mcp.Base.Text.{show, read}
use mavio_mcp.Json.{Json, num, str, arr, obj, Items, nil, cons, Fields, end, field, prop}

-- `\w` of a regular expression.
abbrev is_word : Char → Bool
is_word c =
    (leb b'0' (code c) && leb (code c) b'9')
    || ((leb b'A' (code c) && leb (code c) b'Z')
        || ((leb b'a' (code c) && leb (code c) b'z') || code c == b'_'))

-- The path of `${body.path}` from behind `${body.`, up to the brace that must be last; its
-- segments are separated by dots.
unfoldable pub path_segments : String → Option (String × List String)
path_segments [] = none
path_segments (c ∷ s) =
    let rest = path_segments s in
    if code c == 125
    then if str_eq s "" then some ("", List.[]) else none
    else if code c == b'.'
    then elim rest [ none ↦ none | some (seg, segs) ↦ some ("", List.◌∷◌ seg segs) ]
    else if is_word c
    then elim rest [ none ↦ none | some (seg, segs) ↦ some (c ∷ seg, segs) ]
    else none

unfoldable pub strip_prefix : String → String → Option String
strip_prefix [] s = some s
strip_prefix (c ∷ p) [] = none
strip_prefix (c ∷ p) (d ∷ s) =
    let rest = strip_prefix p s in if code c == code d then rest else none

-- What a text asks for.
pub data Template : Type 0 where
  verbatim : Template
  whole_body : Template
  body_path : List String → Template

abbrev path_of : Option (String × List String) → Template
path_of none = verbatim
path_of (some (seg, List.[])) = if str_eq seg "" then verbatim else body_path (List.◌∷◌ seg List.[])
path_of (some (seg, List.◌∷◌ s segs)) = body_path (List.◌∷◌ seg (List.◌∷◌ s segs))

abbrev behind_body : Option String → Template
behind_body none = verbatim
behind_body (some s) =
    if str_eq s "}"
    then whole_body
    else elim (strip_prefix "." s) [ none ↦ verbatim | some path ↦ path_of (path_segments path) ]

unfoldable pub read_template : String → Template
read_template s = behind_body (strip_prefix "${body" s)

abbrev count_items : Items → ℕ
count_items nil = 0
count_items (cons j js) = suc (count_items js)

abbrev nth_item : ℕ → Items → Option Json
nth_item n nil = none
nth_item zero (cons j js) = some j
nth_item (suc n) (cons j js) = nth_item n js

abbrev index_item : String → Items → Option ℕ → Option Json
index_item seg xs none = none
index_item seg xs (some n) = if str_eq (show n) seg then nth_item n xs else none

-- `cur[seg]`, undefined where `cur` is no object; what objects inherit is left out.
abbrev pub member : String → Json → Option Json
member seg (obj fs) = prop seg (obj fs)
member seg (arr xs) =
    if str_eq seg "length" then some (num (count_items xs)) else index_item seg xs (read seg)
member seg _ = none

unfoldable pub walk : List String → Json → Option Json
walk List.[] cur = some cur
walk (List.◌∷◌ seg segs) cur = elim (member seg cur) [ none ↦ none | some v ↦ walk segs v ]

abbrev render_template : Template → String → Json → Option Json
render_template verbatim s body = some (str s)
render_template whole_body s body = some body
render_template (body_path segs) s body = walk segs body

unfoldable pub render_value : Json → Json → Option Json
render_value (str s) body = render_template (read_template s) s body
render_value v body = some v

abbrev with_field : String → Option Json → Fields → Fields
with_field k none fs = fs
with_field k (some v) fs = field k v fs

-- The loop of `renderArgs` over the entries of the template.
unfoldable pub render_entries : Map Json → Json → Fields
render_entries List.[] body = end
render_entries (List.◌∷◌ (k, v) rest) body =
    with_field k (render_value v body) (render_entries rest body)

unfoldable pub render_args : Option (Map Json) → Json → Json
render_args none (obj fs) = obj fs
render_args none (arr xs) = arr xs
render_args none body = obj (field "body" body end)
render_args (some template) body = obj (render_entries template body)
