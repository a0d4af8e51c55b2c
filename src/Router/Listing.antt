-- ===== src/Router/Listing.antt =====
-- apps/server/src/router.service.ts: the tools that `listAllTools` names can be called by their
-- names.
use mathlib.Core.Path.{subst}
use mavio_mcp.Base.{
  String, Option, none, some, List, [], ◌∷◌, map, ◌≡◌, inl, inr, Option-cases, All, All-append,
  All-keep,
}
use mavio_mcp.Core.{ToolDefinition, ServerDescriptor}
use mavio_mcp.Router.{Backends}
use mavio_mcp.Router.Names.{split_name, NoDot, split_name-full_name}
use mavio_mcp.Router.Request.{given}
use mavio_mcp.Router.Dispatch.{load_capabilities}
use mavio_mcp.Router.Handle.{
  ListedTool, listed, tools_of, list_tools_of, list_all_tools, load_servers, filter_by_region,
}

-- The name is split into the id of the server and the rest.
abbrev pub Callable : ListedTool → Type 0
Callable l = (tool_name : String) × (split_name l.tool.name ≡ some (l.server, tool_name))

abbrev pub Undotted : ServerDescriptor → Type 0
Undotted d = NoDot d.id

listed-Callable :
    (id : String) → NoDot id → (ts : List ToolDefinition) → All Callable (map (listed id) ts)
listed-Callable id h [] = tt
listed-Callable id h (t ∷ ts) =
    ((t.name, split_name-full_name id t.name h), listed-Callable id h ts)

filter-Undotted :
    (region : Option String) (servers : List ServerDescriptor)
    → All Undotted servers
    → All Undotted (filter_by_region region servers)
unfolding filter_by_region
filter-Undotted region servers h = elim (Option-cases (given region)) [
  | inl anywhere ↦ rw (filter_by_region, anywhere) h
  | inr (r, chosen) ↦ rw (filter_by_region, chosen) (All-keep Undotted _ servers h)
]

abbrev pub cached_or :
    List ServerDescriptor → Option (List ServerDescriptor) → List ServerDescriptor
cached_or servers none = servers
cached_or servers (some cached) = cached

module _ {W : Type 0} (b : Backends W) where
  open b use {get_server_list, registry_list}

  list_tools_of-Callable :
      (w : W) (servers : List ServerDescriptor)
      → All Undotted servers
      → All Callable (list_tools_of b w servers).1
  unfolding list_tools_of
  list_tools_of-Callable w [] h = tt
  list_tools_of-Callable w (s ∷ servers) (here, h) =
      let (w1, caps) = load_capabilities b w s.id in
      All-append Callable (map (listed s.id) (tools_of caps)) _
        (listed-Callable s.id here (tools_of caps)) (list_tools_of-Callable w1 servers h)

  -- The servers that `loadServers` reads: those of the cache, or of the registry.
  abbrev pub known_servers : W → List ServerDescriptor
  known_servers w = cached_or (registry_list w) (get_server_list w)

  -- If no id of a server has a dot, every tool that is listed has a name that `callTool` splits
  -- into the server that has the tool and the name of a tool.
  pub list_all_tools-Callable :
      (region : Option String) (w : W)
      → All Undotted (known_servers w)
      → All Callable (list_all_tools b region w).1
  unfolding list_all_tools load_servers
  list_all_tools-Callable region w h = elim (Option-cases (get_server_list w)) [
    | inl missing ↦
        rw (list_all_tools, load_servers, missing)
          (list_tools_of-Callable _ _ (
            filter-Undotted region (registry_list w)
              (subst (λ o. All Undotted (cached_or (registry_list w) o)) missing h)))
    | inr (cached, found) ↦
        rw (list_all_tools, load_servers, found)
          (list_tools_of-Callable _ _ (
            filter-Undotted region cached
              (subst (λ o. All Undotted (cached_or (registry_list w) o)) found h)))
  ]
