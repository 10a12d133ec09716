-- ===== src/Mcp/Server/Scopes.antt =====
-- app/mcp/server.py: TOOL_SCOPE beside the groups.
use mcp_agent_gateway.Base.{
  String, string_eq, contains, contains-append, or_else, true, false, ◌&&◌, Option, none, some,
  List, [], ◌∷◌, ◌++◌, ◌≡◌, refl, inl, inr, Bool-cases, All, arith, if◌then◌else◌,
}
use mcp_agent_gateway.Base.Dict.{Dict, lookup, insert, lookup-insert}
use mcp_agent_gateway.Mcp.Server.{Group, add_tools, add_groups, tool_scope, scope_ok, visible_tools}

abbrev pub all_tools : List Group → List String
all_tools [] = []
all_tools (g ∷ gs) = g.tools ++ all_tools gs

-- No tool of a group is in a later one.
abbrev pub Disjoint : List Group → Type 0
Disjoint [] = Unit
Disjoint (g ∷ gs) = All (λ tool. contains (all_tools gs) tool ≡ false) g.tools × Disjoint gs

not_later :
    (later names : List String) (n : String)
    → All (λ tool. contains later tool ≡ false) names
    → contains names n ≡ true
    → contains later n ≡ false
unfolding contains
not_later later [] n h c = ground arith
not_later later (x ∷ names) n (h, hs) c = elim (string_eq.dec n x) [
  | yes same ↦ rw same h
  | no differ ↦ not_later later names n hs (ground arith)
]

lookup-add_tools :
    (required : Option String) (tools : List String) (scope : Dict String (Option String))
    (n : String)
    → lookup n (add_tools required tools scope)
      ≡ (if contains tools n then some required else lookup n scope)
unfolding add_tools contains
lookup-add_tools required [] scope n = refl
lookup-add_tools required (tool ∷ tools) scope n = ground (
  arith,
  lookup-add_tools required tools (insert tool required scope) n,
  lookup-insert n tool required scope,
)

lookup-add_groups :
    (gs : List Group) (scope : Dict String (Option String)) (n : String)
    → contains (all_tools gs) n ≡ false
    → lookup n (add_groups gs scope) ≡ lookup n scope
unfolding add_groups
lookup-add_groups [] scope n h = refl
lookup-add_groups (g ∷ gs) scope n h = ground (
  arith,
  contains-append g.tools (all_tools gs) n,
  lookup-add_groups gs (add_tools g.required g.tools scope) n,
  lookup-add_tools g.required g.tools scope n,
)

hidden :
    (gs : List Group) (scopes : List String) (n : String)
    → contains (all_tools gs) n ≡ false
    → contains (visible_tools gs scopes) n ≡ false
unfolding visible_tools contains
hidden [] scopes n h = refl
hidden (g ∷ gs) scopes n h = ground (
  arith,
  contains-append g.tools (all_tools gs) n,
  contains-append g.tools (visible_tools gs scopes) n,
  hidden gs scopes n,
)

visible_from :
    (gs : List Group) (scope : Dict String (Option String)) (scopes : List String) (n : String)
    → Disjoint gs
    → contains (all_tools gs) n ≡ true
    → contains (visible_tools gs scopes) n
      ≡ scope_ok (or_else (lookup n (add_groups gs scope)) none) scopes
unfolding visible_tools add_groups contains or_else
visible_from [] scope scopes n d h = ground arith
visible_from (g ∷ gs) scope scopes n (d, ds) h = elim (Bool-cases (contains g.tools n)) [
  | inl here ↦
      let later = not_later (all_tools gs) g.tools n d here in
      ground (
        arith,
        contains-append g.tools (visible_tools gs scopes) n,
        hidden gs scopes n later,
        lookup-add_groups gs (add_tools g.required g.tools scope) n later,
        lookup-add_tools g.required g.tools scope n,
      )
  | inr elsewhere ↦
      let there : contains (all_tools gs) n ≡ true =
        ground (arith, contains-append g.tools (all_tools gs) n) in
      ground (
        arith,
        contains-append g.tools (visible_tools gs scopes) n,
        visible_from gs (add_tools g.required g.tools scope) scopes n ds there,
      )
]

-- When no tool is in two groups: a tool is listed to a caller exactly if some group has it and the
-- scope that TOOL_SCOPE names for it is one of the caller's.
pub contains-visible_tools :
    (gs : List Group) (scopes : List String) (n : String)
    → Disjoint gs
    → contains (visible_tools gs scopes) n
      ≡ (contains (all_tools gs) n && scope_ok (or_else (lookup n (tool_scope gs)) none) scopes)
unfolding tool_scope
contains-visible_tools gs scopes n d = elim (Bool-cases (contains (all_tools gs) n)) [
  | inl known ↦ rw known (visible_from gs [] scopes n d known)
  | inr unknown ↦ rw unknown (hidden gs scopes n unknown)
]
