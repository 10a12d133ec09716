-- ===== src/Mcp/Server/Visible.antt =====
-- app/mcp/server.py: which tools a caller can use.
use mcp_agent_gateway.Base.{
  String, string_eq, contains, or_else, true, false, none, some, List, [], ◌∷◌, ◌≡◌, refl, ◌⊎◌, inl,
  inr, Bool-cases, arith,
}
use mcp_agent_gateway.Base.Dict.{Dict, keys, lookup}
use mcp_agent_gateway.Mcp.Server.{
  groups, tool_scope, scope_ok, visible_tools, Handler, Handlers, build_registry, unknown_tool,
  call,
}
use mcp_agent_gateway.Mcp.Server.Scopes.{all_tools, Disjoint, contains-visible_tools}

pub groups-Disjoint : Disjoint groups
unfolding contains string_eq
groups-Disjoint = ((refl, (refl, (refl, tt))), ((refl, (refl, tt)), ((refl, (refl, tt)), tt)))

-- Either a key is missing or it has a value.
known_or_not :
    {V : Type 0} (d : Dict String V) (n : String)
    → ((contains (keys d) n ≡ false) × (lookup n d ≡ none))
      ⊎ ((v : V) × (contains (keys d) n ≡ true) × (lookup n d ≡ some v))
unfolding contains lookup keys
known_or_not [] n = inl (refl, refl)
known_or_not ((k, v) ∷ d) n = elim (string_eq.dec n k) [
  | yes same ↦ inr (v, ground arith, ground arith)
  | no differ ↦ elim (known_or_not d n) [
    | inl (unknown, absent) ↦ inl (ground arith, ground arith)
    | inr (w, known, found) ↦ inr (w, ground arith, ground arith)
  ]
]

module _ {A R W : Type 0} (h : Handlers A R W) where
  registered_iff :
      (n : String)
      → ((contains (all_tools groups) n ≡ false) × (lookup n (build_registry h) ≡ none))
        ⊎ ((handler : Handler A R W) × (contains (all_tools groups) n ≡ true)
            × (lookup n (build_registry h) ≡ some handler))
  unfolding build_registry keys
  registered_iff n = known_or_not (build_registry h) n

  -- A call of a tool that is listed to the caller runs its handler; a call of any other name, be it of
  -- a tool that exists or not, gives the error for an unknown tool and changes nothing.
  pub call-visible :
      (scopes : List String) (n : String) (arguments : A) (w : W)
      → ((contains (visible_tools groups scopes) n ≡ false)
          × (call groups (build_registry h) scopes n arguments w
              ≡ unknown_tool groups (build_registry h) n w))
        ⊎ ((handler : Handler A R W) × (contains (visible_tools groups scopes) n ≡ true)
            × (lookup n (build_registry h) ≡ some handler)
            × (call groups (build_registry h) scopes n arguments w ≡ handler arguments w))
  unfolding call
  call-visible scopes n arguments w =
      let seen = contains-visible_tools groups scopes n groups-Disjoint in
      elim (registered_iff n) [
        | inl (unknown, absent) ↦ inl (ground (arith, seen), ground arith)
        | inr (handler, known, found) ↦
            elim (Bool-cases (scope_ok (or_else (lookup n (tool_scope groups)) none) scopes)) [
              | inl allowed ↦ inr (handler, ground (arith, seen), found, ground arith)
              | inr denied ↦ inl (ground (arith, seen), ground arith)
            ]
      ]
