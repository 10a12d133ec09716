-- ===== src/Tests/Seeding.antt =====
-- The seeding of a realm at concrete data.
use mcp_agent_gateway.Base.{String, string_eq, char_eq, ◌<>◌, contains, false, [], ◌∷◌, ◌≡◌, refl}
use mcp_agent_gateway.Base.Json.{text, array, object, no_items, item, Members, get_member}
use mcp_agent_gateway.Base.Result.{ok}
use mcp_agent_gateway.RoleSeeding.{
  client_id, client, fields, client_roles, users, user_items, title, set_member, append_items,
  is_among_names, keep_others, items_of, object_of, seed_entries, seed_roles, seed,
}
use mcp_agent_gateway.RoleSeeding.Idempotent.{seed_again}

abbrev uuid5 : String → String
uuid5 name = "5-" <> name

-- a realm with another client, which stays, and an older one of the gateway
abbrev realm : Members
realm = fields (
    ("realm", text "mcp-gateway")
    ∷ (
      "clients",
      array (
          item (object (fields (("clientId", text client_id) ∷ [])))
            (item (object (fields (("clientId", text "other") ∷ []))) no_items)),
    )
    ∷ [])

abbrev after : Members
after = fields (
    ("realm", text "mcp-gateway")
    ∷ (
      "clients",
      array (
          item (object (fields (("clientId", text "other") ∷ []))) (item (object client) no_items)),
    )
    ∷ ("roles", object (fields (("client", object (fields ((client_id, client_roles) ∷ []))) ∷ [])))
    ∷ ("users", array (user_items uuid5 users))
    ∷ [])

seed_runs : seed uuid5 realm ≡ ok after
unfolding seed seed_entries seed_roles items_of object_of keep_others is_among_names append_items
    set_member get_member contains string_eq
seed_runs = refl

seed_again_example : seed uuid5 after ≡ ok after
seed_again_example = seed_again uuid5 realm after seed_runs

title_runs : title false "rayray" ≡ "Rayray"
unfolding title char_eq
title_runs = refl
