-- ===== src/RoleSeeding.antt =====
-- compose/local/keycloak/seed_rbac.py, on the object that realm.json holds; `uuid5` in the DNS
-- namespace is an argument, and so are the reading and the writing of the file.
pub mod Sections
pub mod Idempotent
use Prim.Native.Char.{Char}
use Prim.Native.String
use mcp_agent_gateway.Base.{
  String, string_eq, char_eq, ◌<>◌, ◌==◌, contains, Bool, true, false, ◌||◌, not, Option, none,
  some, List, [], ◌∷◌, if◌then◌else◌,
}
use mcp_agent_gateway.Base.Json.{
  Json, null, bool, number, text, array, object, Items, no_items, item, Members, no_members, member,
  get_member,
}
use mcp_agent_gateway.Base.Result.{Result, ok, raise, ◌>>=◌}

abbrev pub client_id : String
client_id = "mcp-gateway"

abbrev pub text_items : List String → Items
text_items [] = no_items
text_items (s ∷ rest) = item (text s) (text_items rest)

abbrev pub fields : List (String × Json) → Members
fields [] = no_members
fields ((k, v) ∷ rest) = member k v (fields rest)

-- CLIENT
abbrev pub client : Members
client = fields (
    ("id", text "11111111-1111-1111-1111-111111111111")
    ∷ ("clientId", text client_id)
    ∷ ("enabled", bool true)
    ∷ ("protocol", text "openid-connect")
    ∷ ("publicClient", bool false)
    ∷ ("clientAuthenticatorType", text "client-secret")
    ∷ ("secret", text "mcp-gateway-secret")
    ∷ ("standardFlowEnabled", bool false)
    ∷ ("implicitFlowEnabled", bool false)
    ∷ ("directAccessGrantsEnabled", bool true)
    ∷ ("serviceAccountsEnabled", bool false)
    ∷ ("fullScopeAllowed", bool true)
    ∷ ("redirectUris", array no_items)
    ∷ ("webOrigins", array no_items)
    ∷ (
      "defaultClientScopes",
      array (text_items ("web-origins" ∷ "acr" ∷ "roles" ∷ "profile" ∷ "basic" ∷ "email" ∷ [])),
    )
    ∷ (
      "optionalClientScopes",
      array (text_items ("address" ∷ "phone" ∷ "offline_access" ∷ "microprofile-jwt" ∷ [])),
    )
    ∷ (
      "protocolMappers",
      array (
          item
            (object (
              fields (
                ("name", text "mcp-audience")
                ∷ ("protocol", text "openid-connect")
                ∷ ("protocolMapper", text "oidc-audience-mapper")
                ∷ (
                  "config",
                  object (
                      fields (
                        ("included.custom.audience", text "http://localhost:8000/mcp/")
                        ∷ ("id.token.claim", text "false")
                        ∷ ("access.token.claim", text "true")
                        ∷ [])),
                )
                ∷ [])))
            no_items),
    )
    ∷ [])

abbrev pub role : String → String → Json
role name description =
    object (fields (("name", text name) ∷ ("description", text description) ∷ []))

-- CLIENT_ROLES
abbrev pub client_roles : Json
client_roles = array (
    item (role "drive-user" "May use Google Drive tools") (
      item (role "slack-user" "May use Slack tools")
        (item (role "admin-user" "May read the admin usage API (mcp:admin:read)") no_items)))

pub record SeedUser : Type 0 where
  pub username : String
  pub password : String
  pub roles : List String

-- USERS
abbrev pub users : List SeedUser
users =
    record { username = "june"; password = "june-pass"; roles = "drive-user" ∷ [] }
    ∷ record {
      username = "rayray";
      password = "rayray-pass";
      roles = "drive-user" ∷ "slack-user" ∷ [];
    }
    ∷ record { username = "jasmine"; password = "jasmine-pass"; roles = "slack-user" ∷ [] }
    ∷ record { username = "admin"; password = "admin-pass"; roles = "admin-user" ∷ [] }
    ∷ []

-- `seeded`
abbrev pub usernames : List SeedUser → List String
usernames [] = []
usernames (u ∷ rest) = u.username ∷ usernames rest

abbrev small_letters : String
small_letters = "abcdefghijklmnopqrstuvwxyz"

abbrev capital_letters : String
capital_letters = "ABCDEFGHIJKLMNOPQRSTUVWXYZ"

-- the letter of the second alphabet in the place of one of the first
translate : String → String → Char → Char
translate (String.◌∷◌ x xs) (String.◌∷◌ y ys) c = if c == x then y else translate xs ys c
translate _ _ c = c

is_among : String → Char → Bool
is_among String.[] c = false
is_among (String.◌∷◌ x xs) c = c == x || is_among xs c

-- `str.title()` of ASCII text, after a letter or not
unfoldable pub title : Bool → String → String
unfolding translate is_among
title inside String.[] = String.[]
title inside (String.◌∷◌ c s) =
    let letter = is_among small_letters c || is_among capital_letters c in
    let rest = title letter s in
    String.◌∷◌
      (if inside
        then translate capital_letters small_letters c
        else translate small_letters capital_letters c)
      rest

module _ (uuid5 : String → String) where
  -- `_user`
  unfoldable pub user : SeedUser → Members
  unfolding title
  user u = fields (
      ("id", text (uuid5 ("mcp-" <> u.username)))
      ∷ ("username", text u.username)
      ∷ ("enabled", bool true)
      ∷ ("emailVerified", bool true)
      ∷ ("email", text (u.username <> "@example.com"))
      ∷ ("firstName", text (title false u.username))
      ∷ ("lastName", text "Test")
      ∷ ("requiredActions", array no_items)
      ∷ (
        "credentials",
        array (
            item
              (object (
                fields (
                  ("type", text "password")
                  ∷ ("value", text u.password)
                  ∷ ("temporary", bool false)
                  ∷ [])))
              no_items),
      )
      ∷ ("realmRoles", array (text_items ("default-roles-mcp-gateway" ∷ [])))
      ∷ ("clientRoles", object (fields ((client_id, array (text_items u.roles)) ∷ [])))
      ∷ [])

  unfoldable pub user_items : List SeedUser → Items
  unfolding user
  user_items [] = no_items
  user_items (u ∷ rest) = item (object (user u)) (user_items rest)

-- `d[key] = v`
unfoldable pub set_member : String → Json → Members → Members
set_member key v no_members = member key v no_members
set_member key v (member k w rest) =
    let rest' = set_member key v rest in if key == k then member key v rest else member k w rest'

unfoldable pub append_items : Items → Items → Items
append_items no_items ys = ys
append_items (item x xs) ys = item x (append_items xs ys)

-- `value == CLIENT_ID` for one name, or `value in seeded` for a set, where a list or an object
-- raises; a missing key is None
unfoldable pub is_among_names : Bool → List String → Option Json → Result String Bool
unfolding contains
is_among_names hashed names none = ok false
is_among_names hashed names (some (text s)) = ok (contains names s)
is_among_names true names (some (array xs)) = raise "TypeError"
is_among_names true names (some (object m)) = raise "TypeError"
is_among_names hashed names (some _) = ok false

-- `[c for c in entries if …]`, which keeps what is not seeded; what is no object has no `get`
unfoldable pub keep_others : Bool → String → List String → Items → Result String Items
unfolding is_among_names
keep_others hashed key names no_items = ok no_items
keep_others hashed key names (item (object entry) rest) =
    is_among_names hashed names (get_member key entry) >>= λ seeded.
    keep_others hashed key names rest >>= λ kept.
    ok (if seeded then kept else item (object entry) kept)
keep_others hashed key names (item _ rest) = raise "AttributeError"

-- `realm.get(key, [])`, over which a comprehension goes
unfoldable pub items_of : String → Members → Result String Items
items_of key realm = elim (get_member key realm) [
  | none ↦ ok no_items
  | some (array items) ↦ ok items
  | some (object no_members) ↦ ok no_items
  | some (text String.[]) ↦ ok no_items
  | some _ ↦ raise "TypeError"
]

-- `d.setdefault(key, {})`, which is asked for an object
unfoldable pub object_of : String → Members → Result String Members
object_of key d = elim (get_member key d) [
  | none ↦ ok no_members
  | some (object m) ↦ ok m
  | some _ ↦ raise "AttributeError"
]

unfoldable pub seed_entries :
    Bool → String → String → List String → Items → Members → Result String Members
unfolding items_of keep_others append_items set_member contains
seed_entries hashed section key names seeds realm = items_of section realm >>= λ entries.
    keep_others hashed key names entries >>= λ kept.
    ok (set_member section (array (append_items kept seeds)) realm)

-- `realm.setdefault("roles", {}).setdefault("client", {})[CLIENT_ID] = CLIENT_ROLES`
unfoldable pub seed_roles : Members → Result String Members
unfolding object_of set_member
seed_roles realm = object_of "roles" realm >>= λ roles. object_of "client" roles >>= λ by_client.
    ok (
      set_member "roles"
        (object (set_member "client" (object (set_member client_id client_roles by_client)) roles))
        realm)

-- what `main` makes of the object
unfoldable pub seed : (String → String) → Members → Result String Members
unfolding seed_entries seed_roles user_items
seed uuid5 realm =
    seed_entries false "clients" "clientId" (client_id ∷ []) (item (object client) no_items) realm
    >>= seed_roles
    >>= seed_entries true "users" "username" (usernames users) (user_items uuid5 users)
