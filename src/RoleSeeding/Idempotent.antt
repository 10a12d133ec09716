-- ===== src/RoleSeeding/Idempotent.antt =====
-- compose/local/keycloak/seed_rbac.py: to seed a realm twice.
use mathlib.Core.Bool.{false≢true}
use mcp_agent_gateway.Base.{
  String, string_eq, char_eq, starts_with, contains, true, false, some, [], ◌∷◌, ◌≡◌, ◌≢◌, refl,
  sym, ap, subst, ◌∙◌, inl, inr, arith,
}
use mcp_agent_gateway.Base.Json.{Json, object, Items, no_items, item, Members, get_member}
use mcp_agent_gateway.Base.Result.{ok, Result-cases}
use mcp_agent_gateway.RoleSeeding.{
  client_id, client, client_roles, users, usernames, user, user_items, set_member, is_among_names,
  keep_others, object_of, seed_entries, seed_roles, seed,
}
use mcp_agent_gateway.RoleSeeding.Sections.{
  get_set_same, get_set_other, object_of_object, set_member_same, Seeded, seed_entries-Seeded,
  seed_entries-cases, seed_entries_again, set_member-Seeded,
}

-- the roles of the client are the seeded ones
pub data HasRoles (realm : Members) : Type 0 where
  has_roles :
      (roles by_client : Members)
      → get_member "roles" realm ≡ some (object roles)
      → get_member "client" roles ≡ some (object by_client)
      → get_member client_id by_client ≡ some client_roles
      → HasRoles realm

-- the roles after a seeding
abbrev roles_set : Members → Members → Members
roles_set roles by_client =
    set_member "client" (object (set_member client_id client_roles by_client)) roles

seed_roles-cases :
    (realm after : Members)
    → seed_roles realm ≡ ok after
    → (roles : Members) × (by_client : Members) × (set_member "roles"
          (object (roles_set roles by_client))
          realm
        ≡ after)
unfolding seed_roles
seed_roles-cases realm after h = elim (Result-cases (object_of "roles" realm)) [
  | inr (e, bad) ↦ absurd (ground arith)
  | inl (roles, found) ↦ elim (Result-cases (object_of "client" roles)) [
    | inr (e, bad) ↦ absurd (ground arith)
    | inl (by_client, got) ↦ (roles, by_client, ground arith)
  ]
]

set_roles-HasRoles :
    (realm roles by_client : Members)
    → HasRoles (set_member "roles" (object (roles_set roles by_client)) realm)
set_roles-HasRoles realm roles by_client =
    has_roles (roles_set roles by_client) (set_member client_id client_roles by_client)
      (get_set_same "roles" _ realm) (get_set_same "client" _ roles)
      (get_set_same client_id client_roles by_client)

seed_roles_again : (realm : Members) → HasRoles realm → seed_roles realm ≡ ok realm
unfolding seed_roles
seed_roles_again realm (has_roles roles by_client r b c) =
    rw
      (
        object_of_object "roles" realm roles r,
        object_of_object "client" roles by_client b,
        seed_roles,
        set_member_same client_id client_roles by_client c,
        set_member_same "client" (object by_client) roles b,
      )
      (ap ok (set_member_same "roles" (object roles) realm r))

set_member-HasRoles :
    (k : String) (v : Json) (realm : Members)
    → "roles" ≢ k
    → HasRoles realm
    → HasRoles (set_member k v realm)
set_member-HasRoles k v realm n (has_roles roles by_client r b c) =
    has_roles roles by_client (get_set_other "roles" k v realm n ∙ r) b c

abbrev pub client_items : Items
client_items = item (object client) no_items

clients_seeded : keep_others false "clientId" (client_id ∷ []) client_items ≡ ok no_items
unfolding keep_others is_among_names get_member contains string_eq
clients_seeded = refl

users_seeded :
    (uuid5 : String → String)
    → keep_others true "username" (usernames users) (user_items uuid5 users) ≡ ok no_items
unfolding keep_others is_among_names get_member contains string_eq user_items user
users_seeded uuid5 = refl

apart_by : (p s t : String) → starts_with s p ≡ true → starts_with t p ≡ false → s ≢ t
apart_by p s t y n e = false≢true (sym n ∙ ap (λ x. starts_with x p) (sym e) ∙ y)

clients_apart_roles : ◌≢◌ {A = String} "clients" "roles"
unfolding starts_with char_eq
clients_apart_roles = apart_by "c" "clients" "roles" refl refl

clients_apart_users : ◌≢◌ {A = String} "clients" "users"
unfolding starts_with char_eq
clients_apart_users = apart_by "c" "clients" "users" refl refl

roles_apart_users : ◌≢◌ {A = String} "roles" "users"
unfolding starts_with char_eq
roles_apart_users = apart_by "r" "roles" "users" refl refl

-- what a realm has after a seeding
abbrev pub IsSeeded : (String → String) → Members → Type 0
IsSeeded uuid5 realm =
    Seeded false "clientId" (client_id ∷ []) "clients" client_items realm
    × HasRoles realm
    × Seeded true "username" (usernames users) "users" (user_items uuid5 users) realm

seed-IsSeeded :
    (uuid5 : String → String) (realm after : Members)
    → seed uuid5 realm ≡ ok after
    → IsSeeded uuid5 after
unfolding seed
seed-IsSeeded uuid5 realm after h =
    let cs = seed_entries false "clients" "clientId" (client_id ∷ []) client_items realm in
    elim (Result-cases cs) [
      | inr (e, bad) ↦ absurd (ground arith)
      | inl (one, first) ↦ elim (Result-cases (seed_roles one)) [
        | inr (e, bad) ↦ absurd (ground arith)
        | inl (two, second) ↦
            let third : seed_entries true "users" "username" (usernames users)
                  (user_items uuid5 users) two
                ≡ ok after =
              ground arith in
            let (roles, by_client, r) = seed_roles-cases one two second in
            let (us, u) =
              seed_entries-cases true "username" (usernames users) "users" (user_items uuid5 users)
                two after third in
            let c1 =
              seed_entries-Seeded false "clientId" (client_id ∷ []) "clients" client_items realm one
                first in
            let c2 =
              subst (Seeded false "clientId" (client_id ∷ []) "clients" client_items) r
                (set_member-Seeded _ _ _ _ _ "roles" _ one clients_apart_roles c1) in
            let r2 = subst HasRoles r (set_roles-HasRoles one roles by_client) in
            (
              subst (Seeded false "clientId" (client_id ∷ []) "clients" client_items) u
                  (set_member-Seeded _ _ _ _ _ "users" _ two clients_apart_users c2),
              subst HasRoles u (set_member-HasRoles "users" _ two roles_apart_users r2),
              seed_entries-Seeded true "username" (usernames users) "users" (user_items uuid5 users)
                  two after third,
            )
      ]
    ]

-- To seed a realm that has been seeded changes nothing.
pub seed_again :
    (uuid5 : String → String) (realm after : Members)
    → seed uuid5 realm ≡ ok after
    → seed uuid5 after ≡ ok after
unfolding seed
seed_again uuid5 realm after h =
    let (c, r, u) = seed-IsSeeded uuid5 realm after h in
    rw
      (
        seed_entries_again false "clientId" (client_id ∷ []) "clients" client_items after
            clients_seeded c,
        seed_roles_again after r,
        seed_entries_again true "username" (usernames users) "users" (user_items uuid5 users) after
            (users_seeded uuid5) u,
      )
      refl
