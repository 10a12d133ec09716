-- ===== src/RoleSeeding/Sections.antt =====
-- compose/local/keycloak/seed_rbac.py: a section of the realm before and after a seeding.
use mcp_agent_gateway.Base.{
  Bool, String, string_eq, char_eq, ◌==◌, true, false, some, List, ◌≡◌, ◌≢◌, refl, ap, subst, ◌∙◌,
  inl, inr, arith, if◌then◌else◌,
}
use mcp_agent_gateway.Base.Json.{
  Json, null, bool, number, text, array, object, Items, no_items, item, Members, no_members, member,
  get_member,
}
use mcp_agent_gateway.Base.Result.{ok, Result-cases}
use mcp_agent_gateway.RoleSeeding.{
  set_member, append_items, is_among_names, keep_others, items_of, object_of, seed_entries,
}

pub get-set_member :
    (j k : String) (v : Json) (d : Members)
    → get_member j (set_member k v d) ≡ (if j == k then some v else get_member j d)
unfolding get_member set_member
get-set_member j k v no_members = ground arith
get-set_member j k v (member i w d) = ground (arith, get-set_member j k v d)

pub get_set_same : (k : String) (v : Json) (d : Members) → get_member k (set_member k v d) ≡ some v
get_set_same k v d = get-set_member k k v d ∙ ground arith

pub get_set_other :
    (j k : String) (v : Json) (d : Members)
    → j ≢ k
    → get_member j (set_member k v d) ≡ get_member j d
get_set_other j k v d n = get-set_member j k v d ∙ ground arith

items_of_array :
    (key : String) (d : Members) (xs : Items)
    → get_member key d ≡ some (array xs)
    → items_of key d ≡ ok xs
unfolding items_of
items_of_array key d xs h = ground arith

pub object_of_object :
    (key : String) (d m : Members) → get_member key d ≡ some (object m) → object_of key d ≡ ok m
unfolding object_of
object_of_object key d m h = ground arith

-- To set what is there changes nothing.
pub set_member_same :
    (k : String) (v : Json) (d : Members) → get_member k d ≡ some v → set_member k v d ≡ d
unfolding get_member set_member
set_member_same k v no_members h = absurd (cc)
set_member_same k v (member j w d) h = ground (arith, set_member_same k v d)

module _ (hashed : Bool) (key : String) (names : List String) where
  -- every entry is an object that is not a seeded one
  abbrev pub AllOthers : Items → Type 0
  AllOthers no_items = Unit
  AllOthers (item (object entry) rest) =
      (is_among_names hashed names (get_member key entry) ≡ ok false) × AllOthers rest
  AllOthers (item _ rest) = ⊥

  keep_others-AllOthers : (xs ys : Items) → keep_others hashed key names xs ≡ ok ys → AllOthers ys
  unfolding keep_others
  keep_others-AllOthers no_items ys h = let e : no_items ≡ ys = ground arith in subst AllOthers e tt
  keep_others-AllOthers (item (object entry) rest) ys h =
      elim (Result-cases (keep_others hashed key names rest)) [
        | inr (e, bad) ↦ elim (Result-cases (is_among_names hashed names (get_member key entry))) [
          | inr (e, raised) ↦ absurd (ground arith)
          | inl (b, tested) ↦ absurd (ground arith)
        ]
        | inl (kept, good) ↦
            let ih = keep_others-AllOthers rest kept good in
            elim (Result-cases (is_among_names hashed names (get_member key entry))) [
              | inr (e, raised) ↦ absurd (ground arith)
              | inl (true, seeded) ↦ let e : kept ≡ ys = ground arith in subst AllOthers e ih
              | inl (false, fresh) ↦
                  let e : item (object entry) kept ≡ ys = ground arith in
                  subst AllOthers e (fresh, ih)
            ]
      ]
  keep_others-AllOthers (item null rest) ys h = absurd (cc)
  keep_others-AllOthers (item (bool b) rest) ys h = absurd (cc)
  keep_others-AllOthers (item (number n) rest) ys h = absurd (cc)
  keep_others-AllOthers (item (text s) rest) ys h = absurd (cc)
  keep_others-AllOthers (item (array xs) rest) ys h = absurd (cc)

  -- what is seeded goes from the end
  keep_others-append_items :
      (xs seeds : Items)
      → AllOthers xs
      → keep_others hashed key names seeds ≡ ok no_items
      → keep_others hashed key names (append_items xs seeds) ≡ ok xs
  unfolding keep_others append_items
  keep_others-append_items no_items seeds h s = s
  keep_others-append_items (item (object entry) rest) seeds (fresh, h) s =
      rw (keep_others-append_items rest seeds h s, fresh) refl
  keep_others-append_items (item null rest) seeds h s = absurd h
  keep_others-append_items (item (bool b) rest) seeds h s = absurd h
  keep_others-append_items (item (number n) rest) seeds h s = absurd h
  keep_others-append_items (item (text t) rest) seeds h s = absurd h
  keep_others-append_items (item (array xs) rest) seeds h s = absurd h

  module _ (section : String) (seeds : Items) where
    -- the section has the seeded entries at its end, and only others before
    pub data Seeded (realm : Members) : Type 0 where
      seeded :
          (others : Items)
          → get_member section realm ≡ some (array (append_items others seeds))
          → AllOthers others
          → Seeded realm

    pub seed_entries-Seeded :
        (realm after : Members)
        → seed_entries hashed section key names seeds realm ≡ ok after
        → Seeded after
    unfolding seed_entries
    seed_entries-Seeded realm after h = elim (Result-cases (items_of section realm)) [
      | inr (e, bad) ↦ absurd (ground arith)
      | inl (entries, found) ↦ elim (Result-cases (keep_others hashed key names entries)) [
        | inr (e, bad) ↦ absurd (ground arith)
        | inl (kept, good) ↦
            let e : set_member section (array (append_items kept seeds)) realm ≡ after =
              ground arith in
            subst Seeded e
              (seeded kept (get_set_same section _ realm) (keep_others-AllOthers entries kept good))
      ]
    ]

    pub seed_entries-cases :
        (realm after : Members)
        → seed_entries hashed section key names seeds realm ≡ ok after
        → (xs : Items) × (set_member section (array xs) realm ≡ after)
    unfolding seed_entries
    seed_entries-cases realm after h = elim (Result-cases (items_of section realm)) [
      | inr (e, bad) ↦ absurd (ground arith)
      | inl (entries, found) ↦ elim (Result-cases (keep_others hashed key names entries)) [
        | inr (e, bad) ↦ absurd (ground arith)
        | inl (kept, good) ↦ (append_items kept seeds, ground arith)
      ]
    ]

    pub seed_entries_again :
        (realm : Members)
        → keep_others hashed key names seeds ≡ ok no_items
        → Seeded realm
        → seed_entries hashed section key names seeds realm ≡ ok realm
    unfolding seed_entries
    seed_entries_again realm all (seeded others found h) =
        rw
          (
            items_of_array section realm (append_items others seeds) found,
            keep_others-append_items others seeds h all,
            seed_entries,
          )
          (ap ok (set_member_same section (array (append_items others seeds)) realm found))

    pub set_member-Seeded :
        (k : String) (v : Json) (realm : Members)
        → section ≢ k
        → Seeded realm
        → Seeded (set_member k v realm)
    set_member-Seeded k v realm n (seeded others found h) =
        seeded others (get_set_other section k v realm n ∙ found) h
