-- ===== src/Mcp/EventStore/Entries.antt =====
-- Lists of entries and their identifiers.
use mcp_agent_gateway.Base.{
  ℕ, ◌<◌, String, string_eq, ◌==◌, contains, true, false, ◌||◌, none, List, [], ◌∷◌, ◌++◌, length,
  All, ◌≡◌, refl, arith, if◌then◌else◌, length-append,
}
use mcp_agent_gateway.Base.Dict.{Dict, lookup, erase, lookup-erase}
use mcp_agent_gateway.Mcp.EventStore.{EventEntry, forget, append_bounded}

module _ {M : Type 0} where
  abbrev pub ids : List (EventEntry M) → List String
  ids [] = []
  ids (e ∷ l) = e.event_id ∷ ids l

  abbrev pub NodupIds : List (EventEntry M) → Type 0
  NodupIds [] = Unit
  NodupIds (e ∷ l) = (contains (ids l) e.event_id ≡ false) × NodupIds l

  pub contains-ids-append :
      (l k : List (EventEntry M)) (j : String)
      → contains (ids (l ++ k)) j ≡ (contains (ids l) j || contains (ids k) j)
  unfolding contains
  contains-ids-append [] k j = refl
  contains-ids-append (e ∷ l) k j = ground (arith, contains-ids-append l k j)

  pub contains-ids-snoc :
      (l : List (EventEntry M)) (e : EventEntry M) (j : String)
      → contains (ids (l ++ e ∷ [])) j ≡ (contains (ids l) j || (j == e.event_id))
  unfolding contains
  contains-ids-snoc l e j = ground (arith, contains-ids-append l (e ∷ []) j)

  pub NodupIds-snoc :
      (l : List (EventEntry M)) (e : EventEntry M)
      → NodupIds l
      → contains (ids l) e.event_id ≡ false
      → NodupIds (l ++ e ∷ [])
  unfolding contains
  NodupIds-snoc [] e d n = (refl, tt)
  NodupIds-snoc (x ∷ l) e d n =
      (ground (arith, contains-ids-snoc l e x.event_id), NodupIds-snoc l e d.1 (ground arith))

  -- the entry that carries an identifier of the list
  pub entry_of_id {κ} :
      (P : EventEntry M → Type κ) (l : List (EventEntry M)) (j : String)
      → All P l
      → contains (ids l) j ≡ true
      → (e : EventEntry M) × P e × (e.event_id ≡ j)
  unfolding contains
  entry_of_id P [] j a h = absurd (cc)
  entry_of_id P (x ∷ l) j a h = elim (string_eq.dec j x.event_id) [
    | yes p ↦ (x, a.0, ground arith)
    | no n ↦ entry_of_id P l j a.1 (ground arith)
  ]

  pub lookup-forget :
      (l : List (EventEntry M)) (index : Dict String (EventEntry M)) (j : String)
      → lookup j (forget l index) ≡ (if contains (ids l) j then none else lookup j index)
  unfolding forget contains
  lookup-forget [] index j = refl
  lookup-forget (e ∷ l) index j =
      ground (arith, lookup-forget l (erase e.event_id index) j, lookup-erase j e.event_id index)

  pub append_bounded-room :
      (max : ℕ) (l : List (EventEntry M)) (e : EventEntry M)
      → length l < max
      → append_bounded max l e ≡ l ++ e ∷ []
  unfolding append_bounded
  append_bounded-room max [] e h = ground arith
  append_bounded-room max (x ∷ l) e h = ground (arith, length-append l (e ∷ []))

  pub append_bounded-full :
      (max : ℕ) (x : EventEntry M) (l : List (EventEntry M)) (e : EventEntry M)
      → length (x ∷ l) ≡ max
      → append_bounded max (x ∷ l) e ≡ l ++ e ∷ []
  unfolding append_bounded
  append_bounded-full max x l e h = ground (arith, length-append l (e ∷ []))
