-- ===== src/Identity/ClientRegistration/Repository.antt =====
-- app/identity/client_registration/repository.py: the registrations that are kept in a store.
-- `model_dump_json` and `model_validate_json` are arguments.
use mcp_agent_gateway.Base.{ℕ, zero, suc, String, Option, none, some, ◌≡◌}
use mcp_agent_gateway.Shared.Store.{Store}
use mcp_agent_gateway.Identity.ClientRegistration.{RegisteredClient}

-- `model_validate_json` is `none` where it raises `ValidationError`
pub record Codec : Type 0 where
  pub dumps : RegisteredClient → String
  pub loads : String → Option RegisteredClient

pub record IsLawful (c : Codec) : Type 0 where
  pub loads-dumps : (client : RegisteredClient) → c.loads (c.dumps client) ≡ some client

-- `ttl or settings.CLIENT_REGISTRY_TTL`
unfoldable pub ttl_or : Option ℕ → ℕ → ℕ
ttl_or none default_ttl = default_ttl
ttl_or (some zero) default_ttl = default_ttl
ttl_or (some (suc n)) default_ttl = suc n

module _ (S : Store) (c : Codec) where
  -- A registration that does not validate counts as a missing one.
  unfoldable pub get : S.State → ℕ → String → Option RegisteredClient × S.State
  get s now metadata_url =
      let (value, s') = S.get s now metadata_url in
      (elim value [ none ↦ none | some json ↦ c.loads json ], s')

  unfoldable pub set : S.State → ℕ → ℕ → String → RegisteredClient → Option ℕ → S.State
  unfolding ttl_or
  set s now default_ttl metadata_url result ttl =
      S.set s now metadata_url (c.dumps result) (some (ttl_or ttl default_ttl))
