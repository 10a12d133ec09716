-- ===== src/Shared/Store/Redis.antt =====
-- `RedisStore` of app/shared/store.py, over the server of `mcp_agent_gateway.Redis`.
use mathlib.Core.Bool.{false≢true}
use mcp_agent_gateway.Base.{
  inl, inr, Option-cases, sym, ◌∙◌, ℕ, ◌*◌, ◌≤◌, String, ◌<>◌, Option, none, some, List, [], ◌∷◌,
  ◌≡◌, ◌≢◌, refl, string_eq, arith, nat_eq, ap, true, false, if◌then◌else◌, contains, starts_with,
  starts_with-append, append_text_cancel, rest_of_starts_with, starts_with_comparable, Bool-cases,
}
use mcp_agent_gateway.Redis as Server
use mcp_agent_gateway.Redis.{live, Redis}
use mcp_agent_gateway.Shared.Store.{Store, Contract}

module _ (R : Redis) (prefix : String) where
  -- `if ttl is not None` picks between the two calls. With 0 the server refuses EX, which raises.
  unfoldable pub set : R.State → ℕ → String → String → Option ℕ → R.State
  set s now key value (some ttl) = R.set s now (prefix <> key) value (some (ttl * 1000))
  set s now key value none = R.set s now (prefix <> key) value none

  unfoldable pub get : R.State → ℕ → String → Option String × R.State
  get s now key = (R.get s now (prefix <> key), s)

  unfoldable pub pop : R.State → ℕ → String → Option String × R.State
  pop s now key = R.getdel s now (prefix <> key)

  clear_keys : R.State → List String → R.State
  clear_keys s [] = s
  clear_keys s (k ∷ ks) = R.delete s (k ∷ ks)

  unfoldable pub clear : R.State → ℕ → R.State
  unfolding clear_keys
  clear s now = clear_keys s (R.scan_iter s now (prefix <> "*"))

  abbrev pub redis_store : Store
  redis_store = record {
    State = R.State;
    accepts = λ ttl. ttl ≢ some 0;
    set = set;
    get = get;
    pop = pop;
    clear = clear;
  }

  unfoldable pub view : R.State → ℕ → String → Option String
  view s u k = R.get s u (prefix <> k)

  module _ (L : Server.IsLawful R) (plain : Server.is_plain prefix ≡ true) where
    prefix_ne : (k j : String) → j ≢ k → prefix <> j ≢ prefix <> k
    prefix_ne k j n e = n (append_text_cancel prefix j k e)

    get-clear_keys :
        (s : R.State) (u : ℕ) (ks : List String) (j : String)
        → R.get (clear_keys s ks) u j ≡ (if contains ks j then none else R.get s u j)
    unfolding clear_keys contains
    get-clear_keys s u [] j = refl
    get-clear_keys s u (k ∷ ks) j = L.get-delete s u (k ∷ ks) j

    missing_of_unlisted :
        (s : R.State) (now : ℕ) (j : String)
        → starts_with j prefix ≡ true
        → contains (R.scan_iter s now (prefix <> "*")) j ≡ false
        → R.get s now j ≡ none
    missing_of_unlisted s now j p c = elim (Option-cases (R.get s now j)) [
      | inl gone ↦ gone
      | inr (v, found) ↦
          absurd (false≢true (sym c ∙ (L.contains-scan_iter s now prefix j plain).1 (p, λ e. cc)))
    ]

    -- On a lawful server `clear` removes what is live and has the prefix, and leaves every other
    -- key alone.
    get-clear :
        (s : R.State) (now u : ℕ) (j : String)
        → now ≤ u
        → R.get (clear s now) u j ≡ (if starts_with j prefix then none else R.get s u j)
    unfolding clear
    get-clear s now u j h = rw get-clear_keys (
        ground (
          arith,
          (L.contains-scan_iter s now prefix j plain).0,
          missing_of_unlisted s now j,
          L.get_gone s now u j h,
        ))

    positive_life : (ttl : ℕ) → some ttl ≢ some 0 → nat_eq (ttl * 1000) 0 ≡ false
    positive_life ttl a = elim (Bool-cases (nat_eq ttl 0)) [
      | inl zero_ ↦ let z : ttl ≡ 0 = ground arith in absurd (a (ap some z))
      | inr more ↦ ground arith
    ]

    view_of_other :
        (s : R.State) (now u : ℕ) (k v : String) (ttl : Option ℕ) (j : String)
        → now ≤ u
        → j ≢ k
        → view (set s now k v ttl) u j ≡ view s u j
    unfolding set view
    view_of_other s now u k v none j h n = rw L.get-set (ground (arith, prefix_ne k j n))
    view_of_other s now u k v (some ttl) j h n = rw L.get-set (ground (arith, prefix_ne k j n))

    -- On a lawful server, with a prefix without `*`, `?`, `[` and `\`, `RedisStore` keeps the contract
    -- of `Store`; it accepts every time to live but 0.
    pub redis_store-Contract : Contract redis_store
    unfolding set get pop view
    redis_store-Contract = record {
      view = view;
      get_result = λ s now k. refl;
      view-get = λ s now u k j h. refl;
      view-set_forever = λ s now u k v h. rw L.get-set (ground arith);
      view-set_fresh = λ s now u k v ttl h l. rw L.get-set (ground arith);
      view-set_stale = λ s now u k v ttl a l. ground (
        arith,
        positive_life ttl a,
        L.get-set s now u (prefix <> k) v (prefix <> k) (some (ttl * 1000)),
      );
      view-set_ne = view_of_other;
      pop_result = λ s now k. L.getdel_result s now (prefix <> k);
      view-pop_self =
          λ s now u k h. ground (arith, L.get-getdel s now u (prefix <> k) (prefix <> k) h);
      view-pop_ne = λ s now u k j h n.
          ground (arith, prefix_ne k j n, L.get-getdel s now u (prefix <> k) (prefix <> j) h);
      view-clear = λ s now u k h. rw get-clear (ground (arith, starts_with-append prefix k));
    }

    module _ (other : String) (a : starts_with prefix other ≡ false)
        (b : starts_with other prefix ≡ false) where
      keys_apart : (k j : String) → other <> j ≢ prefix <> k
      keys_apart k j e = ground (arith, starts_with_comparable other prefix j k e)

      not_under : (j : String) → starts_with (other <> j) prefix ≡ false
      not_under j = elim (Bool-cases (starts_with (other <> j) prefix)) [
        | inl p ↦
            let (r, e) = rest_of_starts_with (other <> j) prefix p in absurd (keys_apart r j e)
        | inr n ↦ n
      ]

    -- Two stores of one lawful server whose prefixes are not prefixes of one another, where that of the
    -- first has no `*`, `?`, `[` and `\`: the writing methods of one leave what the other finds under every key, at every later
    -- instant.
    pub stores_apart :
        (other : String)
        → starts_with prefix other ≡ false
        → starts_with other prefix ≡ false
        → (s : R.State) (now u : ℕ) (k v : String) (ttl : Option ℕ) (j : String) → now ≤ u
        → (R.get (set s now k v ttl) u (other <> j) ≡ R.get s u (other <> j))
          × (R.get (pop s now k).1 u (other <> j) ≡ R.get s u (other <> j))
          × (R.get (clear s now) u (other <> j) ≡ R.get s u (other <> j))
    unfolding set pop
    stores_apart other a b s now u k v none j h = (
      ground
          (arith, L.get-set s now u (prefix <> k) v (other <> j) none h, keys_apart other a b k j),
      ground (arith, L.get-getdel s now u (prefix <> k) (other <> j) h, keys_apart other a b k j),
      ground (arith, get-clear s now u (other <> j) h, not_under other a b j),
    )
    stores_apart other a b s now u k v (some ttl) j h = (
      ground (
        arith,
        L.get-set s now u (prefix <> k) v (other <> j) (some (ttl * 1000)) h,
        keys_apart other a b k j,
      ),
      ground (arith, L.get-getdel s now u (prefix <> k) (other <> j) h, keys_apart other a b k j),
      ground (arith, get-clear s now u (other <> j) h, not_under other a b j),
    )
