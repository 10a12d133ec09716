-- ===== src/Tests/Drive.antt =====
-- The integration with Google Drive at concrete data.
use mcp_agent_gateway.Base.{
  ℕ, ◌+◌, ◌*◌, ◌≤◌, ◌<◌, decimal, int_of, int_of-decimal, String, string_eq, char_eq, false, Option,
  none, some, List, [], ◌<>◌, ◌≡◌, ◌≢◌, refl, ap, ◌∙◌, ◌⊎◌, arith,
}
use mcp_agent_gateway.Base.Result.{Result, ok, raise, ◌>>=◌}
use mcp_agent_gateway.Shared.Store.InMemory.{
  InMemoryStore, set, in_memory_store, in_memory_store-Contract,
}
use mcp_agent_gateway.Integrations.Google.DriveQuery.{Filters, escape, build_drive_query}
use mcp_agent_gateway.Integrations.Google.DriveQuery.Literal.{read_literal, read_literal-escape}
use mcp_agent_gateway.Integrations.Google.DriveQuery.Tokens.{
  Token, Reads, filter_tokens, join_tokens, build_drive_query-Reads,
}
use mcp_agent_gateway.Integrations.Google.TokenStore.{
  GoogleError, other_error, TokenData, Reply, Codec, IsLawful, Post, refreshed, google_shared_user,
  get_valid_google_token, seed_shared_token_if_absent,
}
use mcp_agent_gateway.Integrations.Google.TokenStore.Cached.{
  refreshed-kept, get_valid_google_token-After,
}
use mcp_agent_gateway.Integrations.Google.TokenStore.Seeded.{seed, seed_shared_token_if_absent_lem}
use mcp_agent_gateway.Integrations.Google.Tools
use mcp_agent_gateway.Integrations.Google.Tools.{
  DriveSearchInput, DriveFile, handle_drive_search_files,
}
use mcp_agent_gateway.Integrations.Google.Tools.Query.{
  Search, Gives, SearchCalls, handle_drive_search_files-SearchCalls,
}

abbrev filters : Filters
filters = record {
  name_contains = some "x' or name contains '";
  full_text = none;
  mime_type = some "application/pdf";
  in_folder = none;
  modified_after = some (record { year = 2026; month = 1; day = 31 });
  include_trashed = false;
}

build_drive_query-Reads_example :
    Reads (build_drive_query filters) (join_tokens (filter_tokens filters))
    × ((ts : List Token)
        → Reads (build_drive_query filters) ts
        → ts ≡ join_tokens (filter_tokens filters))
build_drive_query-Reads_example = build_drive_query-Reads filters

-- a text for the data of a token: two quoted texts and a number
abbrev dumps : TokenData → String
dumps d =
    escape d.access_token <> ("'" <> (escape d.refresh_token_enc <> ("'" <> decimal d.expires_at)))

abbrev number_of : String → String → Option ℕ → Result GoogleError TokenData
number_of a r none = raise (other_error "ValueError")
number_of a r (some n) = ok (record { access_token = a; refresh_token_enc = r; expires_at = n })

abbrev second_of : String → Option (String × String) → Result GoogleError TokenData
second_of a none = raise (other_error "ValueError")
second_of a (some (r, rest)) = number_of a r (int_of rest)

abbrev first_of : Option (String × String) → Result GoogleError TokenData
first_of none = raise (other_error "ValueError")
first_of (some (a, rest)) = second_of a (read_literal false rest)

abbrev rest_of : String → Result GoogleError String
rest_of String.[] = raise (other_error "InvalidToken")
rest_of (String.◌∷◌ c s) = ok s

abbrev pub codec : Codec
codec = record {
  dumps = dumps;
  loads = λ text. first_of (read_literal false text);
  encrypt = λ text. "#" <> text;
  decrypt = rest_of;
}

loads-dumps : (d : TokenData) → codec.loads (codec.dumps d) ≡ ok d
loads-dumps d =
    ap first_of (
      read_literal-escape d.access_token
        (escape d.refresh_token_enc <> ("'" <> decimal d.expires_at)))
    ∙ ap (second_of d.access_token) (read_literal-escape d.refresh_token_enc (decimal d.expires_at))
    ∙ ap (number_of d.access_token d.refresh_token_enc) (int_of-decimal d.expires_at)

codec-IsLawful : IsLawful codec
codec-IsLawful = record { loads-dumps = loads-dumps; decrypt-encrypt = λ text. refl }

-- Google answers every refresh token with a token for a minute and a half
abbrev answer : Reply
answer = record {
  status_code = 200;
  json = some (record { error = none; token = some "ya29"; expires_in = some 90 });
}

abbrev pub post : Post
post refresh_token = ok answer

abbrev stored : TokenData
stored = record { access_token = "old"; refresh_token_enc = "#1//x"; expires_at = 50000 }

abbrev renewed : TokenData
renewed = record { access_token = "ya29"; refresh_token_enc = "#1//x"; expires_at = 190000 }

abbrev pub tokens : InMemoryStore
tokens = set (record { entries = [] }) 0 google_shared_user (dumps stored) none

refreshed-kept_example :
    ((get_valid_google_token in_memory_store codec post tokens 100000 google_shared_user).0
      ≡ ok "ya29")
    × ((any_post : Post) (u : ℕ)
        → 100000 ≤ u
        → u + 60 * 1000 < 190000
        → (get_valid_google_token in_memory_store codec any_post
            (get_valid_google_token in_memory_store codec post tokens 100000 google_shared_user).1
            u
            google_shared_user).0
          ≡ ok "ya29")
refreshed-kept_example =
    refreshed-kept in_memory_store in_memory_store-Contract codec codec-IsLawful post tokens 100000
      google_shared_user "1//x" stored renewed answer
      (in_memory_store-Contract.view-set_forever (record { entries = [] }) 0 100000
        google_shared_user (dumps stored) (omega arith))
      (omega arith) refl refl (unfold refreshed in refl)

get_valid_google_token-After_example :
    ("bob" ≢ google_shared_user
      → in_memory_store-Contract.view
          (get_valid_google_token in_memory_store codec post tokens 100000 google_shared_user).1
          100000
          "bob"
        ≡ in_memory_store-Contract.view tokens 100000 "bob")
    × ((e : GoogleError)
        → (get_valid_google_token in_memory_store codec post tokens 100000 google_shared_user).0
          ≡ raise e
        → in_memory_store-Contract.view
            (get_valid_google_token in_memory_store codec post tokens 100000 google_shared_user).1
            100000
            "bob"
          ≡ in_memory_store-Contract.view tokens 100000 "bob")
get_valid_google_token-After_example =
    get_valid_google_token-After in_memory_store in_memory_store-Contract codec codec-IsLawful post
      tokens 100000 google_shared_user 100000 "bob" (omega arith)

abbrev pub no_tokens : InMemoryStore
no_tokens = record { entries = [] }

seed_shared_token_if_absent_lem_example :
    ((v : String) (u : ℕ) (j : String)
      → in_memory_store-Contract.view no_tokens 5 google_shared_user ≡ some v
      → 5 ≤ u
      → in_memory_store-Contract.view
          (seed_shared_token_if_absent in_memory_store codec no_tokens 5 (some "1//x"))
          u
          j
        ≡ in_memory_store-Contract.view no_tokens u j)
    × ((p : Post) (u : ℕ)
        → in_memory_store-Contract.view no_tokens 5 google_shared_user ≡ none
        → 5 ≤ u
        → (get_valid_google_token in_memory_store codec p
            (seed_shared_token_if_absent in_memory_store codec no_tokens 5 (some "1//x"))
            u
            google_shared_user).0
          ≡ (p "1//x"
              >>= refreshed u
                  (seed in_memory_store in_memory_store-Contract codec codec-IsLawful "1//x")
              >>= λ d. ok d.access_token))
seed_shared_token_if_absent_lem_example =
    seed_shared_token_if_absent_lem in_memory_store in_memory_store-Contract codec codec-IsLawful
      no_tokens 5 "1//x" refl

abbrev pub search_input : DriveSearchInput
search_input = record { filters = filters; max_results = 10 }

handle_drive_search_files-SearchCalls_example :
    ((r : Result String (Tools.Answer (List DriveFile))) × ((search_files : Search ℕ) (w : ℕ)
        → Gives
            (handle_drive_search_files in_memory_store codec post search_files tokens 100000 w
              (ok search_input))
            r
            w))
    ⊎ SearchCalls in_memory_store codec post ℕ tokens 100000 (ok search_input)
handle_drive_search_files-SearchCalls_example =
    handle_drive_search_files-SearchCalls in_memory_store codec post ℕ tokens 100000
      (ok search_input)
