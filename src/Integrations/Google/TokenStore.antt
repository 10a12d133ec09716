-- ===== src/Integrations/Google/TokenStore.antt =====
-- app/integrations/google/token_store.py, over any store. `cryptography`, `json` and the HTTP client
-- are arguments. An instant is in milliseconds, and so is `expires_at`, which the source keeps in
-- seconds with a fraction.
pub mod Cached
pub mod Seeded
use mcp_agent_gateway.Base.{
  ℕ, ◌+◌, ◌*◌, ltb, leb, nat_eq, String, string_eq, truthy, ◌==◌, or_else, Bool, true, false, ◌&&◌,
  ◌||◌, not, Option, none, some, List, [], ◌∷◌, ◌≡◌, if◌then◌else◌,
}
use mcp_agent_gateway.Base.Result.{Result, ok, raise, ◌>>=◌, ◌>>◌, guard}
use mcp_agent_gateway.Shared.Store.{Store}

abbrev pub google_shared_user : String
google_shared_user = "google:shared"

-- the exceptions, with the other ones by their names
pub data GoogleError : Type 0 where
  oauth_token_not_found_error : GoogleError
  oauth_refresh_error : GoogleError
  other_error : String → GoogleError

-- `str(exc)`
unfoldable pub message : GoogleError → String
message oauth_token_not_found_error = "User has not authorized Google"
message oauth_refresh_error = "Google refresh token revoked"
message (other_error m) = m

-- what the JSON text holds
pub record TokenData : Type 0 where
  pub access_token : String
  pub refresh_token_enc : String
  pub expires_at : ℕ

-- the body of an answer of Google's token endpoint, a JSON object
pub record TokenBody : Type 0 where
  pub error : Option String
  pub token : Option String
  pub expires_in : Option ℕ

pub record Reply : Type 0 where
  pub status_code : ℕ
  -- `resp.json()`, `none` for a body that is not JSON
  pub json : Option TokenBody

-- `json.dumps` and `json.loads`, `Fernet.encrypt` and `Fernet.decrypt`
pub record Codec : Type 0 where
  pub dumps : TokenData → String
  pub loads : String → Result GoogleError TokenData
  pub encrypt : String → String
  pub decrypt : String → Result GoogleError String

pub record IsLawful (c : Codec) : Type 0 where
  pub loads-dumps : (data_ : TokenData) → c.loads (c.dumps data_) ≡ ok data_
  pub decrypt-encrypt : (text : String) → c.decrypt (c.encrypt text) ≡ ok text

-- the POST to GOOGLE_TOKEN_URL with a refresh token, from the client's credentials
abbrev pub Post : Type 0
Post = String → Result GoogleError Reply

-- `resp.status_code in (400, 401)` with a body that says the token has been revoked
unfoldable pub is_revoked : Reply → Bool
is_revoked reply =
    (nat_eq reply.status_code 400 || nat_eq reply.status_code 401) && elim reply.json [
      | none ↦ false
      | some body ↦ elim body.error [
        | none ↦ false
        | some e ↦ e == "invalid_grant" || e == "token_revoked"
      ]
    ]

-- httpx: an answer that is not 2xx raises
unfoldable pub raise_for_status : Reply → Result GoogleError (Unit {0})
raise_for_status reply =
    guard (leb 200 reply.status_code && ltb reply.status_code 300) (other_error "HTTPStatusError")

-- `resp.json()` and then `tokens["access_token"]`, `tokens.get("expires_in", 3600)`
unfoldable pub read_body : Reply → Result GoogleError TokenBody
read_body reply = elim reply.json [
  | none ↦ raise (other_error "JSONDecodeError")
  | some body ↦ ok body
]

unfoldable pub access_token_of : TokenBody → Result GoogleError String
access_token_of body = elim body.token [
  | none ↦ raise (other_error "KeyError")
  | some token ↦ ok token
]

-- the data after an answer to the refresh request
unfoldable pub refreshed : ℕ → TokenData → Reply → Result GoogleError TokenData
unfolding is_revoked raise_for_status read_body access_token_of or_else
refreshed now data_ reply =
    guard (not (is_revoked reply)) oauth_refresh_error
    >> raise_for_status reply
    >> (read_body reply >>= λ body. access_token_of body >>= λ token. ok (record data_ {
      access_token = token;
      expires_at = now + or_else body.expires_in 3600 * 1000;
    }))

module _ (S : Store) (c : Codec) where
  -- what is stored and returned after a refresh
  unfoldable pub keep :
      S.State → ℕ → String → Result GoogleError TokenData → Result GoogleError String × S.State
  keep s now user_id (raise e) = (raise e, s)
  keep s now user_id (ok data_) = (ok data_.access_token, S.set s now user_id (c.dumps data_) none)

  unfoldable pub use_data :
      Post
      → S.State
      → ℕ
      → String
      → Result GoogleError TokenData
      → Result GoogleError String × S.State
  unfolding keep
  use_data post s now user_id (raise e) = (raise e, s)
  use_data post s now user_id (ok data_) =
      if ltb (now + 60 * 1000) data_.expires_at
      then (ok data_.access_token, s)
      else keep s now user_id (
          c.decrypt data_.refresh_token_enc >>= λ refresh_token.
          post refresh_token >>= refreshed now data_)

  unfoldable pub get_valid_google_token :
      Post → S.State → ℕ → String → Result GoogleError String × S.State
  unfolding use_data
  get_valid_google_token post s now user_id =
      let (raw, s') = S.get s now user_id in
      elim raw [
        | none ↦ (raise oauth_token_not_found_error, s')
        | some text ↦ use_data post s' now user_id (c.loads text)
      ]

  unfoldable pub seed_refresh_token : S.State → ℕ → String → S.State
  seed_refresh_token s now refresh_token =
      S.set s now google_shared_user
        (c.dumps (record {
          access_token = "";
          refresh_token_enc = c.encrypt refresh_token;
          expires_at = 0;
        }))
        none

  unfoldable pub seed_shared_token_if_absent : S.State → ℕ → Option String → S.State
  unfolding seed_refresh_token
  seed_shared_token_if_absent s now none = s
  seed_shared_token_if_absent s now (some refresh_token) =
      if truthy refresh_token
      then (let (present, s') = S.get s now google_shared_user in
          elim present [ none ↦ seed_refresh_token s' now refresh_token | some _ ↦ s' ])
      else s
