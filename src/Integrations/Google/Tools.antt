-- ===== src/Integrations/Google/Tools.antt =====
-- app/integrations/google/tools.py. Pydantic's checks of single fields and the calls of the Drive API
-- are arguments. An exception that no handler catches is given by its text or its name.
pub mod Query
pub mod Upstream
use mcp_agent_gateway.Base.{
  ℕ, decimal, String, truthy, ◌<>◌, or_else, Bool, true, false, ◌||◌, not, Option, none, some, List,
  [], ◌∷◌, join, if◌then◌else◌,
}
use mcp_agent_gateway.Base.Result.{Result, ok, raise, ◌>>=◌}
use mcp_agent_gateway.Shared.Store.{Store}
use mcp_agent_gateway.Integrations.Google.DriveQuery.{Filters, Date, build_drive_query}
use mcp_agent_gateway.Integrations.Google.TokenStore.{
  GoogleError, oauth_token_not_found_error, oauth_refresh_error, other_error, message, Codec, Post,
  google_shared_user, get_valid_google_token,
}

pub record DriveSearchInput : Type 0 where
  pub filters : Filters
  pub max_results : ℕ

pub record DriveListRecentInput : Type 0 where
  pub days : ℕ
  pub max_results : ℕ

pub record DriveFile : Type 0 where
  pub file_id : String
  pub name : String
  pub mime_type : String
  pub web_view_link : String
  pub modified_time : String

pub record DriveFileContent : Type 0 where
  pub file_id : String
  pub name : String
  pub content : String
  pub mime_type : String

-- a file of the API; a key that is not in it is `none`
pub record ApiFile : Type 0 where
  pub id : Option String
  pub name : Option String
  pub mime_type : Option String
  pub web_view_link : Option String
  pub modified_time : Option String

-- the first error of a ValidationError: where, and what
pub record Invalid : Type 0 where
  pub loc : List String
  pub msg : String

-- what the client raises
pub data ClientError : Type 0 where
  http_status_error : ℕ → ClientError
  request_error : String → ClientError
  other_client_error : String → ClientError

-- a result of a tool
pub data Answer (A : Type 0) : Type 0 where
  failure : String → Answer A
  success : A → Answer A

unfoldable pub is_given : Option String → Bool
is_given none = false
is_given (some v) = truthy v

unfoldable pub is_date : Option Date → Bool
is_date none = false
is_date (some d) = true

unfoldable pub has_filter : Filters → Bool
unfolding is_given is_date
has_filter f =
    is_given f.name_contains
    || (is_given f.full_text
        || (is_given f.mime_type || (is_given f.in_folder || is_date f.modified_after)))

-- the validator of the model, which comes after the fields
unfoldable pub require_filter : DriveSearchInput → Result Invalid DriveSearchInput
unfolding has_filter
require_filter args =
    if not (has_filter args.filters)
    then raise (record { loc = []; msg = "Value error, provide at least one search filter" })
    else ok args

-- `".".join(...) or "input"`
unfoldable pub place : List String → String
place loc = if truthy (join "." loc) then join "." loc else "input"

unfoldable pub key : Option String → String → Result String String
key none name = raise ("'" <> name <> "'")
key (some v) name = ok v

unfoldable pub to_drive_file : ApiFile → Result String DriveFile
unfolding key or_else
to_drive_file f = key f.id "id" >>= λ id. key f.name "name" >>= λ name.
    key f.mime_type "mimeType" >>= λ mime_type. ok (record {
      file_id = id;
      name = name;
      mime_type = mime_type;
      web_view_link = or_else f.web_view_link "";
      modified_time = or_else f.modified_time "";
    })

unfoldable pub to_drive_files : List ApiFile → Result String (List DriveFile)
unfolding to_drive_file
to_drive_files [] = ok []
to_drive_files (f ∷ fs) =
    to_drive_file f >>= λ file. to_drive_files fs >>= λ files. ok (file ∷ files)

abbrev pub not_authorized : String
not_authorized =
    "Google Drive is not authorized. Provision a shared refresh token via GOOGLE_SHARED_REFRESH_TOKEN (see README)."

-- `_get_drive_token`: the token, or the answer of the tool, or what is raised
unfoldable pub drive_token :
    {A : Type 0} → Result GoogleError String → Result (Result String (Answer A)) String
drive_token (ok token) = ok token
drive_token (raise oauth_token_not_found_error) = raise (ok (failure not_authorized))
drive_token (raise oauth_refresh_error) = raise (raise (message oauth_refresh_error))
drive_token (raise (other_error e)) = raise (raise e)

-- what the handlers do with the token, on the state of the outside
unfoldable pub with_token :
    {A W : Type 0}
    → Result GoogleError String
    → (String → W → Result String (Answer A) × W)
    → W
    → Result String (Answer A) × W
unfolding drive_token
with_token token call w = elim (drive_token token) [ ok t ↦ call t w | raise answer ↦ (answer, w) ]

-- the `except` clauses of the search
unfoldable pub searched :
    Result ClientError (List ApiFile) → Result String (Answer (List DriveFile))
unfolding to_drive_files
searched (ok files) = to_drive_files files >>= λ found. ok (success found)
searched (raise (http_status_error status)) =
    ok (failure ("Drive search failed: " <> decimal status))
searched (raise (request_error e)) = ok (failure "Drive search failed: network error")
searched (raise (other_client_error e)) = raise e

-- the two other calls have none
unfoldable pub uncaught :
    {A B : Type 0} → (A → Result String B) → Result ClientError A → Result String (Answer B)
uncaught f (ok a) = f a >>= λ b. ok (success b)
uncaught f (raise (http_status_error status)) = raise "HTTPStatusError"
uncaught f (raise (request_error e)) = raise e
uncaught f (raise (other_client_error e)) = raise e

module _ (S : Store) (c : Codec) (post : Post) {W : Type 0} where
  -- the token, and then a call of the client
  unfoldable pub with_drive :
      {A : Type 0}
      → S.State
      → ℕ
      → (String → W → Result String (Answer A) × W)
      → W
      → Result String (Answer A) × (S.State × W)
  unfolding with_token
  with_drive s now call w =
      let (token, s') = get_valid_google_token S c post s now google_shared_user in
      let (answer, w') = with_token token call w in (answer, (s', w'))

  unfoldable pub search_valid :
      (String → String → ℕ → W → Result ClientError (List ApiFile) × W)
      → S.State
      → ℕ
      → W
      → Result Invalid DriveSearchInput
      → Result String (Answer (List DriveFile)) × (S.State × W)
  unfolding place with_drive searched
  search_valid search_files s now w (raise e) =
      (ok (failure ("Invalid input: " <> place e.loc <> " — " <> e.msg)), (s, w))
  search_valid search_files s now w (ok args) =
      with_drive s now
        (λ t w.
          let (files, w') = search_files t (build_drive_query args.filters) args.max_results w in
          (searched files, w'))
        w

  unfoldable pub handle_drive_search_files :
      (String → String → ℕ → W → Result ClientError (List ApiFile) × W)
      → S.State
      → ℕ
      → W
      → Result Invalid DriveSearchInput
      → Result String (Answer (List DriveFile)) × (S.State × W)
  unfolding search_valid require_filter
  handle_drive_search_files search_files s now w fields =
      search_valid search_files s now w (fields >>= require_filter)

  unfoldable pub handle_drive_get_file_content :
      (String → String → W → Result ClientError DriveFileContent × W)
      → S.State
      → ℕ
      → W
      → Result String String
      → Result String (Answer DriveFileContent) × (S.State × W)
  unfolding with_drive uncaught
  handle_drive_get_file_content get_file_content s now w (raise e) =
      (ok (failure ("Invalid input: " <> e)), (s, w))
  handle_drive_get_file_content get_file_content s now w (ok file_id) =
      with_drive s now
        (λ t w. let (data_, w') = get_file_content t file_id w in (uncaught (λ a. ok a) data_, w'))
        w

  unfoldable pub handle_drive_list_recent :
      (String → ℕ → ℕ → W → Result ClientError (List ApiFile) × W)
      → S.State
      → ℕ
      → W
      → Result String DriveListRecentInput
      → Result String (Answer (List DriveFile)) × (S.State × W)
  unfolding with_drive uncaught to_drive_files
  handle_drive_list_recent list_recent s now w (raise e) =
      (ok (failure ("Invalid input: " <> e)), (s, w))
  handle_drive_list_recent list_recent s now w (ok args) =
      with_drive s now
        (λ t w.
          let (files, w') = list_recent t args.days args.max_results w in
          (uncaught to_drive_files files, w'))
        w
