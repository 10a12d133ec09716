-- ===== src/Integrations/Google/DriveClient.antt =====
-- app/integrations/google/drive_client.py. A clock gives the seconds since the first of March of the
-- year 0, UTC, on the calendar of `datetime`.
pub mod Requests
use mcp_agent_gateway.Base.{
  ℕ, ◌+◌, ◌-◌, ◌*◌, ◌/◌, ◌%◌, nat_eq, leb, ltb, decimal, String, string_eq, ◌<>◌, starts_with, Bool,
  true, false, ◌||◌, Option, none, some, List, [], ◌∷◌, if◌then◌else◌,
}
use mcp_agent_gateway.Base.Dict.{Dict}
use mcp_agent_gateway.Base.Json.{Json, Items, no_items, Members, text, array, get_member}
use mcp_agent_gateway.Base.Result.{Result, ok, raise, ◌>>=◌}
use mcp_agent_gateway.Integrations.Http.{
  ClientError, http_status_error, slack_api_error, other_error, Method, get, Request, Reply, Send,
  ◌>>>◌, now, json_object, item_of, send_ok,
}
use mcp_agent_gateway.Integrations.Retrying.{Retrying}

unfoldable pub is_retryable : ClientError → Bool
is_retryable (http_status_error c) = nat_eq c 429 || nat_eq c 500 || nat_eq c 502 || nat_eq c 503
is_retryable (slack_api_error m) = false
is_retryable (other_error name) = false

unfoldable pub auth : String → String
auth token = "Bearer " <> token

abbrev pub file_fields : String
file_fields = "id,name,mimeType,webViewLink,modifiedTime"

-- a GET at the API
abbrev pub api_get : String → String → Dict String String → Request
api_get token path fields = record {
  method = get;
  path = path;
  authorization = "Bearer " <> token;
  fields = fields;
}

-- `resp.json().get("files", [])`
unfoldable pub files_of : Members → Json
files_of body = elim (get_member "files" body) [ none ↦ array no_items | some v ↦ v ]

-- two digits
unfoldable pub padded : ℕ → String
padded n = if ltb n 10 then "0" <> decimal n else decimal n

-- the date of a day, counted from the first of March of the year 0
unfoldable pub date_text : ℕ → String
unfolding padded
date_text day =
    let era = day / 146097 in
    let of_era = day % 146097 in
    let year = (of_era - of_era / 1460 + of_era / 36524 - of_era / 146096) / 365 in
    let of_year = of_era - (365 * year + year / 4 - year / 100) in
    let from_march = (5 * of_year + 2) / 153 in
    let month = if ltb from_march 10 then from_march + 3 else from_march - 9 in
    let next = if leb month 2 then 1 else 0 in
    decimal (year + era * 400 + next)
    <> ("-" <> (padded month <> ("-" <> padded (of_year - (153 * from_march + 2) / 5 + 1))))

-- `strftime("%Y-%m-%dT%H:%M:%S")`
unfoldable pub instant_text : ℕ → String
unfolding date_text padded
instant_text seconds =
    let of_day = seconds % 86400 in
    date_text (seconds / 86400)
    <> ("T"
        <> (padded (of_day / 3600)
            <> (":" <> (padded (of_day / 60 % 60) <> (":" <> padded (of_day % 60))))))

-- `datetime.now(UTC) - timedelta(days=days)`, which raises before the year 1
unfoldable pub since : ℕ → ℕ → Result ClientError String
unfolding instant_text
since clock days =
    if leb ((days + 306) * 86400) clock
    then ok (instant_text (clock - days * 86400))
    else raise (other_error "OverflowError")

abbrev pub recent_request : String → ℕ → String → Request
recent_request token max_results day = api_get token "/drive/v3/files" (
    ("q", "modifiedTime > '" <> (day <> "'"))
    ∷ ("pageSize", decimal max_results)
    ∷ ("orderBy", "modifiedTime desc")
    ∷ ("fields", "files(" <> (file_fields <> ")"))
    ∷ [])

-- what `get_file_content` returns
pub record FileContent : Type 0 where
  pub file_id : Json
  pub name : Json
  pub content : String
  pub mime_type : String

-- `meta["mimeType"]`, whose `startswith` is called
unfoldable pub mime_of : Members → Result ClientError String
mime_of meta = item_of "mimeType" meta >>= λ v. elim v [
  | text s ↦ ok s
  | _ ↦ raise (other_error "AttributeError")
]

unfoldable pub content_request : String → String → String → Request
unfolding starts_with
content_request token file_id mime =
    if starts_with mime "application/vnd.google-apps."
    then api_get token ("/drive/v3/files/" <> (file_id <> "/export"))
        (("mimeType", "text/plain") ∷ [])
    else api_get token ("/drive/v3/files/" <> file_id) (("alt", "media") ∷ [])

unfoldable pub content_of : Members → String → Reply → Result ClientError FileContent
content_of meta mime resp = item_of "id" meta >>= λ id. item_of "name" meta >>= λ name.
    ok (record { file_id = id; name = name; content = resp.text; mime_type = mime })

module _ {W : Type 0} (T : Retrying W ClientError) (send : Send W) (max_retries : ℕ) where
  unfoldable pub try_search : String → String → ℕ → W → Result ClientError Json × W
  unfolding files_of
  try_search token q max_results w =
      send_ok send
        (api_get token "/drive/v3/files" (
          ("q", q)
          ∷ ("pageSize", decimal max_results)
          ∷ ("fields", "files(" <> (file_fields <> ")"))
          ∷ []))
        w
      >>> λ resp. now (json_object "AttributeError" resp >>= λ body. ok (files_of body))

  unfoldable pub search_files : String → String → ℕ → W → Result ClientError Json × W
  unfolding is_retryable try_search
  search_files token q max_results =
      T.run is_retryable max_retries 1 (try_search token q max_results)

  unfoldable pub try_content : String → String → W → Result ClientError FileContent × W
  unfolding mime_of content_request content_of
  try_content token file_id w =
      send_ok send
        (api_get token ("/drive/v3/files/" <> file_id) (("fields", "id,name,mimeType") ∷ [])) w
      >>> (λ meta_resp.
          now (
            json_object "TypeError" meta_resp >>= λ meta. mime_of meta >>= λ mime. ok (meta, mime)))
      >>> (λ (meta, mime) w. send_ok send (content_request token file_id mime) w >>> λ content_resp.
          now (content_of meta mime content_resp))

  unfoldable pub get_file_content : String → String → W → Result ClientError FileContent × W
  unfolding is_retryable try_content
  get_file_content token file_id = T.run is_retryable max_retries 1 (try_content token file_id)

  unfoldable pub try_export : String → String → String → W → Result ClientError (List ℕ) × W
  try_export token file_id export_mime w =
      send_ok send
        (api_get token ("/drive/v3/files/" <> (file_id <> "/export"))
          (("mimeType", export_mime) ∷ []))
        w
      >>> λ resp. now (ok resp.content)

  unfoldable pub export_file : String → String → String → W → Result ClientError (List ℕ) × W
  unfolding is_retryable try_export
  export_file token file_id export_mime =
      T.run is_retryable max_retries 1 (try_export token file_id export_mime)

  -- the clock is read in every attempt
  unfoldable pub try_recent : (W → ℕ) → String → ℕ → ℕ → W → Result ClientError Json × W
  unfolding since files_of
  try_recent clock token days max_results w =
      (since (clock w) days, w)
      >>> (λ day. send_ok send (recent_request token max_results day))
      >>> λ resp. now (json_object "AttributeError" resp >>= λ body. ok (files_of body))

  unfoldable pub list_recent : (W → ℕ) → String → ℕ → ℕ → W → Result ClientError Json × W
  unfolding is_retryable try_recent
  list_recent clock token days max_results =
      T.run is_retryable max_retries 1 (try_recent clock token days max_results)
