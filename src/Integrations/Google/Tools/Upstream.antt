-- ===== src/Integrations/Google/Tools/Upstream.antt =====
-- The Drive tools with the Drive client of the gateway: what a call of a tool sends to Drive.
use mcp_agent_gateway.Base.{ℕ, ◌*◌, String, List, ◌≡◌, refl, ap, ◌⊎◌, inl, inr}
use mcp_agent_gateway.Base.Json.{Json}
use mcp_agent_gateway.Base.Result.{Result, ok, raise, ◌>>=◌}
use mcp_agent_gateway.Shared.Store.{Store}
use mcp_agent_gateway.Integrations.Http as Http
use mcp_agent_gateway.Integrations.Http.{Request, Send}
use mcp_agent_gateway.Integrations.Retrying.{Retrying, IsLawful}
use mcp_agent_gateway.Integrations.Google.DriveQuery.{build_drive_query}
use mcp_agent_gateway.Integrations.Google.DriveClient as DriveClient
use mcp_agent_gateway.Integrations.Google.DriveClient.Requests.{
  logged, Reads, DriveClient-InAttempts,
}
use mcp_agent_gateway.Integrations.Google.TokenStore.{
  Codec, Post, google_shared_user, get_valid_google_token,
}
use mcp_agent_gateway.Integrations.Google.Tools.{
  DriveSearchInput, DriveListRecentInput, DriveFile, DriveFileContent, searched, uncaught,
  to_drive_files, ApiFile, Invalid, ClientError, Answer, require_filter, with_drive, search_valid,
  handle_drive_search_files, handle_drive_get_file_content, handle_drive_list_recent,
}
use mcp_agent_gateway.Integrations.Google.Tools.Query.{with_drive_cases}

-- a method of the client, its result as the tools read it
abbrev pub read_by :
    {A B W : Type 0}
    → (Result Http.ClientError A → Result ClientError B)
    → Result Http.ClientError A × W
    → Result ClientError B × W
read_by read (r, w) = (read r, w)

module _ (S : Store) (k : Codec) (post : Post) {W : Type 0}
    (T : Retrying (List Request × W) Http.ClientError) (send : Send W) (max_retries : ℕ)
    (s : S.State) (now : ℕ) where
  -- Nothing is sent, or at most `c` requests in each of at most `max_retries` attempts, all of them
  -- reads with the shared token.
  abbrev pub SharedReads : ℕ → List Request → List Request → Type 0
  SharedReads c log log' =
      (log' ≡ log)
      ⊎ ((token : String) × ((get_valid_google_token S k post s now google_shared_user).0
            ≡ ok token)
          × (Reads token c log log' ⊎ Reads token (c * max_retries) log log'))

  with_drive-SharedReads :
      {A : Type 0} (c : ℕ)
      (call : String → List Request × W → Result String (Answer A) × (List Request × W))
      (w : List Request × W)
      → ((t : String) → Reads t c w.0 (call t w).1.0 ⊎ Reads t (c * max_retries) w.0 (call t w).1.0)
      → SharedReads c w.0 (with_drive S k post s now call w).1.1.0
  with_drive-SharedReads {A = A} c call w h =
      elim (with_drive_cases S k post (List Request × W) s now {A = A}) [
        | inl (r, e) ↦ inl (ap (λ v. v.0) (e call w).1)
        | inr (t, got, e) ↦ inr (t, got, rw (e call w).1 (h t))
      ]

  module _ (L : IsLawful T)
      (read_files : Result Http.ClientError Json → Result ClientError (List ApiFile))
      (read_content : Result Http.ClientError DriveClient.FileContent
        → Result ClientError DriveFileContent) where
    abbrev pub search : List Request × W → Result Invalid DriveSearchInput → List Request
    search w fields =
        (handle_drive_search_files S k post
          (λ t q n w.
            read_by read_files (DriveClient.search_files T (logged send) max_retries t q n w))
          s now w fields).1.1.0

    abbrev pub get_content : List Request × W → Result String String → List Request
    get_content w fields =
        (handle_drive_get_file_content S k post
          (λ t id w.
            read_by read_content (DriveClient.get_file_content T (logged send) max_retries t id w))
          s now w fields).1.1.0

    abbrev pub list_recent :
        (List Request × W → ℕ)
        → List Request × W
        → Result String DriveListRecentInput
        → List Request
    list_recent clock w fields =
        (handle_drive_list_recent S k post
          (λ t days n w.
            read_by read_files
              (DriveClient.list_recent T (logged send) max_retries clock t days n w))
          s now w fields).1.1.0

    search_valid-SharedReads :
        (w : List Request × W) (valid : Result Invalid DriveSearchInput)
        → SharedReads 1 w.0
            (search_valid S k post
              (λ t q n w.
                read_by read_files (DriveClient.search_files T (logged send) max_retries t q n w))
              s
              now
              w
              valid).1.1.0
    unfolding search_valid
    search_valid-SharedReads w (raise e) = inl refl
    search_valid-SharedReads w (ok args) =
        let q : String = build_drive_query args.filters in
        let call : String
            → List Request × W
            → Result String (Answer (List DriveFile)) × (List Request × W) =
          λ t w.
            let found =
              DriveClient.search_files T (logged send) max_retries t q args.max_results w in
            (searched (read_files found.0), found.1) in
        with_drive-SharedReads 1 call w (λ t.
          (DriveClient-InAttempts T send max_retries (λ v. 0) t q "" "" 0 args.max_results w L).0)

    search-SharedReads :
        (w : List Request × W) (fields : Result Invalid DriveSearchInput)
        → SharedReads 1 w.0 (search w fields)
    unfolding handle_drive_search_files
    search-SharedReads w fields = search_valid-SharedReads w (fields >>= require_filter)

    get_content-SharedReads :
        (w : List Request × W) (fields : Result String String)
        → SharedReads 2 w.0 (get_content w fields)
    unfolding handle_drive_get_file_content
    get_content-SharedReads w (raise e) = inl refl
    get_content-SharedReads w (ok file_id) =
        let call : String
            → List Request × W
            → Result String (Answer DriveFileContent) × (List Request × W) =
          λ t w.
            let found = DriveClient.get_file_content T (logged send) max_retries t file_id w in
            (uncaught (λ a. ok a) (read_content found.0), found.1) in
        with_drive-SharedReads 2 call w
          (λ t. (DriveClient-InAttempts T send max_retries (λ v. 0) t "" file_id "" 0 0 w L).1)

    list_recent-SharedReads :
        (clock : List Request × W → ℕ) (w : List Request × W)
        (fields : Result String DriveListRecentInput)
        → SharedReads 1 w.0 (list_recent clock w fields)
    unfolding handle_drive_list_recent
    list_recent-SharedReads clock w (raise e) = inl refl
    list_recent-SharedReads clock w (ok args) =
        let call : String
            → List Request × W
            → Result String (Answer (List DriveFile)) × (List Request × W) =
          λ t w.
            let found =
              DriveClient.list_recent T (logged send) max_retries clock t args.days args.max_results
                w in
            (uncaught to_drive_files (read_files found.0), found.1) in
        with_drive-SharedReads 1 call w (λ t.
          (DriveClient-InAttempts T send max_retries clock t "" "" "" args.days args.max_results w
            L).3)

    -- With tenacity as documented, a call of a Drive tool sends nothing to Drive, or only GET requests
    -- with the shared token: a search and a list of the recent files at most `max_retries`, the
    -- reading of a file at most twice as many, and with `max_retries` 0 one and two at most.
    pub drive_tools-SharedReads :
        (clock : List Request × W → ℕ) (w : List Request × W)
        (search_fields : Result Invalid DriveSearchInput) (file_fields : Result String String)
        (recent_fields : Result String DriveListRecentInput)
        → SharedReads 1 w.0 (search w search_fields)
          × SharedReads 2 w.0 (get_content w file_fields)
          × SharedReads 1 w.0 (list_recent clock w recent_fields)
    drive_tools-SharedReads clock w search_fields file_fields recent_fields = (
      search-SharedReads w search_fields,
      get_content-SharedReads w file_fields,
      list_recent-SharedReads clock w recent_fields,
    )
