-- ===== src/Integrations/Http.antt =====
-- httpx, as the two clients of the upstream APIs use it: a request on the state of the world.
use mcp_agent_gateway.Base.{ℕ, leb, ltb, String, ◌&&◌, Option, none, some, List, if◌then◌else◌}
use mcp_agent_gateway.Base.Dict.{Dict}
use mcp_agent_gateway.Base.Json.{Json, Members, object, get_member}
use mcp_agent_gateway.Base.Result.{Result, ok, raise}

-- `httpx.HTTPStatusError`, `SlackAPIError`, and any other exception by its name
pub data ClientError : Type 0 where
  http_status_error : ℕ → ClientError
  slack_api_error : Json → ClientError
  other_error : String → ClientError

pub data Method : Type 0 where
  get : Method
  post : Method

-- the fields of a GET are its query, those of a POST its form
pub record Request : Type 0 where
  pub method : Method
  pub path : String
  pub authorization : String
  pub fields : Dict String String

pub record Reply : Type 0 where
  pub status_code : ℕ
  -- `resp.json()`, `none` for a body that is not JSON
  pub json : Option Json
  pub text : String
  pub content : List ℕ

-- an answer, or the name of an exception of the transport
abbrev pub Send : Type 0 → Type 0
Send W = Request → W → Result String Reply × W

-- `await f()` and then the rest, on the state that the call has left
infixl 10 ◌>>>◌
abbrev pub ◌>>>◌ :
    {W A B : Type 0}
    → Result ClientError A × W
    → (A → W → Result ClientError B × W)
    → Result ClientError B × W
(ok a, w) >>> f = f a w
(raise e, w) >>> f = (raise e, w)

-- a step that does not wait
abbrev pub now : {W A : Type 0} → Result ClientError A → W → Result ClientError A × W
now r w = (r, w)

-- `resp.raise_for_status()`: an answer that is not 2xx raises
unfoldable pub raise_for_status : Reply → Result ClientError Reply
raise_for_status resp =
    if leb 200 resp.status_code && ltb resp.status_code 300
    then ok resp
    else raise (http_status_error resp.status_code)

-- `resp.json()` where an object is wanted: `error` is what another value leads to
unfoldable pub json_object : String → Reply → Result ClientError Members
json_object error resp = elim resp.json [
  | none ↦ raise (other_error "JSONDecodeError")
  | some (object fields) ↦ ok fields
  | some _ ↦ raise (other_error error)
]

-- `body[key]`
unfoldable pub item_of : String → Members → Result ClientError Json
item_of key fields = elim (get_member key fields) [
  | none ↦ raise (other_error "KeyError")
  | some v ↦ ok v
]

-- what the call of the client gives, after `resp.raise_for_status()`
unfoldable pub checked : {W : Type 0} → Result String Reply × W → Result ClientError Reply × W
unfolding raise_for_status
checked (ok resp, w) = (raise_for_status resp, w)
checked (raise name, w) = (raise (other_error name), w)

-- `await client.get(…)` or `await client.post(…)`, and `resp.raise_for_status()`
unfoldable pub send_ok : {W : Type 0} → Send W → Request → W → Result ClientError Reply × W
unfolding checked
send_ok send request w = checked (send request w)
