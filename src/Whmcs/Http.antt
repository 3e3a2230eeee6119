-- ===== src/Whmcs/Http.antt =====
-- `doForm` (internal/whmcs/oauth.go) and the errors of the clients. The network, the clock, the
-- context and the random numbers are the environment's, a record of functions on an unknown state.
use continuum_plugin_whmcs_l.Prelude.{ℕ, String, Bool, List, Option, Result, ok, err}
use continuum_plugin_whmcs_l.Prelude.Steps.{Steps}
use continuum_plugin_whmcs_l.Json.{Value}

-- A request: the method, the URL, the form that is its body, and the bearer token, if there is one.
pub record Request : Type 0 where
  pub method : String
  pub endpoint : String
  pub form : Option (List (String × String))
  pub bearer : Option String

-- What `http.Client.Do` and the reading of the body come to: no request can be made of the URL, no
-- answer, an answer whose body breaks off, or a status and a body; `none` is a body that is no JSON.
pub data Reply : Type 0 where
  bad_request unreachable : Reply
  broken_body : ℕ → Reply
  answered : ℕ → Option Value → Reply

pub record World : Type 1 where
  pub State : Type 0
  pub send : Request → State → Reply × State
  pub now : State → ℕ × State
  -- `time.NewTimer` against `ctx.Done()`: whether the context was cancelled first
  pub sleep : ℕ → State → Bool × State
  -- `ctx.Err() != nil`
  pub cancelled : State → Bool
  -- `rand.Int63n(n)`
  pub draw : ℕ → State → ℕ × State

pub data Operation : Type 0 where
  token_endpoint refresh_token_endpoint userinfo_endpoint whmcs_api : Operation

-- `retryable` is the marker `retryableError`.
pub data WhmcsError : Type 0 where
  malformed_url transport read_body decode missing_access_token missing_subject :
      Operation → WhmcsError
  status : Operation → ℕ → WhmcsError
  unsupported_token_type : Operation → String → WhmcsError
  api_message : String → WhmcsError
  bad_product : ℕ → WhmcsError
  bad_shape context_cancelled : WhmcsError
  retryable : WhmcsError → WhmcsError

abbrev read_reply : Operation → Reply → Result WhmcsError (ℕ × Option Value)
read_reply op bad_request = err (malformed_url op)
read_reply op unreachable = err (retryable (transport op))
read_reply op (broken_body code) = err (retryable (read_body op))
read_reply op (answered code body) = ok (code, body)

module _ (w : World) where
  unfoldable pub do_form : Operation → Request → Steps w.State WhmcsError (ℕ × Option Value)
  do_form op r s = let (reply, s') = w.send r s in (read_reply op reply, s')
