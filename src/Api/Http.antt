-- ===== src/Api/Http.antt =====
-- pkg/polarisapi/service_api.go: polarisHttpRequest, lookAccessToken and CheckHealth. The server is
-- a function from the requests sent before (newest first) and the request to its reply.
use polaris_controller.Common.{
  ℕ, String, Bool, false, ◌==◌, eqb, if◌then◌else◌, Option, none, some, List, ◌∷◌,
}
use polaris_controller.Common.Outcome.{
  remote, bad_body, refused, Outcome, ok, err, Exec, pure, lift, ◌>>=◌,
}
use polaris_controller.Api.Types.{
  Body, Request, get_user_token, check_health, Sent, Reply, unreachable, answered,
}

abbrev pub Server : Type 0
Server = List Sent → Sent → Reply

-- PolarisOperator and PolarisAccessToken
pub record Access : Type 0 where
  pub operator : String
  pub access_token : String

abbrev pub Io : Type 0 → Type 0
Io A = Exec (List Sent) A

-- http.DefaultClient.Do: the request is recorded and answered.
pub transfer : Server → Sent → Io Reply
transfer server sent history = (ok (server history sent), sent ∷ history)

abbrev pub status_ok : ℕ
status_ok = 200

module _ (server : Server) (access : Access) where
  token_of : Reply → Outcome String
  token_of (unreachable e) = err (remote e)
  token_of (answered status none) =
      if eqb status status_ok then err bad_body else err (refused status)
  token_of (answered status (some body)) =
      if eqb status status_ok then ok body.auth_token else err (refused status)

  unfoldable pub look_access_token : Io String
  unfolding transfer token_of
  look_access_token = if access.operator == "" then pure access.access_token else do
    reply ←
        transfer server
          (record { token = access.access_token; request = get_user_token access.operator })
    lift (token_of reply)

  answer_of : Reply → Outcome (ℕ × Option Body)
  answer_of (unreachable e) = err (remote e)
  answer_of (answered status body) = ok (status, body)

  unfoldable pub polaris_http_request : Request → Io (ℕ × Option Body)
  unfolding look_access_token transfer answer_of
  polaris_http_request req = do
    token ← look_access_token
    reply ← transfer server (record { token = token; request = req })
    lift (answer_of reply)

  is_healthy : Outcome (ℕ × Option Body) → Bool
  is_healthy (ok (status, body)) = eqb status status_ok
  is_healthy _ = false

  -- CheckHealth: never an error.
  unfoldable pub check_health_request : Io Bool
  unfolding polaris_http_request is_healthy
  check_health_request history =
      let (r, history') = polaris_http_request check_health history in (ok (is_healthy r), history')
