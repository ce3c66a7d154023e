-- ===== src/Gateway/Serve.antt =====
-- `ServeHTTP` and `login` of internal/webgateway/server.go: the guards of a request, in order, and
-- the handler that it reaches. One request is one step.
pub mod Guards
use mihomo_loongnix.Prelude.{
  ℕ, String, Bool, true, false, not, ◌&&◌, ◌||◌, List, [], ◌∷◌, Option, none, some, if◌then◌else◌,
  ◌==◌, string_eq,
}
use mihomo_loongnix.Prelude.Int.{pos, ltb_ℤ}
use mihomo_loongnix.Prelude.Text.{has_prefix, has_prefix_by, lower}
use mihomo_loongnix.Config.Store.{Result, ok, err}
use mihomo_loongnix.Gateway.Requests.{
  Request, Response, failure, healthy, static_page, summary_page, capabilities, signed_out,
  refreshed, auth_mode, session_info, signed_in, log_stream, Codec,
}
use mihomo_loongnix.Gateway.Routes.{forward, invalid_input}
use mihomo_loongnix.Gateway.Sessions.{
  Session, Server, get_session, revoke, issue_session, refresh, count_login,
}

-- `origin` is the public URL without its trailing slashes, and `host` the host in it.
pub record GatewayConfig : Type 0 where
  pub origin : String
  pub host : String
  pub mode : String

-- What a request meets: the time, the random tokens, the locks that other requests hold, the
-- password check, and `strings.EqualFold`.
pub record Moment : Type 0 where
  pub now : ℕ
  pub new_id : String
  pub new_csrf : String
  pub password_busy : Bool
  pub write_busy : Bool
  pub delay_busy : Bool
  pub check_password : String → Bool
  pub equal_fold : String → String → Bool

abbrev pub forbidden : Response
forbidden = failure 403 "FORBIDDEN"

abbrev pub bad_method : Response
bad_method = failure 405 "INVALID_INPUT"

-- What `issueSession` gave, at the end of `login`.
abbrev pub signed : Option (String × Session) × Server → Response × Server
signed (none, s) = (failure 429 "RATE_LIMITED", s)
signed (some (id, v), s) = (signed_in v.csrf, s)

module _ (cfg : GatewayConfig) (codec : Codec) where
  -- `login` after the body was decoded.
  unfoldable pub try_password : Moment → String → Server → Response × Server
  try_password m password s =
      let counted = count_login m.now s in
      if counted.0
      then (failure 429 "RATE_LIMITED", counted.1)
      else if m.password_busy
      then (failure 429 "RATE_LIMITED", counted.1)
      else if not (m.check_password password)
      then (failure 401 "UNAUTHORIZED", counted.1)
      else signed (issue_session m.now m.new_id m.new_csrf counted.1)

  unfoldable pub login : Moment → Request → Server → Response × Server
  login m r s = if not (r.method == "POST") then (bad_method, s) else elim (codec.password r.body) [
    | none ↦ (invalid_input, s)
    | some password ↦ try_password m password s
  ]

  -- The switch at the end of `ServeHTTP`.
  unfoldable pub dispatch : Moment → Request → String → Session → Server → Response × Server
  dispatch m r id v s =
      if r.path == "/api/v1/auth/session"
      then (if not (r.method == "GET") then bad_method else session_info v.csrf, s)
      else if r.path == "/api/v1/auth/logout"
      then if not (r.method == "POST")
        then (bad_method, s)
        else if not (codec.empty r.body)
        then (invalid_input, s)
        else (signed_out, revoke id s)
      else if r.path == "/api/v1/auth/refresh"
      then if not (r.method == "POST")
        then (bad_method, s)
        else if not (codec.empty r.body)
        then (invalid_input, s)
        else (refreshed, refresh m.now id s)
      else if r.path == "/api/v1/capabilities"
      then (if not (r.method == "GET") then bad_method else capabilities, s)
      else if r.path == "/api/v1/logs/stream"
      then (if not (r.method == "GET") then bad_method else log_stream id, s)
      else (forward codec m.write_busy m.delay_busy r, s)

  -- The CSRF guard, for a request with a session.
  unfoldable pub with_session : Moment → Request → String → Session → Server → Response × Server
  with_session m r id v s =
      if not (r.method == "GET") && not (r.csrf_token == v.csrf)
      then (forbidden, s)
      else dispatch m r id v s

  -- What `issueSession` gave, for a request without a session in external mode.
  abbrev pub admitted : Moment → Request → Option (String × Session) × Server → Response × Server
  admitted m r (none, s) = (failure 429 "RATE_LIMITED", s)
  admitted m r (some (id, v), s) = with_session m r id v s

  -- A request without a session.
  unfoldable pub without_session : Moment → Request → Server → Response × Server
  without_session m r s =
      if cfg.mode == "external" && r.method == "GET" && r.path == "/api/v1/auth/session"
      then if r.sec_fetch_site == "cross-site"
          || (not (r.origin == "") && not (r.origin == cfg.origin))
        then (forbidden, s)
        else admitted m r (issue_session m.now m.new_id m.new_csrf s)
      else (failure 401 "UNAUTHORIZED", s)

  abbrev pub resumed : Moment → Request → Option (String × Session) × Server → Response × Server
  resumed m r (none, s) = without_session m r s
  resumed m r (some (id, v), s) = with_session m r id v s

  -- After the guards on the headers.
  unfoldable pub serve_api : Moment → Request → Server → Response × Server
  serve_api m r s =
      if r.path == "/api/v1/auth/mode"
      then (if not (r.method == "GET") then bad_method else auth_mode cfg.mode, s)
      else if r.path == "/api/v1/auth/login"
      then if cfg.mode == "external"
        then (failure 405 "PASSWORD_LOGIN_DISABLED", s)
        else login m r s
      else resumed m r (get_session m.now r.cookie s)

  -- The guards on the headers of a request under /api/.
  unfoldable pub header_problem : Request → Option Response
  header_problem r =
      if not (r.method == "GET") && not (r.origin == cfg.origin)
      then some forbidden
      else if not (r.method == "GET") && not (has_prefix_by lower r.content_type "application/json")
      then some invalid_input
      else if ltb_ℤ (pos 65536) r.content_length
      then some invalid_input
      else none

  abbrev pub checked_api : Moment → Request → Server → Option Response → Response × Server
  checked_api m r s none = serve_api m r s
  checked_api m r s (some e) = (e, s)

  unfoldable pub serve_http : Moment → Request → Server → Response × Server
  serve_http m r s =
      if r.path == "/healthz"
      then (if not (r.method == "GET") then bad_method else healthy, s)
      else if r.path == "/api/v1/summary"
      then (summary_page, s)
      else if not (r.authorization == "")
      then (forbidden, s)
      else if not (m.equal_fold r.host cfg.host)
      then (forbidden, s)
      else if not (has_prefix r.path "/api/")
      then (static_page, s)
      else checked_api m r s (header_problem r)
