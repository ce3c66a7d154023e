-- ===== src/Gateway/Serve/Guards.antt =====
-- Which requests reach the manager.
use mihomo_loongnix.Prelude.{
  ◌+◌, ◌<◌, find_value, refl, not, string_eq, arith, if◌then◌else◌, none, ◌⊎◌, ◌==◌, some, String,
  ◌≡◌, Option,
}
use mathlib.Core.Bool.{true}
use mathlib.Core.Bool.{false}
use mihomo_loongnix.Prelude.Text.{has_prefix, has_prefix_by, lower}
use mihomo_loongnix.Gateway.Requests.{Request, Call, Response, Codec, forwarded}
use mihomo_loongnix.Gateway.Routes.{forward, invalid_input}
use mihomo_loongnix.Gateway.Sessions.{Session, Server, get_session, issue_session, count_login}
use mihomo_loongnix.Gateway.Sessions.Life.{get_session_iff}
use mihomo_loongnix.Gateway.Serve.{
  GatewayConfig, Moment, bad_method, signed, try_password, login, dispatch, with_session, admitted,
  without_session, resumed, serve_api, header_problem, checked_api, serve_http,
}

module _ (cfg : GatewayConfig) (codec : Codec) (m : Moment) (r : Request) (c : Call) where
  signed-not_forwarded :
      (given : Option (String × Session) × Server) → (signed given).0 ≡ forwarded c → ⊥
  signed-not_forwarded (none, s) h = cc
  signed-not_forwarded (some (id, v), s) h = cc

  try_password-not_forwarded :
      (password : String) (s : Server) → (try_password cfg codec m password s).0 ≡ forwarded c → ⊥
  unfolding try_password
  try_password-not_forwarded password s h = ground (
    arith,
    signed-not_forwarded (issue_session m.now m.new_id m.new_csrf (count_login m.now s).1),
    (count_login m.now s).0,
    m.password_busy,
    m.check_password password,
  )

  login-not_forwarded : (s : Server) → (login cfg codec m r s).0 ≡ forwarded c → ⊥
  unfolding login
  login-not_forwarded s h = go (codec.password r.body) h
    where
      answer : Option String → Response × Server
      answer body = if not (r.method == "POST") then (bad_method, s) else elim body [
        | none ↦ (invalid_input, s)
        | some password ↦ try_password cfg codec m password s
      ]

      go : (body : Option String) → (answer body).0 ≡ forwarded c → ⊥
      go none k = ground arith
      go (some password) k = ground (arith, try_password-not_forwarded password s)

  dispatch-forwarded :
      (id : String) (v : Session) (s : Server)
      → (dispatch cfg codec m r id v s).0 ≡ forwarded c
      → ((r.path == "/api/v1/auth/session") ≡ false)
        × (forward codec m.write_busy m.delay_busy r ≡ forwarded c)
  unfolding dispatch
  dispatch-forwarded id v s h = ground arith

  with_session-forwarded :
      (id : String) (v : Session) (s : Server)
      → (with_session cfg codec m r id v s).0 ≡ forwarded c
      → ((r.method ≡ "GET") ⊎ (r.csrf_token ≡ v.csrf))
        × ((r.path == "/api/v1/auth/session") ≡ false)
        × (forward codec m.write_busy m.delay_busy r ≡ forwarded c)
  unfolding with_session
  with_session-forwarded id v s h = ground (
    arith,
    dispatch-forwarded id v s,
    string_eq.beq_iff r.method "GET",
    string_eq.beq_iff r.csrf_token v.csrf,
  )

  admitted-not_forwarded :
      (given : Option (String × Session) × Server)
      → (r.path == "/api/v1/auth/session") ≡ true
      → (admitted cfg codec m r given).0 ≡ forwarded c
      → ⊥
  admitted-not_forwarded (none, s) p h = cc
  admitted-not_forwarded (some (id, v), s) p h = ground (arith, with_session-forwarded id v s h, p)

  without_session-not_forwarded :
      (s : Server) → (without_session cfg codec m r s).0 ≡ forwarded c → ⊥
  unfolding without_session
  without_session-not_forwarded s h = ground (
    arith,
    admitted-not_forwarded (issue_session m.now m.new_id m.new_csrf s),
    cfg.mode == "external",
    r.method == "GET",
    r.path == "/api/v1/auth/session",
  )

  header_problem-none :
      header_problem cfg codec r ≡ none
      → (r.method ≡ "GET")
        ⊎ ((r.origin ≡ cfg.origin) × (has_prefix_by lower r.content_type "application/json" ≡ true))
  unfolding header_problem
  header_problem-none h = ground (
    arith,
    string_eq.beq_iff r.method "GET",
    string_eq.beq_iff r.origin cfg.origin,
    has_prefix_by lower r.content_type "application/json",
  )

  -- What the request of a call that is passed on has shown.
  pub record IsAdmitted (s : Server) : Type 0 where
    pub no_token : r.authorization ≡ ""
    pub host : m.equal_fold r.host cfg.host ≡ true
    pub id : String
    pub session : Session
    pub cookie : r.cookie ≡ some id
    pub in_table : find_value id s.sessions ≡ some session
    pub young : m.now < session.created + 43200000000000
    pub used : m.now < session.last + 1800000000000
    pub same_site :
        (r.method ≡ "GET")
        ⊎ ((r.origin ≡ cfg.origin)
            × (has_prefix_by lower r.content_type "application/json" ≡ true)
            × (r.csrf_token ≡ session.csrf))
    pub call : forward codec m.write_busy m.delay_busy r ≡ forwarded c

  abbrev HasSession : Server → Type 0
  HasSession s =
      (id : String) × (v : Session) × ((get_session m.now r.cookie s).0 ≡ some (id, v))
      × ((r.method ≡ "GET") ⊎ (r.csrf_token ≡ v.csrf))
      × (forward codec m.write_busy m.delay_busy r ≡ forwarded c)

  resumed-forwarded :
      (given : Option (String × Session) × Server)
      → (resumed cfg codec m r given).0 ≡ forwarded c
      → (id : String) × (v : Session) × (given.0 ≡ some (id, v))
        × ((r.method ≡ "GET") ⊎ (r.csrf_token ≡ v.csrf))
        × (forward codec m.write_busy m.delay_busy r ≡ forwarded c)
  resumed-forwarded (none, s) h = absurd (without_session-not_forwarded s h)
  resumed-forwarded (some (id, v), s) h =
      let facts : ((r.method ≡ "GET") ⊎ (r.csrf_token ≡ v.csrf))
          × ((r.path == "/api/v1/auth/session") ≡ false)
          × (forward codec m.write_busy m.delay_busy r ≡ forwarded c) =
        with_session-forwarded id v s h in
      (id, v, refl, facts.0, facts.2)

  serve_api-forwarded : (s : Server) → (serve_api cfg codec m r s).0 ≡ forwarded c → HasSession s
  unfolding serve_api
  serve_api-forwarded s h = resumed-forwarded (get_session m.now r.cookie s) reached
    where
      reached : (resumed cfg codec m r (get_session m.now r.cookie s)).0 ≡ forwarded c
      reached = ground (arith, login-not_forwarded s, cfg.mode == "external")

  checked_api-forwarded :
      (s : Server) (problem : Option Response)
      → header_problem cfg codec r ≡ problem
      → (checked_api cfg codec m r s problem).0 ≡ forwarded c
      → (problem ≡ none) × HasSession s
  unfolding header_problem
  checked_api-forwarded s none e h = (refl, serve_api-forwarded s h)
  checked_api-forwarded s (some p) e h = absurd (ground arith)

  serve_http-checked :
      (s : Server)
      → (serve_http cfg codec m r s).0 ≡ forwarded c
      → (r.authorization ≡ "")
        × (m.equal_fold r.host cfg.host ≡ true)
        × ((checked_api cfg codec m r s (header_problem cfg codec r)).0 ≡ forwarded c)
  unfolding serve_http
  serve_http-checked s h =
      ground (arith, string_eq.beq_iff r.authorization "", has_prefix r.path "/api/")

  -- A request that the gateway passes on to the manager came without an Authorization header, to
  -- the host of the public URL, with the cookie of a session in the table that was
  -- created less than 12 hours ago and used less than 30 minutes ago. If it is no GET, it also
  -- came from the public URL's own origin, as JSON, and with the session's CSRF token.
  pub serve_http-IsAdmitted :
      (s : Server) → (serve_http cfg codec m r s).0 ≡ forwarded c → IsAdmitted s
  serve_http-IsAdmitted s h =
      admit (checked_api-forwarded s (header_problem cfg codec r) refl passed.2)
    where
      passed :
          (r.authorization ≡ "")
          × (m.equal_fold r.host cfg.host ≡ true)
          × ((checked_api cfg codec m r s (header_problem cfg codec r)).0 ≡ forwarded c)
      passed = serve_http-checked s h

      admit : (header_problem cfg codec r ≡ none) × HasSession s → IsAdmitted s
      admit (no_problem, (id, v, got, token, call)) =
          let live : (r.cookie ≡ some id)
              × (find_value id s.sessions ≡ some v)
              × (m.now < v.created + 43200000000000)
              × (m.now < v.last + 1800000000000) =
            (get_session_iff m.now r.cookie s id v).0 got in
          record {
            no_token = passed.0;
            host = passed.1;
            id = id;
            session = v;
            cookie = live.0;
            in_table = live.1;
            young = live.2;
            used = live.3;
            same_site = ground (arith, header_problem-none no_problem, token);
            call = call;
          }
