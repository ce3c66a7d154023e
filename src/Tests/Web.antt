-- ===== src/Tests/Web.antt =====
-- The theorems on the browser gateway at concrete inputs.
use mihomo_loongnix.Gateway.Routes.{body_route, route, forward_route, forward}
use mihomo_loongnix.Gateway.Routes.Endpoints.{IsEndpoint}
use mihomo_loongnix.Gateway.Routes.Targets.{forward-IsEndpoint}
use mihomo_loongnix.Gateway.Sessions.Ended.{run_op-is_known}
use mihomo_loongnix.Gateway.Sessions.Life.{
  password_checks, get_session_iff, password_checks_bound, revoke-get_session,
}
use mihomo_loongnix.Prelude.Int.{pos}
use mihomo_loongnix.Gateway.Serve.Guards.{serve_http-IsAdmitted, IsAdmitted}
use mihomo_loongnix.Gateway.Serve.{
  dispatch, with_session, header_problem, serve_api, serve_http, GatewayConfig, Moment,
}
use mihomo_loongnix.Prelude.{
  String, Option, ◌+◌, ◌<◌, refl, find_value, ◌||◌, ◌≤◌, if◌then◌else◌, string_eq, true, [], false,
  none, ◌↔◌, some, ◌==◌, ◌∷◌, arith, ◌≡◌, contains,
}
use mihomo_loongnix.Gateway.Summary.{
  summary-IsHealthy, IsHealthy, state_of, summary_stale_iff, IsFresh, core_verdict, verdict,
  summary_status, ManagerStatus,
}
use mihomo_loongnix.Prelude.Text.{strip, has_prefix, has_prefix_by, lower, trim_prefix}
use mihomo_loongnix.Gateway.Requests.{Request, Call, forwarded, Codec}
use mihomo_loongnix.Gateway.Sessions.{Session, Server, get_session, revoke, is_expired}
use mihomo_loongnix.Gateway.Sessions.Bounds.{
  sign_out, issue, attempt, IsBounded, keys, run_op, run_ops, run_ops-IsBounded,
}

abbrev test_session : Session
test_session = record { csrf = "t"; created = 5; last = 9 }

abbrev test_server : Server
test_server = record {
  sessions = ("a", test_session) ∷ [];
  ended = [];
  login_start = 0;
  login_attempts = 8;
}

abbrev test_codec : Codec
test_codec = record {
  empty = λ b. b == "{}";
  password = λ b. some b;
  enabled = λ b. some (some (b == "on"));
  port = λ b. none;
  name_url = λ b. none;
  group_name = λ b. none;
  name = λ b. some b;
  show_enabled = λ b. if b then "on" else "off";
  show_port = λ p. "";
  show_name_url = λ b. b.1;
  show_group_name = λ b. b.1;
  show_name = λ b. b;
  path_escape = λ s. s;
  scheme_hostname = λ s. none;
}

abbrev test_gateway : GatewayConfig
test_gateway = record { origin = "https://box"; host = "box"; mode = "password" }

abbrev test_moment : Moment
test_moment = record {
  now = 12;
  new_id = "b";
  new_csrf = "u";
  password_busy = false;
  write_busy = false;
  delay_busy = false;
  check_password = λ p. p == "pw";
  equal_fold = λ x y. x == y;
}

abbrev put_tun : Request
put_tun = record {
  method = "PUT";
  path = "/api/v1/tun";
  host = "box";
  raw_query = "";
  authorization = "";
  origin = "https://box";
  content_type = "Application/JSON; charset=utf-8";
  content_length = pos 16;
  sec_fetch_site = "same-origin";
  csrf_token = "t";
  cookie = some "a";
  body = "on";
}

abbrev tun_call : Call
tun_call = record { method = "PUT"; target = "/v1/tun"; body = some "on" }

-- What a run of the gateway computes with.
gateway : Unit {0}
unfolding serve_http serve_api header_problem with_session dispatch get_session is_expired forward
    forward_route route body_route has_prefix has_prefix_by lower trim_prefix strip
gateway = tt

put_tun-forwarded :
    (serve_http test_gateway test_codec test_moment put_tun test_server).0 ≡ forwarded tun_call
unfolding gateway
put_tun-forwarded = refl

serve_http-IsAdmitted_example :
    IsAdmitted test_gateway test_codec test_moment put_tun tun_call test_server
serve_http-IsAdmitted_example =
    serve_http-IsAdmitted test_gateway test_codec test_moment put_tun tun_call test_server
      put_tun-forwarded

forward-IsEndpoint_example :
    (tun_call.method ≡ put_tun.method)
    × (put_tun.raw_query ≡ "")
    × IsEndpoint test_codec tun_call.method tun_call.target tun_call.body
unfolding gateway
forward-IsEndpoint_example = forward-IsEndpoint test_codec false false put_tun tun_call refl

test_server-IsBounded : IsBounded test_server
test_server-IsBounded = record { few = omega arith; distinct = (tt, tt) }

run_ops-IsBounded_example : IsBounded (run_ops (issue 20 "b" "u" ∷ attempt 21 ∷ []) test_server)
run_ops-IsBounded_example =
    run_ops-IsBounded (issue 20 "b" "u" ∷ attempt 21 ∷ []) test_server test_server-IsBounded

run_op-is_known_example :
    (contains (keys (run_op (sign_out "a") test_server).sessions) "a"
      || contains (run_op (sign_out "a") test_server).ended "a")
    ≡ true
run_op-is_known_example = run_op-is_known (sign_out "a") test_server "a" refl

get_session_iff_example : ((get_session 12 (some "a") test_server).0 ≡ some ("a", test_session)) ↔ (
    (◌≡◌ {A = Option String} (some "a") (some "a"))
    × (find_value "a" test_server.sessions ≡ some test_session)
    × (12 < test_session.created + 43200000000000)
    × (12 < test_session.last + 1800000000000))
get_session_iff_example = get_session_iff 12 (some "a") test_server "a" test_session

revoke-get_session_example :
    get_session 12 (some "a") (revoke "a" test_server) ≡ (none, revoke "a" test_server)
revoke-get_session_example = revoke-get_session 12 "a" test_server

password_checks_bound_example : password_checks (1 ∷ 2 ∷ 3 ∷ []) test_server ≤ 2
password_checks_bound_example =
    password_checks_bound (1 ∷ 2 ∷ 3 ∷ []) test_server
      (omega arith, (omega arith, (omega arith, tt)))

abbrev test_status : ManagerStatus
test_status = record {
  core = record {
    service_active = true;
    controller_healthy = true;
    running = true;
    state_query_ok = true;
    service_state = "active";
  };
  tun = record { configured = true; enabled = true; observation_ok = true };
  current_node = "hk";
  observed_at = "2026-01-01T00:00:00Z";
}

summary-IsHealthy_example :
    IsHealthy test_status × (true ≡ true) × (20 ≤ 10 + 30000000000) × (10 ≤ 20 + 5000000000)
unfolding summary_status verdict core_verdict state_of
summary-IsHealthy_example = summary-IsHealthy test_status true false 20 10 refl

summary_stale_iff_example :
    (((summary_status test_status true false 40000000000 (some 10)).stale ≡ false)
      ↔ IsFresh true 40000000000 (some 10))
    × ((summary_status test_status true false 40000000000 (some 10)).stale ≡ true
        → (summary_status test_status true false 40000000000 (some 10)).state ≡ "unknown")
summary_stale_iff_example = summary_stale_iff test_status true false 40000000000 (some 10)
