-- ===== src/Gateway/Sessions.antt =====
-- The sessions and the login limit of internal/webgateway/server.go. Times are counted in
-- nanoseconds, and `ended` lists the sessions whose channel `Done` was closed. The Go map of
-- sessions is an association list without repeated keys.
pub mod Bounds
pub mod Life
pub mod Ended
use mihomo_loongnix.Prelude.{
  ℕ, ◌+◌, String, Bool, true, false, not, ◌||◌, List, [], ◌∷◌, ◌++◌, map, Option, none, some,
  if◌then◌else◌, ◌==◌, string_eq, leb, ltb, length, keep, find_value,
}

pub record Session : Type 0 where
  pub csrf : String
  pub created : ℕ
  pub last : ℕ

pub record Server : Type 0 where
  pub sessions : List (String × Session)
  pub ended : List String
  pub login_start : ℕ
  pub login_attempts : ℕ

-- 12 hours, 30 minutes and one minute.
abbrev pub session_lifetime : ℕ
session_lifetime = 43200000000000

abbrev pub idle_lifetime : ℕ
idle_lifetime = 1800000000000

abbrev pub login_window : ℕ
login_window = 60000000000

abbrev pub max_sessions : ℕ
max_sessions = 16

abbrev pub max_logins : ℕ
max_logins = 10

unfoldable pub is_expired : ℕ → Session → Bool
is_expired now v = leb (v.created + session_lifetime) now || leb (v.last + idle_lifetime) now

-- `delete(s.sessions, id)`.
abbrev pub without : String → List (String × Session) → List (String × Session)
without id sessions = keep (λ s. not (id == s.0)) sessions

-- Close a session's channel, and forget it.
abbrev pub end_session : String → Server → Server
end_session id s = record s { sessions = without id s.sessions; ended = id ∷ s.ended }

unfoldable pub get_session : ℕ → Option String → Server → Option (String × Session) × Server
get_session now none s = (none, s)
get_session now (some id) s = elim (find_value id s.sessions) [
  | none ↦ (none, s)
  | some v ↦ if is_expired now v then (none, end_session id s) else (some (id, v), s)
]

unfoldable pub revoke : String → Server → Server
revoke id s = elim (find_value id s.sessions) [ none ↦ s | some v ↦ end_session id s ]

-- The loop of `issueSession` over the map.
unfoldable pub sweep : ℕ → Server → Server
sweep now s = record s {
  sessions = keep (λ v. not (is_expired now v.1)) s.sessions;
  ended = map (λ v. v.0) (keep (λ v. is_expired now v.1) s.sessions) ++ s.ended;
}

-- `id` and `csrf` are the random tokens.
unfoldable pub issue_session : ℕ → String → String → Server → Option (String × Session) × Server
issue_session now id csrf s =
    let swept = sweep now s in
    let v : Session = record { csrf = csrf; created = now; last = now } in
    if leb max_sessions (length swept.sessions)
    then (none, swept)
    else (some (id, v), record swept { sessions = (id, v) ∷ without id swept.sessions })

-- The handler of /api/v1/auth/refresh.
abbrev pub touched : ℕ → String → List (String × Session) → List (String × Session)
touched now id [] = []
touched now id ((j, v) ∷ m) =
    if id == j then (j, record v { last = now }) ∷ m else (j, v) ∷ touched now id m

unfoldable pub refresh : ℕ → String → Server → Server
refresh now id s = record s { sessions = touched now id s.sessions }

unfoldable pub close : Server → Server
close s = record s { sessions = []; ended = map (λ v. v.0) s.sessions ++ s.ended }

-- The start of `login`: count the attempt, and tell whether it is over the limit.
unfoldable pub count_login : ℕ → Server → Bool × Server
count_login now s =
    if ltb (s.login_start + login_window) now
    then (false, record s { login_start = now; login_attempts = 1 })
    else (ltb max_logins (s.login_attempts + 1), record s { login_attempts = s.login_attempts + 1 })
