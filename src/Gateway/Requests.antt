-- ===== src/Gateway/Requests.antt =====
-- What the gateway reads of a browser's request, and what it can answer.
use mihomo_loongnix.Prelude.{ℕ, String, Bool, Option}
use mihomo_loongnix.Prelude.Int.{ℤ}

-- `cookie` is the value of the session cookie; the headers are "" when they are absent.
pub record Request : Type 0 where
  pub method : String
  pub path : String
  pub host : String
  pub raw_query : String
  pub authorization : String
  pub origin : String
  pub content_type : String
  pub content_length : ℤ
  pub sec_fetch_site : String
  pub csrf_token : String
  pub cookie : Option String
  pub body : String

-- A request to the manager.
pub record Call : Type 0 where
  pub method : String
  pub target : String
  pub body : Option String

-- `failure` has the status and the code, `static_page` and `summary_page` stand for what the
-- handlers of those pages answer, and the other constructors are the successful answers, with
-- the data that depends on the state.
pub data Response : Type 0 where
  failure : ℕ → String → Response
  healthy static_page summary_page capabilities signed_out refreshed : Response
  auth_mode : String → Response
  session_info signed_in : String → Response
  log_stream : String → Response
  forwarded : Call → Response

-- The strict JSON decoder for each body that a handler expects (`none` for a body that it
-- refuses), and the encoder for what is passed on; escaping and parsing of addresses.
pub record Codec : Type 1 where
  pub empty : String → Bool
  pub password : String → Option String
  pub enabled : String → Option (Option Bool)
  pub port : String → Option (Option ℤ)
  pub name_url : String → Option (String × String)
  pub group_name : String → Option (String × String)
  pub name : String → Option String
  pub show_enabled : Bool → String
  pub show_port : ℤ → String
  pub show_name_url : String × String → String
  pub show_group_name : String × String → String
  pub show_name : String → String
  pub path_escape : String → String
  pub scheme_hostname : String → Option (String × String)
