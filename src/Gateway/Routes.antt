-- ===== src/Gateway/Routes.antt =====
-- `forward` of internal/webgateway/proxy.go up to the call of the manager: which paths and methods
-- are passed on, to which target, and with which body.
pub mod Endpoints
pub mod Targets
use Prim.Native.Char.{Char, code}
use Prim.Native.String
use Prim.Native.String.{[], ◌∷◌}
use mihomo_loongnix.Prelude.{
  nat_eq, String, Bool, true, false, not, ◌&&◌, ◌||◌, List, [], ◌∷◌, Option, none, some,
  if◌then◌else◌, ◌==◌, string_eq, contains,
}
use mihomo_loongnix.Prelude.Int.{ℤ, pos, ltb_ℤ}
use mihomo_loongnix.Prelude.Text.{has_prefix, trim_prefix, is_blank, has_char}
use mihomo_loongnix.Config.Store.{Result, ok, err}
use mihomo_loongnix.Gateway.Requests.{Request, Call, Response, failure, forwarded, Codec}

-- The variables `valid`, `target` and `body` of the code. `kind` only tells how the answer is
-- decoded.
pub record Route : Type 0 where
  pub valid : Bool
  pub target : String
  pub kind : String
  pub body : Option String

abbrev pub invalid_input : Response
invalid_input = failure 400 "INVALID_INPUT"

-- A decoded body that passes a test is passed on.
abbrev pub checked :
    {A : Type 0} → String → String → Option A → (A → Bool) → (A → String) → Result Response Route
checked target kind none test show = err invalid_input
checked target kind (some b) test show =
    if test b
    then ok (record { valid = true; target = target; kind = kind; body = some (show b) })
    else err invalid_input

abbrev pub plain : Bool → String → String → Result Response Route
plain valid target kind = ok (record { valid = valid; target = target; kind = kind; body = none })

glue : Char → List String → List String
glue c [] = (c ∷ "") ∷ []
glue c (p ∷ ps) = (c ∷ p) ∷ ps

-- `strings.Split(s, "/")`.
unfoldable pub split_slash : String → List String
unfolding glue
split_slash [] = "" ∷ []
split_slash (c ∷ s) =
    let parts = split_slash s in if code c == b'/' then "" ∷ parts else glue c parts

abbrev pub is_web_link : Option (String × String) → Bool
is_web_link none = false
is_web_link (some (scheme, hostname)) =
    not (hostname == "") && (scheme == "https" || scheme == "http")

abbrev pub kind_of : String → String
kind_of path = if path == "/tun" then "status" else "logging"

abbrev pub is_some_bool : Option Bool → Bool
is_some_bool none = false
is_some_bool (some b) = true

-- After the test of `b.Enabled == nil`.
abbrev pub flag : Option Bool → Bool
flag none = false
flag (some b) = b

abbrev pub is_port : Option ℤ → Bool
is_port none = false
is_port (some p) = not (ltb_ℤ p (pos 1) || ltb_ℤ (pos 65535) p)

abbrev pub number : Option ℤ → ℤ
number none = pos 0
number (some p) = p

-- A segment that cannot name a profile.
abbrev pub is_bad_segment : String → Bool
is_bad_segment id = id == "" || (has_char b'%' id || has_char b'\\' id)

abbrev pub not_found : Result Response Route
not_found = err (failure 404 "NOT_FOUND")

abbrev pub has_no_body : Option String → Bool
has_no_body none = true
has_no_body (some b) = false

infixr 60 ◌^◌
abbrev pub ◌^◌ : String → String → String
s ^ t = String.◌++◌ s t

module _ (codec : Codec) where
  unfoldable pub profile_route : Request → List String → Result Response Route
  profile_route r [] = not_found
  profile_route r (id ∷ []) =
      let target = "/v1" ^ "/profiles/" ^ codec.path_escape id in
      if is_bad_segment id
      then not_found
      else if r.method == "PATCH"
      then checked target "profile" (codec.name r.body) (λ n. not (is_blank n)) codec.show_name
      else plain (r.method == "DELETE") target "profiles"
  profile_route r (id ∷ action ∷ []) =
      let target = "/v1" ^ "/profiles/" ^ codec.path_escape id in
      if is_bad_segment id
      then not_found
      else if action == "activate" || action == "update"
      then plain (r.method == "POST") ("/v1" ^ "/profiles/" ^ codec.path_escape id ^ "/" ^ action)
          "profile"
      else plain false target "profile"
  profile_route r (id ∷ action ∷ more ∷ rest) = not_found

  unfoldable pub group_route : Request → String → Result Response Route
  group_route r name =
      let target = "/v1" ^ "/proxy-groups/" ^ codec.path_escape name in
      if r.method == "PUT" && not (name == "")
      then checked target "" (codec.name r.body) (λ n. not (is_blank n)) codec.show_name
      else plain false target ""

  -- The `default` case of the switch.
  unfoldable pub nested_route : Request → String → Result Response Route
  nested_route r path =
      if has_prefix path "/profiles/"
      then profile_route r (split_slash (trim_prefix path "/profiles/"))
      else if has_prefix path "/proxy-groups/"
      then group_route r (trim_prefix path "/proxy-groups/")
      else plain false ("/v1" ^ path) ""

  -- The cases for a fixed path whose body is checked.
  unfoldable pub body_route : Request → String → Result Response Route
  body_route r path =
      let target = "/v1" ^ path in
      if path == "/tun" || path == "/logging"
      then if r.method == "PUT"
        then checked target (kind_of path) (codec.enabled r.body) is_some_bool
            (λ b. codec.show_enabled (flag b))
        else plain false target (kind_of path)
      else if path == "/proxy-port"
      then if r.method == "PUT"
        then checked target "status" (codec.port r.body) is_port (λ p. codec.show_port (number p))
        else plain false target "status"
      else if path == "/profiles"
      then if r.method == "POST"
        then checked target "profile" (codec.name_url r.body)
            (λ b. is_web_link (codec.scheme_hostname b.1)) codec.show_name_url
        else plain (r.method == "GET") target "profiles"
      else if path == "/proxy-delay"
      then if r.method == "POST"
        then checked target "" (codec.group_name r.body) (λ b. not (is_blank b.1 || is_blank b.0))
            codec.show_group_name
        else plain false target ""
      else nested_route r path

  unfoldable pub route : Request → Result Response Route
  route r =
      let path = trim_prefix r.path "/api/v1" in
      let target = "/v1" ^ path in
      if path == "/status"
      then plain (r.method == "GET") target "status"
      else if path == "/core/start" || path == "/core/stop"
      then plain (r.method == "POST") target "status"
      else if path == "/proxy-groups" || path == "/rules"
      then plain (r.method == "GET") target ""
      else if path == "/logging/status"
      then plain (r.method == "GET") target "logging"
      else body_route r path

  -- After the switch. `write_busy` and `delay_busy` tell whether another request holds the lock.
  unfoldable pub forward_route : Bool → Bool → Request → Route → Response
  forward_route write_busy delay_busy r rt =
      let is_write = not (r.method == "GET") in
      if not rt.valid
      then failure 404 "NOT_FOUND"
      else if is_write && has_no_body rt.body && not (codec.empty r.body)
      then invalid_input
      else if not (r.raw_query == "")
      then invalid_input
      else if is_write
          && (if trim_prefix r.path "/api/v1" == "/proxy-delay" then delay_busy else write_busy)
      then failure 409 "BUSY"
      else forwarded (record { method = r.method; target = rt.target; body = rt.body })

  unfoldable pub forward : Bool → Bool → Request → Response
  forward write_busy delay_busy r = elim (route r) [
    | err e ↦ e
    | ok rt ↦ forward_route write_busy delay_busy r rt
  ]
