-- ===== src/Gateway/Routes/Endpoints.antt =====
-- The calls of the manager that internal/webgateway/proxy.go is meant to make.
use mihomo_loongnix.Prelude.{
  String, true, false, ◌||◌, List, [], ◌∷◌, Option, none, some, ◌==◌, string_eq, ◌≡◌, IsIn,
}
use mihomo_loongnix.Prelude.Text.{is_blank}
use mihomo_loongnix.Gateway.Requests.{Codec}
use mihomo_loongnix.Gateway.Routes.{is_bad_segment, ◌^◌}

-- The endpoints with a fixed path: those without a body, and those with one.
abbrev pub bare_endpoints : List (String × String)
bare_endpoints =
    ("GET", "/v1/status")
    ∷ ("POST", "/v1/core/start")
    ∷ ("POST", "/v1/core/stop")
    ∷ ("GET", "/v1/proxy-groups")
    ∷ ("GET", "/v1/rules")
    ∷ ("GET", "/v1/logging/status")
    ∷ ("GET", "/v1/profiles")
    ∷ []

abbrev pub body_endpoints : List (String × String)
body_endpoints =
    ("PUT", "/v1/tun")
    ∷ ("PUT", "/v1/logging")
    ∷ ("PUT", "/v1/proxy-port")
    ∷ ("POST", "/v1/profiles")
    ∷ ("POST", "/v1/proxy-delay")
    ∷ []

-- A call of the manager that the gateway makes.
pub data IsEndpoint (codec : Codec) (method target : String) (body : Option String) : Type 0 where
  bare : IsIn (method, target) bare_endpoints → body ≡ none → IsEndpoint codec method target body
  with_body :
      (text : String)
      → IsIn (method, target) body_endpoints
      → body ≡ some text
      → IsEndpoint codec method target body
  rename_profile :
      (id name : String)
      → is_bad_segment id ≡ false
      → method ≡ "PATCH"
      → target ≡ "/v1" ^ "/profiles/" ^ codec.path_escape id
      → is_blank name ≡ false
      → body ≡ some (codec.show_name name)
      → IsEndpoint codec method target body
  delete_profile :
      (id : String)
      → is_bad_segment id ≡ false
      → method ≡ "DELETE"
      → target ≡ "/v1" ^ "/profiles/" ^ codec.path_escape id
      → body ≡ none
      → IsEndpoint codec method target body
  use_profile :
      (id action : String)
      → is_bad_segment id ≡ false
      → (action == "activate" || action == "update") ≡ true
      → method ≡ "POST"
      → target ≡ "/v1" ^ "/profiles/" ^ codec.path_escape id ^ "/" ^ action
      → body ≡ none
      → IsEndpoint codec method target body
  select_proxy :
      (group name : String)
      → (group == "") ≡ false
      → method ≡ "PUT"
      → target ≡ "/v1" ^ "/proxy-groups/" ^ codec.path_escape group
      → is_blank name ≡ false
      → body ≡ some (codec.show_name name)
      → IsEndpoint codec method target body
