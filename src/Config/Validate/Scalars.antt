-- ===== src/Config/Validate/Scalars.antt =====
-- The checks on ports, controller, levels, logging limits, URLs and modes.
pub mod Ports
use mihomo_loongnix.Prelude.{
  ◌^◌, String, Bool, false, not, ◌&&◌, ◌||◌, List, [], ◌∷◌, ◌++◌, Option, none, some, if◌then◌else◌,
  ◌==◌, string_eq, find_value, contains,
}
use mihomo_loongnix.Prelude.Int.{ℤ, pos, ltb_ℤ, int_eq}
use mihomo_loongnix.Prelude.Text.{trim_space, is_blank, contains_text}
use mihomo_loongnix.Prelude.Loops.{collect}
use mihomo_loongnix.Config.Types.{Config, MihomoConfig, ManagedLoggingConfig}
use mihomo_loongnix.Config.Validate.Problems.{
  Problem, NetLib, Url, add_if, port_out_of_range, port_conflict, controller_scheme,
  controller_format, controller_port, bad_mihomo_log_level, bad_app_log_level, bad_max_file_bytes,
  bad_max_backups, bad_test_url, bad_resource_url, bad_proxy_mode, no_default_group, no_language,
}

abbrev pub named_ports : MihomoConfig → List (String × ℤ)
named_ports m =
    ("http_port", m.http_port)
    ∷ ("socks5_port", m.socks5_port)
    ∷ ("mixed_port", m.mixed_port)
    ∷ ("redir_port", m.redir_port)
    ∷ ("tproxy_port", m.tproxy_port)
    ∷ []

-- One round: 0 is a disabled port; an enabled one is in range, and not yet in `seen`.
unfoldable pub port_step : List (ℤ × String) → String × ℤ → List Problem × List (ℤ × String)
port_step seen (name, port) =
    if port == pos 0
    then ([], seen)
    else if ltb_ℤ port (pos 1) || ltb_ℤ (pos 65535) port
    then (port_out_of_range name port ∷ [], seen)
    else elim (find_value port seen) [
      | some prev ↦ (port_conflict name prev port ∷ [], seen)
      | none ↦ ([], (port, name) ∷ seen)
    ]

unfoldable pub validate_ports : MihomoConfig → List Problem
validate_ports m = (collect port_step [] (named_ports m)).0

-- `strconv.Atoi` with the test on the range that follows it.
abbrev is_port : Option ℤ → Bool
is_port none = false
is_port (some port) = not (ltb_ℤ port (pos 1) || ltb_ℤ (pos 65535) port)

unfoldable pub validate_controller : NetLib → MihomoConfig → List Problem
validate_controller net m =
    let ec = trim_space m.external_controller in
    if ec == ""
    then []
    else if contains_text ec "://"
    then controller_scheme ec ∷ []
    else elim (net.split_host_port ec) [
      | none ↦ controller_format ec ∷ []
      | some (host, port) ↦ add_if (not (is_port (net.atoi port))) (controller_port ec)
    ]

abbrev is_http_url : Option Url → Bool
is_http_url none = false
is_http_url (some u) = (u.scheme == "http" || u.scheme == "https") && not (u.host == "")

unfoldable pub validate_logging : ManagedLoggingConfig → List Problem
validate_logging l =
    add_if
      (not (l.max_file_bytes == pos 0)
        && (ltb_ℤ l.max_file_bytes (pos 1024) || ltb_ℤ (pos (2 ^ 30)) l.max_file_bytes))
      bad_max_file_bytes
    ++ add_if
        (not (l.max_backups == pos 0)
          && (ltb_ℤ l.max_backups (pos 1) || ltb_ℤ (pos 100) l.max_backups))
        bad_max_backups

abbrev pub mihomo_log_levels : List String
mihomo_log_levels = "debug" ∷ "info" ∷ "warning" ∷ "error" ∷ "silent" ∷ []

abbrev pub app_log_levels : List String
app_log_levels = "debug" ∷ "info" ∷ "warn" ∷ "error" ∷ []

abbrev pub proxy_modes : List String
proxy_modes = "rule" ∷ "global" ∷ "direct" ∷ []

unfoldable pub validate_urls : NetLib → Config → List Problem
validate_urls net c =
    let tu = trim_space c.mihomo.test_url in
    add_if (not (tu == "") && not (is_http_url (net.url_parse tu))) (bad_test_url tu)
    ++ (resource "GeoIP" c.external_resources.geo_ip
        ++ resource "GeoSite" c.external_resources.geo_site)
  where
    resource : String → String → List Problem
    resource name raw =
        add_if (not (is_http_url (net.url_parse (trim_space raw)))) (bad_resource_url name raw)

unfoldable pub validate_scalars : NetLib → Config → List Problem
unfolding validate_controller validate_logging validate_urls
validate_scalars net c =
    validate_controller net c.mihomo
    ++ (add_if (not (contains mihomo_log_levels c.mihomo.log_level))
          (bad_mihomo_log_level c.mihomo.log_level)
        ++ (add_if (not (contains app_log_levels c.log_level)) (bad_app_log_level c.log_level)
            ++ (validate_logging c.managed_logging
                ++ (validate_urls net c
                    ++ (add_if (not (contains proxy_modes c.proxy_mode))
                          (bad_proxy_mode c.proxy_mode)
                        ++ (add_if (is_blank c.default_proxy_group) no_default_group
                            ++ add_if (is_blank c.system.language) no_language))))))
