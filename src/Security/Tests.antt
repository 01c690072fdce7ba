-- ===== src/Security/Tests.antt =====
-- infomesh/security.py on two URLs.
use infomesh.Prelude.{
  ◌+◌, ◌*◌, ◌^◌, ◌≡◌, ◌↔◌, refl, true, false, none, some, [], ◌∷◌, arith, if◌then◌else◌, Text,
  text_eq, ◌==◌, bytes, All,
}
use infomesh.Prelude.Ascii.{lower}
use infomesh.Prelude.Result.{ok, err}
use infomesh.Mcp.Session.Webhooks.{registered, apply_all}
use infomesh.Security.{
  UrlTools, ipv4, ipv6, is_blocked_ip, validate_url, validate_url_post_redirect, check_hostname,
  check_resolved_ip, any_blocked, is_blocked_hostname, matches_blocked, is_allowed_scheme,
  ends_with, in_any, in_network, blocked_networks, private_target,
}
use infomesh.Security.Networks.{dotted, blocked_range, is_blocked_ip-ipv4, is_blocked_ip-mapped}
use infomesh.Security.Accepted.{IsPublic, validate_url_iff}
use infomesh.Security.Webhooks.{is_safe, webhooks-IsPublic}

abbrev site : Text
site = bytes "http://a"

-- One site, whose name stands for the address 93.184.216.34; any other name is in the local network.
instance abbrev tools : UrlTools
tools = record {
  urlparse = λ t.
      if t == site
      then some (bytes "http", some (bytes "a"))
      else some (bytes "http", some (bytes "b"));
  ip_address = λ t.
      if t == bytes "x"
      then some (ipv4 (dotted 93 184 216 34))
      else if t == bytes "y"
      then some (ipv4 (dotted 192 168 0 1))
      else none;
  getaddrinfo = λ t. if t == bytes "a" then some (bytes "x" ∷ []) else some (bytes "y" ∷ []);
}

site_accepted : validate_url_post_redirect site ≡ ok site
unfolding validate_url_post_redirect validate_url check_hostname check_resolved_ip any_blocked
    is_blocked_hostname matches_blocked is_allowed_scheme lower ends_with is_blocked_ip in_any
    in_network blocked_networks
site_accepted = refl

local_refused : validate_url_post_redirect (bytes "http://b") ≡ err private_target
unfolding validate_url_post_redirect validate_url check_hostname check_resolved_ip any_blocked
    is_blocked_hostname matches_blocked is_allowed_scheme lower ends_with is_blocked_ip in_any
    in_network blocked_networks
local_refused = refl

validate_url_iff_example : (validate_url site true ≡ ok site) ↔ ((site ≡ site) × IsPublic site true)
validate_url_iff_example = validate_url_iff site true site

is_blocked_ip-ipv4_example :
    is_blocked_ip (ipv4 (dotted 172 20 0 1)) ≡ blocked_range (dotted 172 20 0 1)
is_blocked_ip-ipv4_example = is_blocked_ip-ipv4 (dotted 172 20 0 1) (omega arith)

is_blocked_ip-mapped_example : is_blocked_ip (ipv6 (0xffff * 2 ^ 32 + dotted 127 0 0 1)) ≡ false
is_blocked_ip-mapped_example = is_blocked_ip-mapped (dotted 127 0 0 1) (omega arith)

webhooks-IsPublic_example :
    All
      (λ url. IsPublic url false)
      (apply_all is_safe (record { urls = []; max_registrations = 2 }) (registered site ∷ [])).urls
webhooks-IsPublic_example = webhooks-IsPublic 2 (registered site ∷ [])
