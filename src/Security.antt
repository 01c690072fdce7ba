-- ===== src/Security.antt =====
-- infomesh/security.py: which URLs may be fetched. A str is the list of its characters. Not modelled
-- are the messages of the errors, and the case of letters outside ASCII in the pattern of names.
pub mod Networks
pub mod Accepted
pub mod Webhooks
mod Tests
use infomesh.Prelude.{
  ℕ, zero, suc, ◌+◌, ◌-◌, ◌*◌, ◌/◌, ◌^◌, Bool, true, false, ◌&&◌, ◌||◌, Option, none, some, List,
  [], ◌∷◌, ◌++◌, ltb, leb, if◌then◌else◌, length, drop, nat_eq, Text, bytes, text_eq, ◌==◌, null,
}
use infomesh.Prelude.Ascii.{lower}
use infomesh.Prelude.Result.{Result, ok, err, ◌>>=◌}

-- An address of the `ipaddress` module, by its number.
pub data IpAddress : Type 0 where
  ipv4 ipv6 : ℕ → IpAddress

-- Python's `urlparse`, with the scheme and the lower-case host name of what it returns, `none` where
-- it raises ValueError; `ipaddress.ip_address`, the same; and `socket.getaddrinfo`, which gives texts
-- of addresses, `none` where it raises gaierror.
pub record UrlTools : Type 0 where
  pub urlparse : Text → Option (Text × Option Text)
  pub ip_address : Text → Option IpAddress
  pub getaddrinfo : Text → Option (List Text)

abbrev pub max_url_length : ℕ
max_url_length = 4096

-- A network: its first address, and how many addresses share its prefix.
pub data IpNetwork : Type 0 where
  network4 network6 : ℕ → ℕ → IpNetwork

-- `ip_network("a.b.c.0/p")`, with 2 ^ (32 - p) addresses
abbrev pub v4 : ℕ → ℕ → ℕ → ℕ → IpNetwork
v4 a b c prefix = network4 ((a * 256 + b) * 65536 + c * 256) (2 ^ (32 - prefix))

-- `ip_network("h::/p")`, by the first 16 bits
abbrev pub v6 : ℕ → ℕ → IpNetwork
v6 head prefix = network6 (head * 2 ^ 112) (2 ^ (128 - prefix))

pub blocked_networks : List IpNetwork
blocked_networks =
    v4 0 0 0 8
    ∷ v4 10 0 0 8
    ∷ v4 127 0 0 8
    ∷ v4 169 254 0 16
    ∷ v4 172 16 0 12
    ∷ v4 192 0 0 24
    ∷ v4 192 0 2 24
    ∷ v4 192 168 0 16
    ∷ v4 198 18 0 15
    ∷ v4 198 51 100 24
    ∷ v4 203 0 113 24
    ∷ v4 224 0 0 4
    ∷ v4 240 0 0 4
    ∷ network4 (2 ^ 32 - 1) 1
    ∷ network6 1 1
    ∷ v6 0xfc00 7
    ∷ v6 0xfe80 10
    ∷ v6 0xff00 8
    ∷ []

-- `ip in network`: the versions agree, and the bits of the prefix
pub in_network : IpAddress → IpNetwork → Bool
in_network (ipv4 a) (network4 first size) = a / size == first / size
in_network (ipv4 a) (network6 first size) = false
in_network (ipv6 a) (network4 first size) = false
in_network (ipv6 a) (network6 first size) = a / size == first / size

pub in_any : IpAddress → List IpNetwork → Bool
in_any ip [] = false
in_any ip (n ∷ ns) = let rest = in_any ip ns in in_network ip n || rest

-- `_is_blocked_ip`
pub is_blocked_ip : IpAddress → Bool
is_blocked_ip ip = in_any ip blocked_networks

-- `.*suffix`
pub ends_with : Text → Text → Bool
ends_with suffix t = leb (length suffix) (length t) && drop (length t - length suffix) t == suffix

-- `_BLOCKED_HOSTNAME_RE.match` with `re.IGNORECASE`, whose last alternative is a case of `.*\.internal`
pub matches_blocked : Text → Bool
matches_blocked hostname =
    let h = lower hostname in
    h == bytes "localhost"
    || (ends_with (bytes ".local") h
        || (ends_with (bytes ".internal") h
            || (ends_with (bytes ".intranet") h || h == bytes "metadata.google.internal")))

-- `hostname in _BLOCKED_HOSTNAMES`
pub is_blocked_hostname : Text → Bool
is_blocked_hostname hostname =
    hostname == bytes "metadata.google.internal"
    || (hostname == bytes "169.254.169.254" || hostname == bytes "[fd00:ec2::254]")

-- `scheme in _ALLOWED_SCHEMES`
pub is_allowed_scheme : Text → Bool
is_allowed_scheme scheme = scheme == bytes "http" || scheme == bytes "https"

-- The reasons of an SSRFError, and the ValueError of `urlparse`, which is none.
pub data UrlError : Type 0 where
  empty_url too_long bad_scheme no_hostname metadata_endpoint blocked_pattern private_ip unresolved
        private_target value_error :
      UrlError

abbrev pub is_blocked_literal : Option IpAddress → Bool
is_blocked_literal none = false
is_blocked_literal (some ip) = is_blocked_ip ip

-- Some of the addresses is blocked; a text that is no address is skipped.
pub any_blocked : ⦃t : UrlTools⦄ → List Text → Bool
any_blocked [] = false
any_blocked ⦃t⦄ (x ∷ xs) = let rest = any_blocked xs in is_blocked_literal (t.ip_address x) || rest

-- `_check_resolved_ip`
pub check_resolved_ip : ⦃t : UrlTools⦄ → Text → Result UrlError Unit
check_resolved_ip ⦃t⦄ hostname = elim (t.getaddrinfo hostname) [
  | none ↦ err unresolved
  | some infos ↦ if any_blocked infos then err private_target else ok tt
]

-- `validate_url` from the host name on
pub check_hostname : ⦃t : UrlTools⦄ → Text → Bool → Result UrlError Unit
check_hostname ⦃t⦄ hostname resolve_dns =
    if null hostname
    then err no_hostname
    else if is_blocked_hostname hostname
    then err metadata_endpoint
    else if matches_blocked hostname
    then err blocked_pattern
    else if is_blocked_literal (t.ip_address hostname)
    then err private_ip
    else if resolve_dns
    then check_resolved_ip hostname
    else ok tt

pub validate_url : ⦃t : UrlTools⦄ → Text → Bool → Result UrlError Text
validate_url ⦃t⦄ url resolve_dns =
    if null url
    then err empty_url
    else if ltb max_url_length (length url)
    then err too_long
    else elim (t.urlparse url) [
      | none ↦ err value_error
      | some (scheme, hostname) ↦
          if is_allowed_scheme scheme
          then elim hostname [
            | none ↦ err no_hostname
            | some h ↦ check_hostname h resolve_dns >>= λ u. ok url
          ]
          else err bad_scheme
    ]

pub validate_url_post_redirect : ⦃t : UrlTools⦄ → Text → Result UrlError Text
validate_url_post_redirect final_url = validate_url final_url true
