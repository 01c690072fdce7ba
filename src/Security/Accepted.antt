-- ===== src/Security/Accepted.antt =====
-- infomesh/security.py, `validate_url`: which URLs it accepts.
use infomesh.Prelude.{
  ℕ, ◌≤◌, ◌<◌, ◌≡◌, ◌↔◌, ◌⊎◌, inl, inr, refl, sym, ◌∙◌, subst, ap, Bool, true, false, Option, none,
  some, List, [], ◌∷◌, arith, length, null, Text, bytes, text_eq, text_beq_iff, All, In, ◌^◌,
  Option-cases,
}
use infomesh.Prelude.Result.{ok, Result-cases}
use infomesh.Security.{
  UrlTools, ipv4, max_url_length, is_allowed_scheme, is_blocked_hostname, matches_blocked,
  is_blocked_literal, any_blocked, check_resolved_ip, check_hostname, validate_url,
  validate_url_post_redirect,
}
use infomesh.Security.Networks.{blocked_range, is_blocked_ip-ipv4}

-- No address that the name resolves to is blocked, where that is asked for.
abbrev pub Resolves : ⦃t : UrlTools⦄ → Text → Bool → Type 0
Resolves hostname false = Unit
Resolves ⦃t⦄ hostname true =
    (infos : List Text) × (t.getaddrinfo hostname ≡ some infos)
    × All (λ x. is_blocked_literal (t.ip_address x) ≡ false) infos

-- What the checks ask of a host name.
pub record IsPublicHost ⦃t : UrlTools⦄ (hostname : Text) (resolve_dns : Bool) : Type 0 where
  pub nonempty : null hostname ≡ false
  pub no_metadata : is_blocked_hostname hostname ≡ false
  pub no_local_name : matches_blocked hostname ≡ false
  pub no_private_literal : is_blocked_literal (t.ip_address hostname) ≡ false
  pub resolves : Resolves hostname resolve_dns

-- What the checks ask of a URL.
pub record IsPublic ⦃t : UrlTools⦄ (url : Text) (resolve_dns : Bool) : Type 0 where
  pub given : null url ≡ false
  pub short : length url ≤ max_url_length
  pub scheme : Text
  pub hostname : Text
  pub parsed : t.urlparse url ≡ some (scheme, some hostname)
  pub web : (scheme ≡ bytes "http") ⊎ (scheme ≡ bytes "https")
  pub host : IsPublicHost hostname resolve_dns

any_blocked-All :
    ⦃t : UrlTools⦄
    → (infos : List Text) → any_blocked infos ≡ false
    → All (λ x. is_blocked_literal (t.ip_address x) ≡ false) infos
unfolding any_blocked
any_blocked-All [] h = tt
any_blocked-All ⦃t⦄ (x ∷ xs) h = ground (arith, any_blocked-All xs)

All-any_blocked :
    ⦃t : UrlTools⦄
    → (infos : List Text) → All (λ x. is_blocked_literal (t.ip_address x) ≡ false) infos
    → any_blocked infos ≡ false
unfolding any_blocked
All-any_blocked [] h = refl
All-any_blocked ⦃t⦄ (x ∷ xs) h = ground (arith, All-any_blocked xs h.1)

check_resolved_ip-Resolves :
    ⦃t : UrlTools⦄ → (hostname : Text) → check_resolved_ip hostname ≡ ok tt → Resolves hostname true
unfolding check_resolved_ip
check_resolved_ip-Resolves ⦃t⦄ hostname h = elim (Option-cases (t.getaddrinfo hostname)) [
  | inl failed ↦ absurd (ground arith)
  | inr (infos, found) ↦ (infos, found, any_blocked-All infos (ground arith))
]

Resolves-check_resolved_ip :
    ⦃t : UrlTools⦄ → (hostname : Text) → Resolves hostname true → check_resolved_ip hostname ≡ ok tt
unfolding check_resolved_ip
Resolves-check_resolved_ip ⦃t⦄ hostname (infos, found, all) =
    rw (check_resolved_ip, found, All-any_blocked infos all) refl

check_hostname-IsPublicHost :
    ⦃t : UrlTools⦄
    → (hostname : Text) (resolve_dns : Bool) → check_hostname hostname resolve_dns ≡ ok tt
    → IsPublicHost hostname resolve_dns
unfolding check_hostname
check_hostname-IsPublicHost ⦃t⦄ hostname false h = record {
  nonempty = ground arith;
  no_metadata = ground arith;
  no_local_name = ground arith;
  no_private_literal = ground arith;
  resolves = tt;
}
check_hostname-IsPublicHost ⦃t⦄ hostname true h = record {
  nonempty = ground arith;
  no_metadata = ground arith;
  no_local_name = ground arith;
  no_private_literal = ground arith;
  resolves = check_resolved_ip-Resolves hostname (ground arith);
}

IsPublicHost-check_hostname :
    ⦃t : UrlTools⦄
    → (hostname : Text) (resolve_dns : Bool) → IsPublicHost hostname resolve_dns
    → check_hostname hostname resolve_dns ≡ ok tt
unfolding check_hostname
IsPublicHost-check_hostname hostname false i =
    ground (arith, i.nonempty, i.no_metadata, i.no_local_name, i.no_private_literal)
IsPublicHost-check_hostname hostname true i = ground (
  arith,
  i.nonempty,
  i.no_metadata,
  i.no_local_name,
  i.no_private_literal,
  Resolves-check_resolved_ip hostname i.resolves,
)

accepted-IsPublic :
    ⦃t : UrlTools⦄
    → (url : Text) (resolve_dns : Bool) (u : Text) → validate_url url resolve_dns ≡ ok u
    → (u ≡ url) × IsPublic url resolve_dns
unfolding validate_url is_allowed_scheme
accepted-IsPublic ⦃t⦄ url resolve_dns u h = elim (Option-cases (t.urlparse url)) [
  | inl failed ↦ absurd (ground arith)
  | inr ((scheme, none), e) ↦ absurd (ground arith)
  | inr ((scheme, some host), e) ↦ elim (Result-cases (check_hostname host resolve_dns)) [
    | inl (tt, c) ↦ (
      ground arith,
      record {
        given = ground arith;
        short = ground arith;
        scheme = scheme;
        hostname = host;
        parsed = e;
        web =
            ground (arith, text_beq_iff scheme (bytes "http"), text_beq_iff scheme (bytes "https"));
        host = check_hostname-IsPublicHost host resolve_dns c;
      },
    )
    | inr (x, c) ↦ absurd (ground arith)
  ]
]

IsPublic-accepted :
    ⦃t : UrlTools⦄
    → (url : Text) (resolve_dns : Bool) → IsPublic url resolve_dns
    → validate_url url resolve_dns ≡ ok url
unfolding validate_url is_allowed_scheme
IsPublic-accepted url resolve_dns i =
    rw (validate_url, i.parsed, IsPublicHost-check_hostname i.hostname resolve_dns i.host)
      (ground (
        arith,
        i.given,
        i.short,
        i.web,
        text_beq_iff i.scheme (bytes "http"),
        text_beq_iff i.scheme (bytes "https"),
      ))

-- `validate_url` returns exactly the URL that was given, and exactly where it has 1 to 4096 characters,
-- the scheme http or https, and a host name that is neither empty nor on the lists nor a blocked
-- address, and that, where this is asked for, resolves to addresses that are not blocked.
pub validate_url_iff :
    ⦃t : UrlTools⦄
    → (url : Text) (resolve_dns : Bool) (u : Text)
    → (validate_url url resolve_dns ≡ ok u) ↔ ((u ≡ url) × IsPublic url resolve_dns)
validate_url_iff url resolve_dns u = (
  accepted-IsPublic url resolve_dns u,
  λ (e, i). IsPublic-accepted url resolve_dns i ∙ ap ok (sym e),
)

All-In : {A : Type 0} (P : A → Type 0) (x : A) (xs : List A) → All P xs → In x xs → P x
All-In P x [] a i = elim i [ ]
All-In P x (y ∷ xs) a (inl e) = subst P (sym e) a.0
All-In P x (y ∷ xs) a (inr i) = All-In P x xs a.1 i

host_of :
    {s s' h h' : Text}
    → ◌≡◌ {A = Option (Text × Option Text)} (some (s, some h)) (some (s', some h'))
    → h ≡ h'
host_of e = cc

infos_of : {x y : List Text} → ◌≡◌ {A = Option (List Text)} (some x) (some y) → x ≡ y
infos_of e = cc

-- Where the final URL of a chain of redirects is accepted, no address of version 4 that its host name
-- resolves to lies in a private or reserved range.
pub post_redirect_public :
    ⦃t : UrlTools⦄
    → (final_url u scheme hostname : Text) (infos : List Text) (x : Text) (a : ℕ)
    → validate_url_post_redirect final_url ≡ ok u
    → t.urlparse final_url ≡ some (scheme, some hostname)
    → t.getaddrinfo hostname ≡ some infos
    → In x infos
    → t.ip_address x ≡ some (ipv4 a)
    → a < 2 ^ 32
    → blocked_range a ≡ false
unfolding validate_url_post_redirect
post_redirect_public ⦃t⦄ final_url u scheme hostname infos x a h parsed found j e l =
    let i = (accepted-IsPublic final_url true u h).1 in
    let same_host = host_of (sym i.parsed ∙ parsed) in
    let (infos', found', all) = i.host.resolves in
    let same_infos = infos_of (sym found' ∙ ap t.getaddrinfo same_host ∙ found) in
    sym (is_blocked_ip-ipv4 a l)
    ∙ subst (λ o. is_blocked_literal o ≡ false) e
        (All-In (λ y. is_blocked_literal (t.ip_address y) ≡ false) x infos
          (subst (All (λ y. is_blocked_literal (t.ip_address y) ≡ false)) same_infos all) j)
