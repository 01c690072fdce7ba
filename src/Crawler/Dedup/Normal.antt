-- ===== src/Crawler/Dedup/Normal.antt =====
-- infomesh/crawler/dedup.py, `normalize_url`: which differences between URLs it takes away.
use infomesh.Prelude.{
  some, ◌≡◌, refl, sym, ap, ◌∙◌, Bool, true, not, inl, inr, none, List, [], ◌∷◌, arith,
  if◌then◌else◌, keep, null, Text, bytes, text_eq, text_beq_iff, ◌==◌, Bool-cases,
}
use infomesh.Prelude.Ascii.{lower}
use infomesh.Prelude.Dict.{Dict, lookup, IsUnique}
use infomesh.Crawler.Dedup.{
  UrlFormat, tracking_params, any_of, rstrip_slash, normal_path, normal_query, normalize_url,
  normal_form, UrlParts,
}
use infomesh.Crawler.Dedup.Order.{sorted_items_same}

-- The key of a parameter that is kept.
abbrev pub is_kept : Text → Bool
is_kept k = not (any_of (lower k) tracking_params)

module _ (q : Text → Bool) where
  lookup-keep :
      (k : Text) (d : Dict Text (List Text))
      → lookup k (keep (λ (j, v). q j) d) ≡ (if q k then lookup k d else none)
  unfolding lookup
  lookup-keep k [] = ground arith
  lookup-keep k ((j, v) ∷ d) =
      ground (arith, lookup-keep k d, text_beq_iff k j, λ (e : k ≡ j). ap q e)

  keep-IsUnique : (d : Dict Text (List Text)) → IsUnique d → IsUnique (keep (λ (j, v). q j) d)
  keep-IsUnique [] u = tt
  keep-IsUnique ((j, v) ∷ d) u = ground (arith, lookup-keep j d, keep-IsUnique d u.1)

normal_query_same :
    ⦃u : UrlFormat⦄
    → (q r : Text) → IsUnique (u.parse_qs q)
    → IsUnique (u.parse_qs r)
    → ((k : Text) → is_kept k ≡ true → lookup k (u.parse_qs q) ≡ lookup k (u.parse_qs r))
    → normal_query q ≡ normal_query r
unfolding normal_query
normal_query_same ⦃u⦄ q r v w same =
    let d = u.parse_qs q in
    let e = u.parse_qs r in
    let agree : (k : Text)
        → lookup k (keep (λ (j, v). is_kept j) d) ≡ lookup k (keep (λ (j, v). is_kept j) e) =
      λ k.
        lookup-keep is_kept k d
        ∙ (elim (Bool-cases (is_kept k)) [
          | inl kept ↦ rw kept (same k kept)
          | inr dropped ↦ rw dropped refl
        ]
            ∙ sym (lookup-keep is_kept k e)) in
    ap u.urlencode (
      sorted_items_same (keep (λ (j, v). is_kept j) d) (keep (λ (j, v). is_kept j) e)
        (keep-IsUnique is_kept d v) (keep-IsUnique is_kept e w) agree)

-- The root needs no case of its own.
normal_path-eq :
    (path : Text)
    → normal_path path ≡ (if null (rstrip_slash path) then bytes "/" else rstrip_slash path)
unfolding normal_path rstrip_slash
normal_path-eq path = elim (Bool-cases (path == bytes "/")) [
  | inl root ↦ let e : path ≡ bytes "/" = (text_beq_iff path (bytes "/")).0 root in rw e refl
  | inr other ↦ rw other refl
]

normalize_url-some :
    ⦃u : UrlFormat⦄
    → (url : Text) {p : UrlParts} → u.urlparse url ≡ some p
    → normalize_url url ≡ some (normal_form p)
unfolding normalize_url
normalize_url-some url e = rw (normalize_url, e) refl

-- Two URLs that urlparse takes have the same normal form where their schemes and hosts agree but for
-- letter case, their paths but for slashes at the end, their path parameters agree, and their
-- queries give the same values to every key that is not a tracking parameter, in whatever order,
-- provided that no key stands twice in a parsed query; the fragments may be any.
pub normalize_url_same :
    ⦃u : UrlFormat⦄
    → (a b : Text) {p q : UrlParts} → u.urlparse a ≡ some p
    → u.urlparse b ≡ some q
    → lower p.scheme ≡ lower q.scheme
    → lower p.netloc ≡ lower q.netloc
    → rstrip_slash p.path ≡ rstrip_slash q.path
    → p.params ≡ q.params
    → IsUnique (u.parse_qs p.query)
    → IsUnique (u.parse_qs q.query)
    → ((k : Text)
        → not (any_of (lower k) tracking_params) ≡ true
        → lookup k (u.parse_qs p.query) ≡ lookup k (u.parse_qs q.query))
    → (n : Text) × (normalize_url a ≡ some n) × (normalize_url b ≡ some n)
unfolding normal_form
normalize_url_same ⦃u⦄ a b {p} {q} in_a in_b scheme netloc path params v w same =
    let paths : normal_path p.path ≡ normal_path q.path =
      normal_path-eq p.path
      ∙ (ap (λ s. if null s then bytes "/" else s) path ∙ sym (normal_path-eq q.path)) in
    let query = normal_query_same p.query q.query v w same in
    let forms : normal_form q ≡ normal_form p =
      sym (rw (normal_form, scheme, netloc, paths, params, query) refl) in
    (normal_form p, normalize_url-some a in_a, normalize_url-some b in_b ∙ ap (λ t. some t) forms)
