-- ===== src/P2p/Pex/Memory.antt =====
-- infomesh/p2p/pex.py: what a node remembers of an accepted request.
use infomesh.Prelude.{
  ℕ, ◌+◌, ◌≤◌, ◌<◌, ◌≡◌, inl, inr, refl, sym, ap, subst, Bool, true, false, none, some, List, [],
  ◌∷◌, arith, ltb, if◌then◌else◌, Text, text_eq, text_beq_iff, ◌==◌, Bool-cases, Option-cases,
}
use infomesh.Prelude.Dict.{Dict, lookup, insert, erase, IsUnique}
use infomesh.Prelude.Dict.Laws.{
  lookup-insert, lookup-erase, insert-IsUnique, erase-IsUnique, eq_refl,
}
use infomesh.P2p.Pex.{
  PeerExchange, check_rate_limit, or_epoch, cleanup_rate_limits, stale, delete_all,
}

-- A request of `peer` was accepted at `t`: it is remembered, or it is more than ten minutes old.
pub record IsRemembered (p : PeerExchange) (peer : Text) (t now : ℕ) : Type 0 where
  pub past : t ≤ now
  pub unique : IsUnique p.last_request
  pub kept : (s : ℕ) → lookup peer p.last_request ≡ some s → (t ≤ s) × (s ≤ now)
  pub dropped : lookup peer p.last_request ≡ none → t + 600 < now

listed : Text → List Text → Bool
listed k [] = false
listed k (x ∷ xs) = if k == x then true else listed k xs

lookup-delete_all :
    (k : Text) (pids : List Text) (d : Dict Text ℕ)
    → lookup k (delete_all pids d) ≡ (if listed k pids then none else lookup k d)
unfolding delete_all listed
lookup-delete_all k [] d = refl
lookup-delete_all k (p ∷ pids) d =
    ground (arith, lookup-delete_all k pids (erase p d), lookup-erase p k d)

pub delete_all-IsUnique :
    (pids : List Text) (d : Dict Text ℕ) → IsUnique d → IsUnique (delete_all pids d)
unfolding delete_all
delete_all-IsUnique [] d u = u
delete_all-IsUnique (p ∷ pids) d u = delete_all-IsUnique pids (erase p d) (erase-IsUnique p d u)

listed-stale-none :
    (k : Text) (now : ℕ) (d : Dict Text ℕ) → lookup k d ≡ none → listed k (stale now d) ≡ false
unfolding listed stale lookup
listed-stale-none k now [] h = refl
listed-stale-none k now ((j, w) ∷ d) h = ground (arith, listed-stale-none k now d)

listed-stale-some :
    (k : Text) (now s : ℕ) (d : Dict Text ℕ)
    → IsUnique d
    → lookup k d ≡ some s
    → listed k (stale now d) ≡ ltb (s + 600) now
unfolding listed stale lookup
listed-stale-some k now s [] u h = cc
listed-stale-some k now s ((j, w) ∷ d) u h =
    let ih = listed-stale-some k now s d u.1 in
    let absent = listed-stale-none k now d in
    elim (Bool-cases (k == j)) [
      | inl same ↦
          let k_is : k ≡ j = (text_beq_iff k j).0 same in
          let later : listed k (stale now d) ≡ false =
            absent (subst (λ x. lookup x d ≡ none) (sym k_is) u.0) in
          ground arith
      | inr other ↦ ground (arith, ih)
    ]

-- The two ways of `check_rate_limit`.
module _ (p : PeerExchange) (peer : Text) (now : ℕ) where
  unfoldable pub early : Bool
  early = ltb now (or_epoch (lookup peer p.last_request) + 60)

  pub check_early : early ≡ true → check_rate_limit p peer now ≡ (false, p)
  unfolding check_rate_limit early
  check_early h = rw h refl

  pub check_due :
      early ≡ false
      → check_rate_limit p peer now
        ≡ (true, record p { last_request = insert peer now p.last_request })
  unfolding check_rate_limit early
  check_due h = rw h refl

  pub due_of_accepted : (check_rate_limit p peer now).0 ≡ true → early ≡ false
  due_of_accepted h = elim (Bool-cases early) [
    | inl e ↦ absurd (let f = ap (λ x. x.0) (check_early e) in cc)
    | inr d ↦ d
  ]

-- An accepted request is remembered.
pub accepted-IsRemembered :
    (p : PeerExchange) (peer : Text) (t : ℕ)
    → IsUnique p.last_request
    → (check_rate_limit p peer t).0 ≡ true
    → IsRemembered (check_rate_limit p peer t).1 peer t t
accepted-IsRemembered p peer t u h = rw (check_due p peer t (due_of_accepted p peer t h)) (record {
  past = omega arith;
  unique = insert-IsUnique peer t p.last_request u;
  kept = λ s e. let new = lookup-insert peer peer t p.last_request in ground (arith, eq_refl peer);
  dropped = λ e. let new = lookup-insert peer peer t p.last_request in ground (arith, eq_refl peer);
})

pub requested-IsRemembered :
    (p : PeerExchange) (peer other : Text) (t last now : ℕ)
    → last ≤ now
    → IsRemembered p peer t last
    → IsRemembered (check_rate_limit p other now).1 peer t now
requested-IsRemembered p peer other t last now l r = elim (Bool-cases (early p other now)) [
  | inl e ↦ rw (check_early p other now e) (record {
    past = omega (arith, r.past);
    unique = r.unique;
    kept = λ s e. let k = r.kept s e in (k.0, omega (arith, k.1));
    dropped = λ e. omega (arith, r.dropped e);
  })
  | inr due ↦ rw (check_due p other now due) (record {
    past = omega (arith, r.past);
    unique = insert-IsUnique other now p.last_request r.unique;
    kept = λ s e. elim (Bool-cases (peer == other)) [
      | inl same ↦
          let is_now : now ≡ s = ground (arith, lookup-insert other peer now p.last_request) in
          (omega (arith, r.past), omega arith)
      | inr differs ↦
          let k = r.kept s (ground (arith, lookup-insert other peer now p.last_request)) in
          (k.0, omega (arith, k.1))
    ];
    dropped = λ e. elim (Bool-cases (peer == other)) [
      | inl same ↦ absurd (let f = lookup-insert other peer now p.last_request in ground arith)
      | inr differs ↦
          omega (arith, r.dropped (ground (arith, lookup-insert other peer now p.last_request)))
    ];
  })
]

pub cleaned-IsRemembered :
    (p : PeerExchange) (peer : Text) (t last now : ℕ)
    → last ≤ now
    → IsRemembered p peer t last
    → IsRemembered (cleanup_rate_limits p now) peer t now
unfolding cleanup_rate_limits
cleaned-IsRemembered p peer t last now l r = record {
  past = omega (arith, r.past);
  unique = delete_all-IsUnique (stale now p.last_request) p.last_request r.unique;
  kept = λ s e.
      let before : lookup peer p.last_request ≡ some s =
        ground (arith, lookup-delete_all peer (stale now p.last_request) p.last_request) in
      let k = r.kept s before in (k.0, omega (arith, k.1));
  dropped = λ e. elim (Option-cases (lookup peer p.last_request)) [
    | inl absent ↦ omega (arith, r.dropped absent)
    | inr (s, there) ↦
        let gone : ltb (s + 600) now ≡ true = ground (
          arith,
          lookup-delete_all peer (stale now p.last_request) p.last_request,
          listed-stale-some peer now s p.last_request r.unique there,
        ) in
        ground (arith, r.kept s there)
  ];
}
