-- ===== src/P2p/Pex/Rate.antt =====
-- infomesh/p2p/pex.py: requests of one peer are at least a minute apart, also when old entries are
-- cleaned up in between.
use infomesh.Prelude.{
  ℕ, ◌+◌, ◌≤◌, ◌≡◌, inl, inr, subst, true, false, List, [], ◌∷◌, arith, ltb, Text, text_eq,
  Bool-cases, Option-cases,
}
use infomesh.Prelude.Dict.{lookup, IsUnique}
use infomesh.Prelude.Dict.Laws.{insert-IsUnique}
use infomesh.P2p.Pex.{
  PeerExchange, new_exchange, check_rate_limit, or_epoch, cleanup_rate_limits, stale,
}
use infomesh.P2p.Pex.Memory.{
  IsRemembered, early, check_early, check_due, due_of_accepted, accepted-IsRemembered,
  requested-IsRemembered, cleaned-IsRemembered, delete_all-IsUnique,
}

-- A request with the reading of the clock, or a clean-up.
pub data Event : Type 0 where
  requested : Text → ℕ → Event
  cleaned : ℕ → Event

abbrev pub time_of : Event → ℕ
time_of (requested peer now) = now
time_of (cleaned now) = now

-- The clock never runs backwards from `t` on.
abbrev pub Forward : ℕ → List Event → Type 0
Forward t [] = Unit
Forward t (e ∷ rest) = (t ≤ time_of e) × Forward (time_of e) rest

unfoldable pub apply : PeerExchange → Event → PeerExchange
apply p (requested peer now) = (check_rate_limit p peer now).1
apply p (cleaned now) = cleanup_rate_limits p now

unfoldable pub apply_all : PeerExchange → List Event → PeerExchange
apply_all p [] = p
apply_all p (e ∷ rest) = apply_all (apply p e) rest

-- The last reading of the clock.
unfoldable pub last_time : ℕ → List Event → ℕ
last_time t [] = t
last_time t (e ∷ rest) = last_time (time_of e) rest

all-IsRemembered :
    (p : PeerExchange) (peer : Text) (t last : ℕ) (events : List Event)
    → Forward last events
    → IsRemembered p peer t last
    → IsRemembered (apply_all p events) peer t (last_time last events)
unfolding apply_all apply last_time
all-IsRemembered p peer t last [] f r = r
all-IsRemembered p peer t last (requested other now ∷ rest) f r =
    all-IsRemembered (check_rate_limit p other now).1 peer t now rest f.1
      (requested-IsRemembered p peer other t last now f.0 r)
all-IsRemembered p peer t last (cleaned now ∷ rest) f r =
    all-IsRemembered (cleanup_rate_limits p now) peer t now rest f.1
      (cleaned-IsRemembered p peer t last now f.0 r)

apply_all-IsUnique :
    (p : PeerExchange) (events : List Event)
    → IsUnique p.last_request
    → IsUnique (apply_all p events).last_request
unfolding apply_all apply
apply_all-IsUnique p [] u = u
apply_all-IsUnique p (requested other now ∷ rest) u =
    apply_all-IsUnique (check_rate_limit p other now).1 rest
      (elim (Bool-cases (early p other now)) [
        | inl e ↦ rw (check_early p other now e) u
        | inr due ↦ rw (check_due p other now due) (insert-IsUnique other now p.last_request u)
      ])
apply_all-IsUnique p (cleaned now ∷ rest) u =
    apply_all-IsUnique (cleanup_rate_limits p now) rest (
      unfold cleanup_rate_limits in delete_all-IsUnique (stale now p.last_request) p.last_request u)

spaced :
    (p : PeerExchange) (peer : Text) (t last now : ℕ)
    → last ≤ now
    → IsRemembered p peer t last
    → (check_rate_limit p peer now).0 ≡ true
    → t + 60 ≤ now
spaced p peer t last now l r h =
    let due : ltb now (or_epoch (lookup peer p.last_request) + 60) ≡ false =
      unfold early in due_of_accepted p peer now h in
    elim (Option-cases (lookup peer p.last_request)) [
      | inl absent ↦ omega (arith, r.dropped absent)
      | inr (s, there) ↦
          let k = r.kept s there in
          let due' : ltb now (s + 60) ≡ false =
            subst (λ o. ltb now (or_epoch o + 60) ≡ false) there due in
          ground (arith, k)
    ]

-- With a clock that never runs backwards: when a request of a peer is accepted after any history, and a
-- later request of the same peer is accepted after any further requests and clean-ups, the two are at
-- least 60 seconds apart.
pub requests_spaced :
    (self : Text) (before after : List Event) (peer : Text) (t now : ℕ)
    → (check_rate_limit (apply_all (new_exchange self) before) peer t).0 ≡ true
    → Forward t after
    → last_time t after ≤ now
    → (check_rate_limit
        (apply_all (check_rate_limit (apply_all (new_exchange self) before) peer t).1 after)
        peer
        now).0
      ≡ true
    → t + 60 ≤ now
requests_spaced self before after peer t now h f l k =
    let p = apply_all (new_exchange self) before in
    let p' = (check_rate_limit p peer t).1 in
    let r = accepted-IsRemembered p peer t (apply_all-IsUnique (new_exchange self) before tt) h in
    spaced (apply_all p' after) peer t (last_time t after) now l
      (all-IsRemembered p' peer t t after f r) k
