-- ===== src/P2p/Sybil/Limits.antt =====
-- infomesh/p2p/sybil.py, `SubnetLimiter`: the sets of peers that its operations leave behind.
use infomesh.Prelude.{
  ℕ, ◌+◌, ◌≤◌, ◌<◌, ◌≡◌, inl, inr, refl, ◌∙◌, true, false, not, List, [], ◌∷◌, ◌++◌, arith, ltb,
  if◌then◌else◌, length, null, Text, Bool-cases, ◌==◌, nat_eq, text_eq, nat_beq_iff, text_beq_iff,
  length-append, length-keep-le,
}
use infomesh.Prelude.Dict.{lookup, insert, erase}
use infomesh.Prelude.Dict.Laws.{lookup-insert, lookup-erase}
use infomesh.Prelude.Result.{ok}
use infomesh.P2p.Sybil.{
  IpAddress, Buckets, SubnetLimiter, get_subnet, or_empty, peers_at, put_peers, member, set_add,
  set_discard, can_add, add, remove, drop_empty,
}

pub peers_at-put_peers :
    (b : Buckets) (i j : ℕ) (s t : Text) (peers : List Text)
    → peers_at (put_peers b i s peers) j t
      ≡ (if j == i then (if t == s then peers else peers_at b j t) else peers_at b j t)
unfolding peers_at put_peers
peers_at-put_peers b i j s t peers = ground (
  arith,
  nat_beq_iff j i,
  lookup-insert i j (insert s peers (or_empty (lookup i b))) b,
  lookup-insert s t peers (or_empty (lookup i b)),
)

-- Reading an entry changes no set of peers.
pub peers_at-touch :
    (b : Buckets) (i j : ℕ) (s t : Text)
    → peers_at (put_peers b i s (peers_at b i s)) j t ≡ peers_at b j t
peers_at-touch b i j s t =
    ground (arith, nat_beq_iff j i, text_beq_iff t s, peers_at-put_peers b i j s t (peers_at b i s))

null→eq {ℓ} : {A : Type ℓ} (xs : List A) → null xs ≡ true → xs ≡ []
null→eq [] h = refl
null→eq (x ∷ xs) h = cc

-- The two halves of the clean-up in `remove`.
peers_at-erase_subnet :
    (b : Buckets) (i j : ℕ) (s t : Text)
    → null (peers_at b i s) ≡ true
    → peers_at (insert i (erase s (or_empty (lookup i b))) b) j t ≡ peers_at b j t
unfolding peers_at
peers_at-erase_subnet b i j s t h = ground (
  arith,
  nat_beq_iff j i,
  text_beq_iff t s,
  null→eq (or_empty (lookup s (or_empty (lookup i b)))) h,
  lookup-insert i j (erase s (or_empty (lookup i b))) b,
  lookup-erase s t (or_empty (lookup i b)),
)

peers_at-erase_bucket :
    (b : Buckets) (i j : ℕ) (t : Text)
    → null (or_empty (lookup i b)) ≡ true
    → peers_at (erase i b) j t ≡ peers_at b j t
unfolding peers_at lookup
peers_at-erase_bucket b i j t h =
    ground (arith, nat_beq_iff j i, null→eq (or_empty (lookup i b)) h, lookup-erase i j b)

peers_at-drop_bucket :
    (b : Buckets) (i j : ℕ) (t : Text)
    → peers_at (if null (or_empty (lookup i b)) then erase i b else b) j t ≡ peers_at b j t
peers_at-drop_bucket b i j t = elim (Bool-cases (null (or_empty (lookup i b)))) [
  | inl empty ↦ rw empty (peers_at-erase_bucket b i j t empty)
  | inr full ↦ rw full refl
]

-- The clean-up removes empty entries only.
pub peers_at-drop_empty :
    (b : Buckets) (i j : ℕ) (s t : Text) → peers_at (drop_empty b i s) j t ≡ peers_at b j t
unfolding drop_empty
peers_at-drop_empty b i j s t = elim (Bool-cases (null (peers_at b i s))) [
  | inl empty ↦ rw empty (
      peers_at-drop_bucket (insert i (erase s (or_empty (lookup i b))) b) i j t
      ∙ peers_at-erase_subnet b i j s t empty)
  | inr full ↦ rw full (peers_at-drop_bucket b i j t)
]

pub length-set_add-le : (x : Text) (s : List Text) → length (set_add x s) ≤ length s + 1
unfolding set_add
length-set_add-le x s = ground (arith, length-append s (x ∷ []))

pub length-set_discard-le : (x : Text) (s : List Text) → length (set_discard x s) ≤ length s
unfolding set_discard
length-set_discard-le x s = length-keep-le (λ y. not (x == y)) s

member-append_self : (x : Text) (s : List Text) → member x (s ++ x ∷ []) ≡ true
unfolding member
member-append_self x [] = ground (arith, text_beq_iff x x)
member-append_self x (y ∷ s) = ground (arith, member-append_self x s)

pub member-set_add : (x : Text) (s : List Text) → member x (set_add x s) ≡ true
unfolding set_add
member-set_add x s = ground (arith, member-append_self x s)

member-set_discard : (x : Text) (s : List Text) → member x (set_discard x s) ≡ false
unfolding set_discard member
member-set_discard x [] = refl
member-set_discard x (y ∷ s) = ground (arith, member-set_discard x s)

-- In every bucket, every subnet has at most `max_per_subnet` peers.
pub record IsLimited (l : SubnetLimiter) : Type 0 where
  pub at : (i : ℕ) (s : Text) → length (peers_at l.buckets i s) ≤ l.max_per_subnet

module _ ⦃ip_address : IpAddress⦄ (l : SubnetLimiter) (ip : Text) (i : ℕ) where
  -- What the three operations do once the subnet of the address is known.
  pub can_add-eq :
      (s : Text)
      → get_subnet ip ≡ ok s
      → can_add l ip i
        ≡ ok (
          ltb (length (peers_at l.buckets i s)) l.max_per_subnet,
          record l { buckets = put_peers l.buckets i s (peers_at l.buckets i s) },
        )
  unfolding can_add
  can_add-eq s p = rw p

  pub add_room :
      (peer_id s : Text)
      → get_subnet ip ≡ ok s
      → length (peers_at l.buckets i s) < l.max_per_subnet
      → add l ip peer_id i
        ≡ ok (
          true,
          record l { buckets = put_peers l.buckets i s (set_add peer_id (peers_at l.buckets i s)) },
        )
  unfolding add
  add_room peer_id s p r = rw p (ground arith)

  add_full :
      (peer_id s : Text)
      → get_subnet ip ≡ ok s
      → l.max_per_subnet ≤ length (peers_at l.buckets i s)
      → add l ip peer_id i
        ≡ ok (false, record l { buckets = put_peers l.buckets i s (peers_at l.buckets i s) })
  unfolding add
  add_full peer_id s p r = rw p (ground arith)

  pub remove-eq :
      (peer_id s : Text)
      → get_subnet ip ≡ ok s
      → remove l ip peer_id i
        ≡ ok (record l {
          buckets =
              drop_empty
                (put_peers l.buckets i s (set_discard peer_id (peers_at l.buckets i s)))
                i
                s;
        })
  unfolding remove
  remove-eq peer_id s p = rw p
