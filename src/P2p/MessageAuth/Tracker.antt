-- ===== src/P2p/MessageAuth/Tracker.antt =====
-- infomesh/p2p/message_auth.py, `NonceTracker`: its size, and what it remembers.
use infomesh.Prelude.{
  ℕ, zero, suc, ◌≤◌, ◌<◌, ◌≡◌, refl, ap, inl, inr, true, false, arith, ltb, leb, if◌then◌else◌,
  length, Text, ◌==◌, text_eq, Bool-cases, Bool, ◌∙◌,
}
use infomesh.Prelude.Dict.{insert, move_to_end, pop_first, IsUnique}
use infomesh.Prelude.Dict.Laws.{
  lookup-insert, lookup-move_to_end, length-pop_first, length-move_to_end, insert-IsUnique,
  move_to_end-IsUnique, pop_first-IsUnique,
}
use infomesh.P2p.MessageAuth.{NonceTracker, max_nonce_history, highest, trim, check_and_record}

length-trim :
    (fuel : ℕ) (t : NonceTracker) → length t ≤ fuel → length (trim fuel t) ≤ max_nonce_history
unfolding trim
length-trim zero t h = omega arith
length-trim (suc fuel) t h = ground (arith, length-trim fuel (pop_first t), length-pop_first t)

trim-IsUnique : (fuel : ℕ) (t : NonceTracker) → IsUnique t → IsUnique (trim fuel t)
unfolding trim
trim-IsUnique zero t u = u
trim-IsUnique (suc fuel) t u = elim (Bool-cases (ltb max_nonce_history (length t))) [
  | inl full ↦ rw full (trim-IsUnique fuel (pop_first t) (pop_first-IsUnique t u))
  | inr room ↦ rw room u
]

trim_id : (fuel : ℕ) (t : NonceTracker) → length t ≤ max_nonce_history → trim fuel t ≡ t
unfolding trim
trim_id zero t h = refl
trim_id (suc fuel) t h = ground arith

-- A tracker with at most `max_nonce_history` peers, each of them once.
pub record IsTracker (t : NonceTracker) : Type 0 where
  pub bounded : length t ≤ max_nonce_history
  pub unique : IsUnique t

-- From a tracker that names no peer twice, `check_and_record` leaves one that names no peer twice,
-- and whenever it records the tracker has at most 10 000 peers.
pub check_and_record-IsTracker :
    (t : NonceTracker) (peer_id : Text) (nonce : ℕ)
    → IsTracker t
    → IsTracker (check_and_record t peer_id nonce).1
unfolding check_and_record
check_and_record-IsTracker t peer_id nonce v = elim (Bool-cases (leb nonce (highest t peer_id))) [
  | inl old ↦ rw old v
  | inr new ↦ rw new (record {
    bounded = length-trim _ (move_to_end peer_id (insert peer_id nonce t)) (omega arith);
    unique =
        trim-IsUnique _ _
          (move_to_end-IsUnique peer_id _ (insert-IsUnique peer_id nonce t v.unique));
  })
]

pub check_and_record_fresh :
    (t : NonceTracker) (peer_id : Text) (nonce : ℕ)
    → IsUnique t
    → length (insert peer_id nonce t) ≤ max_nonce_history
    → highest t peer_id < nonce
    → check_and_record t peer_id nonce ≡ (true, move_to_end peer_id (insert peer_id nonce t))
unfolding check_and_record
check_and_record_fresh t peer_id nonce u h f =
    let room : length (move_to_end peer_id (insert peer_id nonce t)) ≤ max_nonce_history = omega (
      arith,
      length-move_to_end peer_id (insert peer_id nonce t) (insert-IsUnique peer_id nonce t u),
    ) in
    ground (
      arith,
      trim_id (length (move_to_end peer_id (insert peer_id nonce t)))
          (move_to_end peer_id (insert peer_id nonce t)) room,
    )

pub check_and_record_stale :
    (t : NonceTracker) (peer_id : Text) (nonce : ℕ)
    → nonce ≤ highest t peer_id
    → check_and_record t peer_id nonce ≡ (false, t)
unfolding check_and_record
check_and_record_stale t peer_id nonce h = ground arith

pub check_and_record_new :
    (t : NonceTracker) (peer_id : Text) (nonce : ℕ)
    → highest t peer_id < nonce
    → (check_and_record t peer_id nonce).0 ≡ true
unfolding check_and_record
check_and_record_new t peer_id nonce h = ground arith

highest-move_to_end-insert :
    (t : NonceTracker) (peer_id other : Text) (nonce : ℕ)
    → highest (move_to_end peer_id (insert peer_id nonce t)) other
      ≡ (if other == peer_id then nonce else highest t other)
unfolding highest
highest-move_to_end-insert t peer_id other nonce = ground (
  arith,
  lookup-move_to_end peer_id other (insert peer_id nonce t),
  lookup-insert peer_id other nonce t,
)

-- With room for one more peer nothing is forgotten: the highest nonce of the peer becomes the new
-- one, and those of the others stay.
pub highest-check_and_record :
    (t : NonceTracker) (peer_id other : Text) (nonce : ℕ)
    → IsUnique t
    → length (insert peer_id nonce t) ≤ max_nonce_history
    → highest t peer_id < nonce
    → highest (check_and_record t peer_id nonce).1 other
      ≡ (if other == peer_id then nonce else highest t other)
highest-check_and_record t peer_id other nonce u h f =
    ap (λ (r : Bool × NonceTracker). highest r.1 other)
      (check_and_record_fresh t peer_id nonce u h f)
    ∙ highest-move_to_end-insert t peer_id other nonce
