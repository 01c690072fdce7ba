-- ===== src/Mcp/Session/Store.antt =====
-- infomesh/mcp/session.py, `SessionStore`: room for a new session.
use infomesh.Prelude.{
  ℕ, ◌≤◌, ◌<◌, ◌≡◌, ◌⊎◌, refl, sym, ap, subst, true, some, List, [], ◌∷◌, arith, leb, ltb,
  if◌then◌else◌, length, Text, text_eq, Bool-cases, inl, inr,
}
use infomesh.Prelude.Dict.{Dict, lookup, contains, insert, erase, IsUnique}
use infomesh.Prelude.Dict.Laws.{
  lookup-erase, insert-IsUnique, erase-IsUnique, length-insert, length-erase-le,
}
use infomesh.Prelude.Dict.Subset.{length-erase_lt, contains-head, contains-tail}
use infomesh.Prelude.Result.{ok, ◌>>=◌}
use infomesh.Mcp.Session.{
  SearchSession, SessionStore, expired_ids, delete_ids, evict, oldest_from, oldest_key, with_new,
  create,
}

-- No id stands twice, and there are at most `max_size` sessions.
pub record IsStore (s : SessionStore) : Type 0 where
  pub unique : IsUnique s.sessions
  pub bounded : length s.sessions ≤ s.max_size

delete_ids-IsUnique :
    (ks : List Text) (d : Dict Text SearchSession) → IsUnique d → IsUnique (delete_ids ks d)
unfolding delete_ids
delete_ids-IsUnique [] d u = u
delete_ids-IsUnique (k ∷ ks) d u = delete_ids-IsUnique ks (erase k d) (erase-IsUnique k d u)

length-delete_ids-le :
    (ks : List Text) (d : Dict Text SearchSession) → length (delete_ids ks d) ≤ length d
unfolding delete_ids
length-delete_ids-le [] d = omega arith
length-delete_ids-le (k ∷ ks) d =
    omega (arith, length-delete_ids-le ks (erase k d), length-erase-le k d)

-- The oldest session is in the dictionary, and no session is older.
oldest_from-least :
    (best : Text × SearchSession) (d : Dict Text SearchSession)
    → (k : Text) × (v : SearchSession) × (oldest_from best d ≡ k)
      × (((k ≡ best.0) × (v ≡ best.1)) ⊎ (contains k d ≡ true))
      × (v.updated_at ≤ best.1.updated_at)
unfolding oldest_from
oldest_from-least best [] = (best.0, best.1, refl, inl (refl, refl), omega arith)
oldest_from-least best (x ∷ rest) = elim (Bool-cases (ltb x.1.updated_at best.1.updated_at)) [
  | inl older ↦
      let (k, v, e, from, le) = oldest_from-least x rest in
      (
        k,
        v,
        rw older e,
        inr (elim from [
          | inl (is_x, same) ↦
              subst (λ z. contains z (x ∷ rest) ≡ true) (sym is_x) (contains-head x.0 x.1 rest)
          | inr later ↦ contains-tail k x.0 x.1 rest later
        ]),
        ground arith,
      )
  | inr younger ↦
      let (k, v, e, from, le) = oldest_from-least best rest in
      (
        k,
        v,
        rw younger e,
        elim from [ inl b ↦ inl b | inr later ↦ inr (contains-tail k x.0 x.1 rest later) ],
        le,
      )
]

oldest_key-there :
    (d : Dict Text SearchSession)
    → 0 < length d
    → (k : Text) × (oldest_key d ≡ ok k) × (contains k d ≡ true)
unfolding oldest_key
oldest_key-there [] l = absurd (omega arith)
oldest_key-there (x ∷ rest) l =
    let (k, v, e, from, le) = oldest_from-least x rest in
    (
      k,
      ap (ok) e,
      elim from [
        | inl (is_x, same) ↦
            subst (λ z. contains z (x ∷ rest) ≡ true) (sym is_x) (contains-head x.0 x.1 rest)
        | inr later ↦ contains-tail k x.0 x.1 rest later
      ],
    )

-- A new session, in a dictionary that has room for it.
pub inserted-IsStore :
    (s : SessionStore) (session_id : Text) (v : SearchSession) (d : Dict Text SearchSession)
    → IsUnique d
    → length d < s.max_size
    → IsStore (record s { sessions = insert session_id v d })
inserted-IsStore s session_id v d u l = record {
  unique = insert-IsUnique session_id v d u;
  bounded = ground (arith, length-insert session_id v d);
}

lookup-delete_ids-some :
    (k : Text) (ks : List Text) (d : Dict Text SearchSession) (v : SearchSession)
    → lookup k (delete_ids ks d) ≡ some v
    → lookup k d ≡ some v
unfolding delete_ids
lookup-delete_ids-some k [] d v h = h
lookup-delete_ids-some k (x ∷ ks) d v h =
    let before = lookup-delete_ids-some k ks (erase x d) v h in ground (arith, lookup-erase x k d)

-- What `create` leaves beside the new session: some of the old ones, with room for it.
pub record IsRest (s : SessionStore) (d : Dict Text SearchSession) : Type 0 where
  pub unique : IsUnique d
  pub room : length d < s.max_size
  pub old : (k : Text) (v : SearchSession) → lookup k d ≡ some v → lookup k s.sessions ≡ some v

create_from :
    (s : SessionStore) (session_id : Text) (d : Dict Text SearchSession)
    → 0 < s.max_size
    → IsUnique d
    → length d ≤ s.max_size
    → ((k : Text) (v : SearchSession) → lookup k d ≡ some v → lookup k s.sessions ≡ some v)
    → (e : Dict Text SearchSession) × ((if leb s.max_size (length d)
          then (oldest_key d >>= λ k. ok (with_new s session_id (erase k d)))
          else ok (with_new s session_id d))
        ≡ ok (with_new s session_id e))
      × IsRest s e
create_from s session_id d p u l old = elim (Bool-cases (leb s.max_size (length d))) [
  | inr fits ↦ (d, rw fits refl, record { unique = u; room = ground arith; old = old })
  | inl full ↦
      let (k, e, there) = oldest_key-there d (ground arith) in
      (
        erase k d,
        rw (full, e) refl,
        record {
          unique = erase-IsUnique k d u;
          room = omega (arith, length-erase_lt k d there, l);
          old = λ j v h. old j v (ground (arith, lookup-erase k j d));
        },
      )
]

pub create-ok :
    (s : SessionStore) (session_id : Text) (now : ℕ)
    → 0 < s.max_size
    → IsStore s
    → (e : Dict Text SearchSession) × (create s session_id now ≡ ok (with_new s session_id e))
      × IsRest s e
unfolding create evict
create-ok s session_id now p w = elim (Bool-cases (leb s.max_size (length s.sessions))) [
  | inr fits ↦ rw fits (create_from s session_id s.sessions p w.unique w.bounded (λ k v h. h))
  | inl full ↦
      let ids = expired_ids now s.ttl s.sessions in
      rw full (
        create_from s session_id (delete_ids ids s.sessions) p
          (delete_ids-IsUnique ids s.sessions w.unique)
          (omega (arith, length-delete_ids-le ids s.sessions, w.bounded))
          (λ k v h. lookup-delete_ids-some k ids s.sessions v h))
]
