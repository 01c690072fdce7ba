-- ===== src/Mcp/Session/Opened.antt =====
-- infomesh/mcp/session.py, `SessionStore.get_or_create`: its bound, and the session that it returns.
use infomesh.Prelude.{
  ℕ, ◌+◌, ◌≤◌, ◌<◌, ◌≡◌, refl, ap, ◌∙◌, true, false, none, some, arith, length, Text, text_eq,
  Bool-cases, Option-cases, inl, inr,
}
use infomesh.Prelude.Dict.{Dict, lookup, contains, insert, erase, IsUnique}
use infomesh.Prelude.Dict.Laws.{
  lookup-insert, lookup-erase, insert-IsUnique, erase-IsUnique, length-insert, length-erase-le,
  eq_refl,
}
use infomesh.Prelude.Result.{ok}
use infomesh.Mcp.Session.{
  SearchSession, new_session, SessionStore, expired, with_new, create, get_or_create, remember,
}
use infomesh.Mcp.Session.Store.{IsStore, inserted-IsStore, create-ok}

-- What `get_or_create` leads to.
pub data Opened (s : SessionStore) (session_id : Text) (now : ℕ)
    : SearchSession × SessionStore → Type 0 where
  resumed :
      (v : SearchSession)
      → lookup session_id s.sessions ≡ some v
      → now < v.updated_at + s.ttl
      → Opened s session_id now (v, s)
  started :
      (d : Dict Text SearchSession)
      → ((v : SearchSession) → lookup session_id s.sessions ≡ some v → v.updated_at + s.ttl ≤ now)
      → IsUnique d
      → length d < s.max_size
      → ((k : Text) (v : SearchSession) → lookup k d ≡ some v → lookup k s.sessions ≡ some v)
      → Opened s session_id now (with_new s session_id d)

-- The three ways of `get_or_create`.
module _ (s : SessionStore) (session_id : Text) (now : ℕ) where
  get_or_create-none :
      lookup session_id s.sessions ≡ none → get_or_create s session_id now ≡ create s session_id now
  unfolding get_or_create
  get_or_create-none h = rw (get_or_create, h) refl

  get_or_create_young :
      (v : SearchSession)
      → lookup session_id s.sessions ≡ some v
      → now < v.updated_at + s.ttl
      → get_or_create s session_id now ≡ ok (v, s)
  unfolding get_or_create
  get_or_create_young v h l =
      let e : expired now s.ttl v ≡ false = ground arith in rw (get_or_create, h, e) refl

  get_or_create_old :
      (v : SearchSession)
      → lookup session_id s.sessions ≡ some v
      → v.updated_at + s.ttl ≤ now
      → get_or_create s session_id now
        ≡ create (record s { sessions = erase session_id s.sessions }) session_id now
  unfolding get_or_create
  get_or_create_old v h l =
      let e : expired now s.ttl v ≡ true = ground arith in rw (get_or_create, h, e) refl

get_or_create-Opened :
    (s : SessionStore) (session_id : Text) (now : ℕ)
    → 0 < s.max_size
    → IsStore s
    → (r : SearchSession × SessionStore) × (get_or_create s session_id now ≡ ok r)
      × Opened s session_id now r
get_or_create-Opened s session_id now p w = elim (Option-cases (lookup session_id s.sessions)) [
  | inl absent ↦
      let (d, e, rest) = create-ok s session_id now p w in
      (
        with_new s session_id d,
        get_or_create-none s session_id now absent ∙ e,
        started d (λ v h. absurd (cc)) rest.unique rest.room rest.old,
      )
  | inr (v, there) ↦ elim (Bool-cases (expired now s.ttl v)) [
    | inr young ↦ (
      (v, s),
      get_or_create_young s session_id now v there (ground arith),
      resumed v there (ground arith),
    )
    | inl old ↦
        let s' : SessionStore = record s { sessions = erase session_id s.sessions } in
        let w' : IsStore s' = record {
          unique = erase-IsUnique session_id s.sessions w.unique;
          bounded = omega (arith, length-erase-le session_id s.sessions, w.bounded);
        } in
        let (d, e, rest) = create-ok s' session_id now p w' in
        (
          with_new s session_id d,
          get_or_create_old s session_id now v there (ground arith) ∙ e,
          started d (λ u h. (let same : v ≡ u = cc in ground (arith, ap (λ x. x.updated_at) same)))
              rest.unique rest.room
              (λ k u h.
                (let before = rest.old k u h in
                  ground (arith, lookup-erase session_id k s.sessions))),
        )
  ]
]

Opened-IsStore :
    (s : SessionStore) (session_id : Text) (now : ℕ) (r : SearchSession × SessionStore)
    → Opened s session_id now r
    → IsStore s
    → IsStore r.1
      × (r.1.max_size ≡ s.max_size)
      × (r.1.ttl ≡ s.ttl)
      × (lookup session_id r.1.sessions ≡ some r.0)
Opened-IsStore s session_id now r (resumed v there young) w = (w, refl, refl, there)
Opened-IsStore s session_id now r (started d gone u l old) w = (
  inserted-IsStore s session_id new_session d u l,
  refl,
  refl,
  ground (arith, lookup-insert session_id session_id new_session d, eq_refl session_id),
)

updated-IsStore :
    (s : SessionStore) (session_id : Text) (v old : SearchSession)
    → IsStore s
    → lookup session_id s.sessions ≡ some old
    → IsStore (record s { sessions = insert session_id v s.sessions })
updated-IsStore s session_id v old w h = record {
  unique = insert-IsUnique session_id v s.sessions w.unique;
  bounded = unfold contains in ground (arith, length-insert session_id v s.sessions, w.bounded);
}

-- In a well-formed store with room for at least one session, recording a search succeeds and leaves a
-- well-formed store within its bound, and until the time to live has passed since the update the session has the
-- query and the results that were recorded.
pub remember-IsStore :
    (s : SessionStore) (session_id query results : Text) (now later then_on : ℕ)
    → 0 < s.max_size
    → IsStore s
    → then_on < later + s.ttl
    → (s' : SessionStore) × (remember s session_id query results now later ≡ ok s')
      × IsStore s'
      × (s'.max_size ≡ s.max_size)
      × (get_or_create s' session_id then_on
          ≡ ok (record { last_query = query; last_results = results; updated_at = later }, s'))
unfolding remember
remember-IsStore s session_id query results now later then_on p w l =
    let v : SearchSession = record {
      last_query = query;
      last_results = results;
      updated_at = later;
    } in
    let (r, e, o) = get_or_create-Opened s session_id now p w in
    let (w', same_max, same_ttl, there) = Opened-IsStore s session_id now r o w in
    let s' : SessionStore = record r.1 { sessions = insert session_id v r.1.sessions } in
    let found : lookup session_id s'.sessions ≡ some v =
      ground (arith, lookup-insert session_id session_id v r.1.sessions, eq_refl session_id) in
    (
      s',
      rw e refl,
      updated-IsStore r.1 session_id v r.0 w' there,
      same_max,
      get_or_create_young s' session_id then_on v found (omega (arith, same_ttl)),
    )
