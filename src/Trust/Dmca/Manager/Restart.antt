-- ===== src/Trust/Dmca/Manager/Restart.antt =====
-- infomesh/trust/dmca.py: what a manager remembers of its notices over calls and restarts.
use infomesh.Prelude.{
  ℕ, ◌≡◌, ◌↔◌, refl, sym, subst, ◌∙◌, true, false, not, ◌⊎◌, inl, inr, Option, some, List, [], ◌∷◌,
  arith, In, Text, text_eq, ◌==◌, Bool-cases, Option-cases,
}
use infomesh.Prelude.Dict.{lookup, contains}
use infomesh.Prelude.Dict.Laws.{contains-insert}
use infomesh.Prelude.Result.{Result, ok, err}
use infomesh.Prelude.Hash.{Sha256}
use infomesh.Trust.Dmca.{
  Printing, Scan, KeyPairLike, TakedownStatus, TakedownNotice, TakedownManager, TakedownStore,
  new_store, empty_manager, save_notice, save_ack, save_propagation, persist, open_manager,
}
use infomesh.Trust.Dmca.Manager.{
  DmcaError, check_rate_limit, make_notice, enter_notice, create_notice, acknowledge,
  record_propagation, is_taken_down, rate_limit_exceeded, make_ack, any_text,
}
use infomesh.Prelude.Clock.{or_clock}
use infomesh.Trust.Dmca.Manager.Rows.{
  has_url, In-has_url, has_url-In, has_url-scan, has_url-replace, In-keep_append, load_rows-store,
  contains-load_rows,
}

-- Notices with one id are for one URL.
unfoldable pub Consistent : List TakedownNotice → Type 0
Consistent log =
    (a b : TakedownNotice) → In a log → In b log → a.notice_id ≡ b.notice_id → a.url ≡ b.url

abbrev pub noted : Result DmcaError TakedownNotice → List TakedownNotice → List TakedownNotice
noted (ok n) log = n ∷ log
noted (err e) log = log

-- A manager with a database that calls and restarts lead to, with the notices that were created, the
-- last first. A restart opens the tables that the last manager has left.
pub data Reachable ⦃h : Sha256⦄ ⦃p : Printing⦄ ⦃s : Scan⦄
    : TakedownManager → List TakedownNotice → Type 0 where
  opened : Reachable (open_manager (some new_store)) []
  created :
      {m : TakedownManager} {log : List TakedownNotice} (url reason : Text) (key : KeyPairLike)
      (contact_info : Text) (now : Option ℕ) (clock : ℕ)
      → Reachable m log
      → Reachable
          (create_notice m url reason key contact_info now clock).1
          (noted (create_notice m url reason key contact_info now clock).0 log)
  answered :
      {m : TakedownManager} {log : List TakedownNotice} (notice_id peer_id : Text)
      (status : TakedownStatus) (now : Option ℕ) (clock : ℕ)
      → Reachable m log
      → Reachable (acknowledge m notice_id peer_id status now clock).1 log
  spread :
      {m : TakedownManager} {log : List TakedownNotice} (notice_id peer_id : Text)
      → Reachable m log
      → Reachable (record_propagation m notice_id peer_id) log
  restarted :
      {m : TakedownManager} {log : List TakedownNotice}
      → Reachable m log
      → Reachable (open_manager m.store) log

-- The tables and the manager agree on the URLs of the notices.
record IsPersisted (m : TakedownManager) (log : List TakedownNotice) : Type 0 where
  db : TakedownStore
  stored : m.store ≡ some db
  known : (n : TakedownNotice) → In n db.dmca_notices → In n log
  kept : (url : Text) → has_url url db.dmca_notices ≡ has_url url log
  seen : (url : Text) → contains url m.url_takedowns ≡ has_url url log

IsPersisted-by :
    (m m' : TakedownManager) (log : List TakedownNotice) (save : TakedownStore → TakedownStore)
    → ((db : TakedownStore) → (save db).dmca_notices ≡ db.dmca_notices)
    → m'.store ≡ (persist save m).store
    → m'.url_takedowns ≡ m.url_takedowns
    → IsPersisted m log
    → IsPersisted m' log
IsPersisted-by m m' log save same e u i = record {
  db = save i.db;
  stored = e ∙ (rw (i.stored) refl);
  known = rw (same i.db) (i.known);
  kept = rw (same i.db) (i.kept);
  seen = rw u (i.seen);
}

open_manager-IsPersisted :
    ⦃s : Scan⦄
    → (m : TakedownManager) (log : List TakedownNotice) → IsPersisted m log
    → IsPersisted (open_manager m.store) log
unfolding open_manager contains lookup
open_manager-IsPersisted ⦃s⦄ m log i = rw (i.stored) (record {
  db = i.db;
  stored = load_rows-store i.db (s.scan i.db.dmca_notices) (empty_manager (some i.db));
  known = i.known;
  kept = i.kept;
  seen = λ url.
      contains-load_rows i.db (s.scan i.db.dmca_notices) (empty_manager (some i.db)) url
      ∙ ground (arith, has_url-scan url i.db.dmca_notices, i.kept url);
})

enter_notice-IsPersisted :
    (n : TakedownNotice) (m : TakedownManager) (log : List TakedownNotice)
    → Consistent (n ∷ log)
    → IsPersisted m log
    → IsPersisted (enter_notice n m) (n ∷ log)
unfolding enter_notice save_notice has_url Consistent
enter_notice-IsPersisted n m log c i = record {
  db = save_notice n i.db;
  stored = rw (i.stored) refl;
  known = λ x j. ground (
    arith,
    In-keep_append (λ r. not (r.notice_id == n.notice_id)) x n i.db.dmca_notices j,
    i.known x,
  );
  kept = λ url.
      has_url-replace url n i.db.dmca_notices (λ r j. c r n (inr (i.known r j)) (inl refl))
      ∙ ground (arith, i.kept url);
  seen = λ url. ground (arith, contains-insert n.url url n.notice_id m.url_takedowns, i.seen url);
}

pub create_notice-cases :
    ⦃h : Sha256⦄ ⦃p : Printing⦄
    → (m : TakedownManager) (url reason : Text) (key : KeyPairLike) (contact_info : Text)
      (now : Option ℕ) (clock : ℕ)
    → let (within, m') = check_rate_limit m key.peer_id (or_clock now clock) in
      let n = make_notice url reason key contact_info (or_clock now clock) in
      ((within ≡ true)
        × (create_notice m url reason key contact_info now clock ≡ (ok n, enter_notice n m')))
      ⊎ ((within ≡ false)
          × (create_notice m url reason key contact_info now clock ≡ (err rate_limit_exceeded, m')))
unfolding create_notice
create_notice-cases m url reason key contact_info now clock =
    elim (Bool-cases (check_rate_limit m key.peer_id (or_clock now clock)).0) [
      | inl within ↦ inl (within, rw within refl)
      | inr beyond ↦ inr (beyond, rw beyond refl)
    ]

check_rate_limit-IsPersisted :
    (m : TakedownManager) (requester_id : Text) (now : ℕ) (log : List TakedownNotice)
    → IsPersisted m log
    → IsPersisted (check_rate_limit m requester_id now).1 log
unfolding check_rate_limit
check_rate_limit-IsPersisted m requester_id now log i = record {
  db = i.db;
  stored = i.stored;
  known = i.known;
  kept = i.kept;
  seen = i.seen;
}

acknowledge-IsPersisted :
    ⦃p : Printing⦄
    → (m : TakedownManager) (notice_id peer_id : Text) (status : TakedownStatus) (now : Option ℕ)
      (clock : ℕ) (log : List TakedownNotice)
    → IsPersisted m log
    → IsPersisted (acknowledge m notice_id peer_id status now clock).1 log
unfolding acknowledge
acknowledge-IsPersisted m notice_id peer_id status now clock log i =
    elim (Option-cases (lookup notice_id m.records)) [
      | inl missing ↦ rw (acknowledge, missing) i
      | inr (r, e) ↦
          rw (acknowledge, e)
            (IsPersisted-by m _ log
              (save_ack (make_ack notice_id peer_id status (or_clock now clock)))
              (λ db. unfold save_ack in refl) refl refl i)
    ]

save_propagation-notices :
    (notice_id peer_id : Text) (db : TakedownStore)
    → (save_propagation notice_id peer_id db).dmca_notices ≡ db.dmca_notices
unfolding save_propagation
save_propagation-notices notice_id peer_id db = ground arith

record_propagation-IsPersisted :
    (m : TakedownManager) (notice_id peer_id : Text) (log : List TakedownNotice)
    → IsPersisted m log
    → IsPersisted (record_propagation m notice_id peer_id) log
unfolding record_propagation
record_propagation-IsPersisted m notice_id peer_id log i =
    elim (Option-cases (lookup notice_id m.records)) [
      | inl missing ↦ rw (record_propagation, missing) i
      | inr (r, e) ↦
          rw (record_propagation, e)
            (elim (Bool-cases (any_text peer_id r.propagated_to)) [
              | inl old ↦ rw old i
              | inr fresh ↦ rw fresh (
                  IsPersisted-by m _ log (save_propagation notice_id peer_id)
                    (λ db. save_propagation-notices notice_id peer_id db) refl refl i)
            ])
    ]

Consistent-tail :
    (n : TakedownNotice) (log : List TakedownNotice) → Consistent (n ∷ log) → Consistent log
unfolding Consistent
Consistent-tail n log c = λ a b i j. c a b (inr i) (inr j)

Reachable-IsPersisted :
    ⦃h : Sha256⦄ ⦃p : Printing⦄ ⦃s : Scan⦄
    → (m : TakedownManager) (log : List TakedownNotice) → Reachable m log
    → Consistent log
    → IsPersisted m log
unfolding has_url contains lookup
Reachable-IsPersisted m log opened c =
    open_manager-IsPersisted (empty_manager (some new_store)) [] (record {
      db = new_store;
      stored = refl;
      known = λ n i. i;
      kept = λ url. refl;
      seen = λ url. refl;
    })
Reachable-IsPersisted m log (created {m = m₀} {log = log₀} url reason key contact_info now clock r)
      c =
    elim (create_notice-cases m₀ url reason key contact_info now clock) [
      | inl (within, e) ↦
          let n = make_notice url reason key contact_info (or_clock now clock) in
          let c' : Consistent (n ∷ log₀) = subst (λ q. Consistent (noted q.0 log₀)) e c in
          rw e (
            enter_notice-IsPersisted n _ log₀ c' (
              check_rate_limit-IsPersisted m₀ key.peer_id (or_clock now clock) log₀
                (Reachable-IsPersisted m₀ log₀ r (Consistent-tail n log₀ c'))))
      | inr (beyond, e) ↦ rw e (
          check_rate_limit-IsPersisted m₀ key.peer_id (or_clock now clock) log₀
            (Reachable-IsPersisted m₀ log₀ r (subst (λ q. Consistent (noted q.0 log₀)) e c)))
    ]
Reachable-IsPersisted m log (answered {m = m₀} notice_id peer_id status now clock r) c =
    acknowledge-IsPersisted m₀ notice_id peer_id status now clock log
      (Reachable-IsPersisted m₀ log r c)
Reachable-IsPersisted m log (spread {m = m₀} notice_id peer_id r) c =
    record_propagation-IsPersisted m₀ notice_id peer_id log (Reachable-IsPersisted m₀ log r c)
Reachable-IsPersisted m log (restarted {m = m₀} r) c =
    open_manager-IsPersisted m₀ log (Reachable-IsPersisted m₀ log r c)

-- After any calls and restarts of a manager with a database, in any order and with SQLite returning
-- rows in any order, a URL is taken down exactly where some notice was created for it, provided that
-- no two of the notices created have one id and different URLs.
pub is_taken_down_iff :
    ⦃h : Sha256⦄ ⦃p : Printing⦄ ⦃s : Scan⦄
    → (m : TakedownManager) (log : List TakedownNotice) → Reachable m log
    → Consistent log
    → (url : Text)
    → (is_taken_down m url ≡ true) ↔ ((n : TakedownNotice) × In n log × (url ≡ n.url))
unfolding is_taken_down
is_taken_down_iff m log r c url =
    let i = Reachable-IsPersisted m log r c in
    (
      λ t. has_url-In url log (sym (i.seen url) ∙ t),
      λ (n, j, e). i.seen url ∙ In-has_url url n log j e,
    )
