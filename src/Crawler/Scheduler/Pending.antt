-- ===== src/Crawler/Scheduler/Pending.antt =====
-- infomesh/crawler/scheduler.py: the pending URLs per domain.
use infomesh.Prelude.{
  ℕ, ◌≤◌, subst, List, [], ◌∷◌, arith, leb, length, Text, text_eq, ◌==◌, nat_eq, Bool-cases,
  Option-cases, inl, inr,
}
use infomesh.Prelude.Dict.{Dict, lookup, insert, erase}
use infomesh.Prelude.Dict.Laws.{lookup-insert, lookup-erase}
use infomesh.Crawler.Scheduler.{
  DomainState, or_new, delete_domains, stale_domains, prune_stale_domains, write_request,
}

-- No domain has more pending URLs than the limit.
pub record IsPolite (limit : ℕ) (ds : Dict Text DomainState) : Type 0 where
  pub at : (d : Text) → (or_new (lookup d ds)).pending_count ≤ limit

pub insert-IsPolite :
    (limit : ℕ) (d : Text) (state : DomainState) (ds : Dict Text DomainState)
    → state.pending_count ≤ limit
    → IsPolite limit ds
    → IsPolite limit (insert d state ds)
insert-IsPolite limit d state ds l w = record {
  at = λ e.
      rw (lookup-insert d e state ds)
        (elim (Bool-cases (e == d)) [ inl same ↦ rw same l | inr other ↦ rw other (w.at e) ]);
}

erase-IsPolite :
    (limit : ℕ) (d : Text) (ds : Dict Text DomainState)
    → IsPolite limit ds
    → IsPolite limit (erase d ds)
erase-IsPolite limit d ds w = record {
  at = λ e. rw (lookup-erase d e ds) (elim (Bool-cases (e == d)) [
    | inl same ↦ rw same (omega arith)
    | inr other ↦ rw other (w.at e)
  ]);
}

delete-IsPolite :
    (limit : ℕ) (names : List Text) (ds : Dict Text DomainState)
    → IsPolite limit ds
    → IsPolite limit (delete_domains names ds)
unfolding delete_domains
delete-IsPolite limit [] ds w = w
delete-IsPolite limit (d ∷ names) ds w =
    delete-IsPolite limit names (erase d ds) (erase-IsPolite limit d ds w)

pub prune-IsPolite :
    (limit threshold now : ℕ) (ds : Dict Text DomainState)
    → IsPolite limit ds
    → IsPolite limit (prune_stale_domains threshold now ds)
unfolding prune_stale_domains
prune-IsPolite limit threshold now ds w = elim (Bool-cases (leb (length ds) threshold)) [
  | inl few ↦ rw few w
  | inr many ↦ rw many (delete-IsPolite limit (stale_domains now ds) ds w)
]

pub write-IsPolite :
    (limit : ℕ) (d : Text) (now : ℕ) (ds : Dict Text DomainState)
    → IsPolite limit ds
    → IsPolite limit (write_request d now ds)
unfolding write_request
write-IsPolite limit d now ds w = elim (Option-cases (lookup d ds)) [
  | inl absent ↦ rw (write_request, absent) w
  | inr (state, there) ↦
      rw (write_request, there)
        (insert-IsPolite limit d (record state { last_request_at = now }) ds
          (subst (λ o. (or_new o).pending_count ≤ limit) there (w.at d)) w)
]
