-- ===== src/Crawler/Scheduler/Kept.antt =====
-- infomesh/crawler/scheduler.py: what the writes to the table of domains keep of the pending URLs of
-- one domain.
use infomesh.Prelude.{
  ℕ, ◌+◌, ◌≤◌, ◌≡◌, refl, sym, ap, ◌∙◌, subst, ◌&&◌, none, some, List, [], ◌∷◌, arith, ltb, leb,
  length, Text, text_eq, text_beq_iff, ◌==◌, nat_eq, All, Bool-cases, Option-cases, inl, inr,
}
use infomesh.Prelude.Dict.{Dict, lookup, insert, erase, IsUnique}
use infomesh.Prelude.Dict.Laws.{
  lookup-insert, lookup-erase, insert-IsUnique, erase-IsUnique, eq_refl,
}
use infomesh.Crawler.Scheduler.{
  DomainState, or_new, delete_domains, stale_domains, prune_stale_domains, write_request,
  domain_stale_seconds,
}

-- The pending URLs of a domain.
abbrev pub pending : Text → Dict Text DomainState → ℕ
pending d ds = (or_new (lookup d ds)).pending_count

-- A table with each domain once, and at least `n` pending URLs of `d`.
pub record Holds (d : Text) (n : ℕ) (ds : Dict Text DomainState) : Type 0 where
  pub unique : IsUnique ds
  pub at_least : n ≤ pending d ds

pub insert-Holds :
    (d : Text) (n : ℕ) (e : Text) (state : DomainState) (ds : Dict Text DomainState)
    → (e ≡ d → n ≤ state.pending_count)
    → Holds d n ds
    → Holds d n (insert e state ds)
insert-Holds d n e state ds l h = record {
  unique = insert-IsUnique e state ds h.unique;
  at_least =
      rw (pending, lookup-insert e d state ds)
        (elim (Bool-cases (d == e)) [
          | inl same ↦ rw same (l (sym ((text_beq_iff d e).0 same)))
          | inr other ↦ rw other (h.at_least)
        ]);
}

-- Deleting a domain without pending URLs changes no count.
pending-erase :
    (d e : Text) (ds : Dict Text DomainState)
    → pending e ds ≡ 0
    → pending d (erase e ds) ≡ pending d ds
pending-erase d e ds z =
    rw (pending, lookup-erase e d ds)
      (elim (Bool-cases (d == e)) [
        | inl same ↦ rw same (sym (ap (λ t. pending t ds) ((text_beq_iff d e).0 same) ∙ z))
        | inr other ↦ rw other refl
      ])

idle_still :
    (e : Text) (names : List Text) (ds : Dict Text DomainState)
    → pending e ds ≡ 0
    → All (λ f. pending f ds ≡ 0) names
    → All (λ f. pending f (erase e ds) ≡ 0) names
idle_still e [] ds z a = tt
idle_still e (f ∷ names) ds z a = (pending-erase f e ds z ∙ a.0, idle_still e names ds z a.1)

delete-Holds :
    (d : Text) (n : ℕ) (names : List Text) (ds : Dict Text DomainState)
    → All (λ f. pending f ds ≡ 0) names
    → Holds d n ds
    → Holds d n (delete_domains names ds)
unfolding delete_domains
delete-Holds d n [] ds a h = h
delete-Holds d n (e ∷ names) ds a h =
    delete-Holds d n names (erase e ds) (idle_still e names ds a.0 a.1) (record {
      unique = erase-IsUnique e ds h.unique;
      at_least = omega (arith, h.at_least, pending-erase d e ds a.0);
    })

-- The entry of a name, with no pending URLs.
IsIdle : Dict Text DomainState → Text → Type 0
IsIdle ds e = (s : DomainState) × (lookup e ds ≡ some s) × (s.pending_count ≡ 0)

IsIdle-below :
    (d : Text) (s : DomainState) (ds : Dict Text DomainState) (names : List Text)
    → lookup d ds ≡ none
    → All (IsIdle ds) names
    → All (IsIdle ((d, s) ∷ ds)) names
unfolding IsIdle lookup
IsIdle-below d s ds [] new a = tt
IsIdle-below d s ds (e ∷ names) new a = (
  elim (Bool-cases (e == d)) [
    | inl same ↦
        let here : some (a.0.0) ≡ none =
          sym a.0.1 ∙ (ap (λ t. lookup t ds) ((text_beq_iff e d).0 same) ∙ new) in
        absurd (cc)
    | inr other ↦ (a.0.0, rw other (a.0.1), a.0.2)
  ],
  IsIdle-below d s ds names new a.1,
)

stale-IsIdle :
    (now : ℕ) (ds : Dict Text DomainState) → IsUnique ds → All (IsIdle ds) (stale_domains now ds)
unfolding stale_domains IsIdle
stale-IsIdle now [] u = tt
stale-IsIdle now ((d, s) ∷ ds) u =
    let rest = IsIdle-below d s ds (stale_domains now ds) u.0 (stale-IsIdle now ds u.1) in
    elim (Bool-cases (ltb (s.last_request_at + domain_stale_seconds) now && s.pending_count == 0)) [
      | inl stale ↦
          rw (stale_domains, stale)
            ((s, unfold lookup in (rw (eq_refl d) refl), ground (arith, stale)), rest)
      | inr fresh ↦ rw (stale_domains, fresh) rest
    ]

idle_pending :
    (ds : Dict Text DomainState) (names : List Text)
    → All (IsIdle ds) names
    → All (λ f. pending f ds ≡ 0) names
unfolding IsIdle
idle_pending ds [] a = tt
idle_pending ds (e ∷ names) a =
    (ap (λ o. (or_new o).pending_count) a.0.1 ∙ a.0.2, idle_pending ds names a.1)

pub prune-Holds :
    (d : Text) (n threshold now : ℕ) (ds : Dict Text DomainState)
    → Holds d n ds
    → Holds d n (prune_stale_domains threshold now ds)
unfolding prune_stale_domains
prune-Holds d n threshold now ds h = elim (Bool-cases (leb (length ds) threshold)) [
  | inl few ↦ rw few h
  | inr many ↦ rw many (
      delete-Holds d n (stale_domains now ds) ds
        (idle_pending ds (stale_domains now ds) (stale-IsIdle now ds h.unique)) h)
]

pub write-Holds :
    (d : Text) (n : ℕ) (e : Text) (now : ℕ) (ds : Dict Text DomainState)
    → Holds d n ds
    → Holds d n (write_request e now ds)
unfolding write_request
write-Holds d n e now ds h = elim (Option-cases (lookup e ds)) [
  | inl absent ↦ rw (write_request, absent) h
  | inr (state, there) ↦
      rw (write_request, there)
        (insert-Holds d n e (record state { last_request_at = now }) ds
          (λ same.
            subst (λ o. n ≤ (or_new o).pending_count) (ap (λ t. lookup t ds) (sym same) ∙ there)
              h.at_least)
          h)
]
