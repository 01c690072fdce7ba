-- ===== src/Crawler/Scheduler/Take.antt =====
-- infomesh/crawler/scheduler.py: the step of get_url that takes a URL.
use infomesh.Prelude.{
  ℕ, ◌+◌, ◌-◌, ◌≡◌, refl, sym, ap, none, some, List, [], ◌∷◌, arith, length, Text, text_eq,
  text_beq_iff, ◌==◌, nat_eq, Bool-cases, inl, inr,
}
use infomesh.Prelude.Dict.{lookup, insert}
use infomesh.Prelude.Dict.Laws.{lookup-insert}
use infomesh.Crawler.Scheduler.{UrlParse, Scheduler, or_new, dequeue, delay_of}
use infomesh.Crawler.Scheduler.Steps.{IsLimited}

module _ ⦃u : UrlParse⦄ where
  -- What `dequeue` does with a queue that is not empty.
  abbrev pub taken_from : Scheduler → Text → List (Text × ℕ) → Scheduler
  taken_from s url rest = record s {
    domains = insert (u.netloc url) (or_new (lookup (u.netloc url) s.domains)) s.domains;
    queue = rest;
  }

  abbrev pub wait_for : Scheduler → Text → ℕ → ℕ
  wait_for s url now =
      let state = or_new (lookup (u.netloc url) s.domains) in
      (state.last_request_at + delay_of s state) - now

  pub dequeue_head :
      (s : Scheduler) (now : ℕ) (url : Text) (depth : ℕ) (rest : List (Text × ℕ))
      → s.queue ≡ (url, depth) ∷ rest
      → dequeue s now ≡ some ((url, depth, wait_for s url now), taken_from s url rest)
  unfolding dequeue
  dequeue_head s now url depth rest e = rw e refl

  pub dequeue_empty : (s : Scheduler) (now : ℕ) → s.queue ≡ [] → dequeue s now ≡ none
  unfolding dequeue
  dequeue_empty s now e = rw e refl

  pending-taken_from :
      (s : Scheduler) (url d : Text) (rest : List (Text × ℕ))
      → (or_new (lookup d (taken_from s url rest).domains)).pending_count
        ≡ (or_new (lookup d s.domains)).pending_count
  pending-taken_from s url d rest =
      let name = u.netloc url in
      rw (lookup-insert name d (or_new (lookup name s.domains)) s.domains)
        (elim (Bool-cases (d == name)) [
          | inl same ↦ rw same (
              ap (λ k. (or_new (lookup k s.domains)).pending_count)
                (sym ((text_beq_iff d name).0 same)))
          | inr other ↦ rw other refl
        ])

  pub taken-IsLimited :
      (pending hourly : ℕ) (s : Scheduler) (url : Text) (depth : ℕ) (rest : List (Text × ℕ))
      → s.queue ≡ (url, depth) ∷ rest
      → IsLimited pending hourly s
      → IsLimited pending hourly (taken_from s url rest)
  taken-IsLimited pending hourly s url depth rest e w = record {
    set_pending = w.set_pending;
    polite = record { at = λ d. rw (pending-taken_from s url d rest) (w.polite.at d) };
    queued = omega (arith, ap length e, w.queued);
    set_hourly = w.set_hourly;
    counted = w.counted;
  }
