-- ===== src/P2p/Dht/Node/Locks.antt =====
-- infomesh/p2p/dht.py: the locks of crawlers, with the coroutines of two nodes.
use infomesh.Prelude.{
  Bool, List, [], ◌∷◌, map, All, ℕ, ◌+◌, ◌≤◌, ◌<◌, ◌≡◌, refl, sym, subst, ◌∙◌, true, false, inl,
  inr, arith, ltb, if◌then◌else◌, Text, Bool-cases,
}
use infomesh.Prelude.Result.{ok}
use infomesh.Prelude.Hash.{Sha256}
use infomesh.P2p.Dht.{DhtValue, lock_value, Kad, Reliable, DhtNode}
use infomesh.P2p.Dht.Node.{
  lock_key, timestamp_in, try_put, count_acquired, count_released, lock_held, put_lock,
  acquire_crawl_lock, release_crawl_lock,
}
use infomesh.P2p.Dht.Node.Index.{try_put-put_value}

-- Where a coroutine of `acquire_crawl_lock` stands.
pub data Phase : Type 0 where
  trying free holding refused : DhtNode → Phase

-- A call of `acquire_crawl_lock`: who makes it, with which time to live, and the two readings of the
-- clock.
pub record Attempt : Type 0 where
  pub node : DhtNode
  pub ttl : ℕ
  pub now : ℕ
  pub stamped : ℕ

module _ ⦃h : Sha256⦄ {N : Type 0} ⦃kad : Kad N⦄ where
  -- the time that a lock in the network has
  lock_held-put :
      (after : DhtNode → DhtNode) (node : DhtNode) (net : N) (url peer_id : Text) (stamp ttl : ℕ)
      (node' : DhtNode) (net' : N) (ttl_seconds now : ℕ)
      → Reliable kad
      → try_put after node net
          (lock_key url)
          (lock_value (record { peer_id = peer_id; url = url; timestamp = stamp; ttl = ttl }))
        ≡ (true, node', net')
      → lock_held net' url ttl_seconds now ≡ ltb now (stamp + ttl_seconds)
  unfolding lock_held timestamp_in Reliable
  lock_held-put after node net url peer_id stamp ttl node' net' ttl_seconds now reliable e =
      rw
        (
          lock_held,
          reliable net net' (lock_key url) _
              (try_put-put_value after node net (lock_key url) _ node' net' e),
        )
        refl

  refused_once :
      (node other : DhtNode) (net : N) (url : Text) (ttl now stamped : ℕ) (node' : DhtNode)
      (net' : N) (ttl' later stamped' : ℕ)
      → Reliable kad
      → acquire_crawl_lock node net url ttl now stamped ≡ (true, node', net')
      → later < stamped + ttl'
      → acquire_crawl_lock other net' url ttl' later stamped' ≡ (false, other, net')
  unfolding acquire_crawl_lock put_lock
  refused_once node other net url ttl now stamped node' net' ttl' later stamped' reliable e live =
      elim (Bool-cases (lock_held net url ttl now)) [
        | inl held ↦ absurd (ground (arith, e, held))
        | inr clear ↦
            let seen =
              lock_held-put count_acquired node net url node.peer_id stamped ttl node' net' ttl'
                later reliable (sym (rw (acquire_crawl_lock, clear) refl) ∙ e) in
            ground (arith, seen, live)
      ]

  -- The answers to attempts that nodes make to acquire the lock of a URL, one after the other, and
  -- the network after them.
  pub attempts : Text → List Attempt → N → List Bool × N
  attempts url [] net = ([], net)
  attempts url (a ∷ rest) net =
      let (got, node', net') = acquire_crawl_lock a.node net url a.ttl a.now a.stamped in
      let (answers, net'') = attempts url rest net' in (got ∷ answers, net'')

  -- After a node has acquired the lock of a URL, every attempt in any sequence of attempts of any
  -- nodes is refused and leaves the network as it is, where a put that returns is found by a get,
  -- calls run one after the other, nothing else is put or released in between, and at each attempt
  -- the time to live of that attempt has not passed since the lock was stamped.
  pub lock_excludes :
      (node : DhtNode) (net : N) (url : Text) (ttl now stamped : ℕ) (node' : DhtNode) (net' : N)
      (others : List Attempt)
      → Reliable kad
      → acquire_crawl_lock node net url ttl now stamped ≡ (true, node', net')
      → All (λ a. a.now < stamped + a.ttl) others
      → attempts url others net' ≡ (map (λ a. false) others, net')
  unfolding attempts
  lock_excludes node net url ttl now stamped node' net' [] reliable e live = refl
  lock_excludes node net url ttl now stamped node' net' (a ∷ rest) reliable e live =
      let no =
        refused_once node a.node net url ttl now stamped node' net' a.ttl a.now a.stamped reliable e
          live.0 in
      rw (no, lock_excludes node net url ttl now stamped node' net' rest reliable e live.1) refl

  -- Where a put that returns is found by a get: after a release, by any node, the lock of the URL is in
  -- nobody's way once the clock shows at least the time to live.
  pub release_frees :
      (node : DhtNode) (net : N) (url : Text) (node' : DhtNode) (net' : N) (ttl now : ℕ)
      → Reliable kad
      → release_crawl_lock node net url ≡ (true, node', net')
      → ttl ≤ now
      → lock_held net' url ttl now ≡ false
  unfolding release_crawl_lock
  release_frees node net url node' net' ttl now reliable e late = ground (
    arith,
    lock_held-put count_released node net url node.peer_id 0 0 node' net' ttl now reliable e,
    late,
  )

  -- One step of one of two coroutines that try to acquire the lock of a URL.
  pub data Step (url : Text) (ttl : ℕ) : N × Phase × Phase → N × Phase × Phase → Type 0 where
    first_checks :
        (net : N) (node : DhtNode) (q : Phase) (now : ℕ)
        → Step url ttl
            (net, trying node, q)
            (net, (if lock_held net url ttl now then refused node else free node), q)
    second_checks :
        (net : N) (node : DhtNode) (p : Phase) (now : ℕ)
        → Step url ttl
            (net, p, trying node)
            (net, p, (if lock_held net url ttl now then refused node else free node))
    first_puts :
        (net : N) (node : DhtNode) (q : Phase) (stamped : ℕ) (node' : DhtNode) (net' : N)
        → put_lock node net url ttl stamped ≡ (true, node', net')
        → Step url ttl (net, free node, q) (net', holding node', q)
    second_puts :
        (net : N) (node : DhtNode) (p : Phase) (stamped : ℕ) (node' : DhtNode) (net' : N)
        → put_lock node net url ttl stamped ≡ (true, node', net')
        → Step url ttl (net, p, free node) (net', p, holding node')

  pub data Steps (url : Text) (ttl : ℕ) : N × Phase × Phase → N × Phase × Phase → Type 0 where
    stop : (c : N × Phase × Phase) → Steps url ttl c c
    step : (c d e : N × Phase × Phase) → Step url ttl c d → Steps url ttl d e → Steps url ttl c e

  put_lock-returns :
      (node : DhtNode) (net net' : N) (url : Text) (ttl stamped : ℕ)
      → kad.put_value net (lock_key url) (
          lock_value (record { peer_id = node.peer_id; url = url; timestamp = stamped; ttl = ttl }))
        ≡ ok net'
      → put_lock node net url ttl stamped ≡ (true, count_acquired node, net')
  unfolding put_lock try_put
  put_lock-returns node net net' url ttl stamped e = rw (put_lock, try_put, e) refl

  after_check :
      (net : N) (node : DhtNode) (url : Text) (ttl now : ℕ)
      → lock_held net url ttl now ≡ false
      → (if lock_held net url ttl now then refused node else free node) ≡ free node
  after_check net node url ttl now e = rw e refl

  -- The check and the put are two steps: wherever no lock is in the way and puts do not raise, two
  -- nodes that check before either puts both come to hold the lock.
  pub both_hold :
      (node other : DhtNode) (net : N) (url : Text) (ttl now later stamped stamped' : ℕ)
      → ((n : N) (key : Text) (v : DhtValue) → (n' : N) × (kad.put_value n key v ≡ ok n'))
      → lock_held net url ttl now ≡ false
      → lock_held net url ttl later ≡ false
      → (net' : N) × (a : DhtNode) × (b : DhtNode) × Steps url ttl
          (net, trying node, trying other)
          (net', holding a, holding b)
  both_hold node other net url ttl now later stamped stamped' returns clear clear' =
      let (net₁, put₁) = returns net (lock_key url) (
        lock_value
          (record { peer_id = node.peer_id; url = url; timestamp = stamped; ttl = ttl })) in
      let (net₂, put₂) = returns net₁ (lock_key url) (
        lock_value
          (record { peer_id = other.peer_id; url = url; timestamp = stamped'; ttl = ttl })) in
      let check₁ =
        subst (λ p. Step url ttl (net, trying node, trying other) (net, p, trying other))
          (after_check net node url ttl now clear) (first_checks net node (trying other) now) in
      let check₂ =
        subst (λ q. Step url ttl (net, free node, trying other) (net, free node, q))
          (after_check net other url ttl later clear')
          (second_checks net other (free node) later) in
      (
        net₂,
        count_acquired node,
        count_acquired other,
        step _ _ _ check₁ (
            step _ _ _ check₂ (
              step _ _ _
                (first_puts net node (free other) stamped (count_acquired node) net₁
                  (put_lock-returns node net net₁ url ttl stamped put₁))
                (step _ _ _
                  (second_puts net₁ other (holding (count_acquired node)) stamped'
                    (count_acquired other) net₂
                    (put_lock-returns other net₁ net₂ url ttl stamped' put₂))
                  (stop _)))),
      )
