-- ===== src/Queue/Priority.antt =====
-- The priority mode: `enqueue_priority`.
use dionys_os.Prelude.{
  ℕ, zero, suc, ◌+◌, ◌<◌, ◌≤◌, ◌≡◌, ◌≢◌, true, [], ◌∷◌, length, arith, update, ok, ltb, Bool-cases,
  inl, inr,
}
use dionys_os.Queue.{Nodes, Queue, null, inc, enqueue_fifo, enqueue_priority, priority_walk}
use dionys_os.Queue.Layout.{
  Entry, entry, Entries, Seg, Seg-frame, Out, IsQueue, IsQueue-frame, AgreesOff, last_address,
  live-last,
}
use dionys_os.Queue.Fifo.{with_node, with_node-AgreesOff}

-- The priority of the last node.
abbrev pub last_rank : ℕ → Entries → ℕ
last_rank r [] = r
last_rank r (x ∷ xs) = last_rank x.rank xs

priority-last :
    (n : Nodes) (p : ℕ) (x : Entry) (xs : Entries)
    → Seg n p (x ∷ xs)
    → n.priority (last_address x.address xs) ≡ last_rank x.rank xs
priority-last n p x [] s = s.4
priority-last n p x (y ∷ ys) s = priority-last n (n.next x.address) y ys s.5

module _ (fresh value priority : ℕ) (ne : fresh ≢ null) (given : value ≢ null) (n : Nodes)
    (q : Queue) where
  abbrev m : Nodes
  m = with_node fresh value priority ne given n

  -- For a well-formed queue that is not empty and a new node that is not null, not in it and
  -- holds a value, of a priority not above that of the last node, the priority mode does what the
  -- FIFO mode does.
  pub enqueue_priority-eq-enqueue_fifo :
      (x : Entry) (xs : Entries)
      → IsQueue n q (x ∷ xs)
      → Out fresh (x ∷ xs)
      → priority ≤ last_rank x.rank xs
      → enqueue_priority q fresh m ≡ enqueue_fifo q fresh m
  unfolding enqueue_priority enqueue_fifo
  enqueue_priority-eq-enqueue_fifo x [] is out low = ground arith
  enqueue_priority-eq-enqueue_fifo x (y ∷ ys) is out low =
      let is' =
        IsQueue-frame n m q (x ∷ y ∷ ys) fresh (with_node-AgreesOff fresh value priority ne given n)
          out is in
      ground (
        arith,
        live-last m q.head x (y ∷ ys) is'.chain,
        priority-last m q.head x (y ∷ ys) is'.chain,
        is'.tail_ok,
        is'.count,
      )

  -- The walk for a place between the last node and the first.
  walk-loses :
      (k : ℕ) (u : Nodes) (p : ℕ) (x : Entry) (xs : Entries)
      → Seg u p (x ∷ xs)
      → Out fresh (x ∷ xs)
      → u.live fresh ≡ true
      → last_rank x.rank xs < u.priority fresh
      → length xs < k
      → (u' : Nodes) × (priority_walk k p fresh q u
          ≡ ok (record q { node_count = inc q.node_count }) u')
        × AgreesOff fresh u u'
  unfolding priority_walk
  walk-loses zero u p x xs s out live low fuel = absurd (omega arith)
  walk-loses (suc k) u p x [] s out live low fuel = (
    record u {
      next = update u.next fresh p;
      prev = update (update u.prev fresh (u.prev p)) p fresh;
    },
    ground arith,
    λ b d. ground arith,
  )
  walk-loses (suc k) u p x (y ∷ ys) s out live low fuel =
      let r = walk-loses k u (u.next x.address) y ys s.5 out.1 live low (omega arith) in
      elim (Bool-cases (ltb x.rank (u.priority fresh))) [
        | inl hit ↦ (
          record u {
            next = update u.next fresh p;
            prev = update (update u.prev fresh (u.prev p)) p fresh;
          },
          ground (arith, hit),
          λ b d. ground arith,
        )
        | inr miss ↦ (r.0, ground (arith, miss, r.1), r.2)
      ]

  -- For a well-formed queue of two nodes or more and a new node that is not null, not in it and
  -- holds a value, of a priority above that of the last node and below that of the first, the
  -- priority mode ends with a count one higher but with the same entries from the head as before.
  enqueue_priority-loses :
      (x y : Entry) (ys : Entries)
      → IsQueue n q (x ∷ y ∷ ys)
      → Out fresh (x ∷ y ∷ ys)
      → last_rank y.rank ys < priority
      → priority < x.rank
      → (u : Nodes) × (enqueue_priority q fresh m
          ≡ ok (record q { node_count = inc q.node_count }) u)
        × Seg u q.head (x ∷ y ∷ ys)
  unfolding enqueue_priority
  enqueue_priority-loses x y ys is out low high =
      let is' =
        IsQueue-frame n m q (x ∷ y ∷ ys) fresh (with_node-AgreesOff fresh value priority ne given n)
          out is in
      let r =
        walk-loses (q.node_count + 1) m q.head x (y ∷ ys) is'.chain out (ground arith)
          (ground arith) (ground (arith, is.count)) in
      (
        r.0,
        ground (
          arith,
          live-last m q.head x (y ∷ ys) is'.chain,
          priority-last m q.head x (y ∷ ys) is'.chain,
          is'.tail_ok,
          is'.count,
          r.1,
        ),
        Seg-frame m r.0 fresh q.head (x ∷ y ∷ ys) r.2 out is'.chain,
      )

  -- For a well-formed queue of two nodes or more and a new node that is not null, not in it and
  -- holds a value, of a priority above that of the last node and not below that of the first, the
  -- priority mode puts the new node in the second place.
  enqueue_priority-second :
      (x y : Entry) (ys : Entries)
      → IsQueue n q (x ∷ y ∷ ys)
      → Out fresh (x ∷ y ∷ ys)
      → last_rank y.rank ys < priority
      → x.rank ≤ priority
      → (u : Nodes) × (enqueue_priority q fresh m
          ≡ ok (record q { node_count = inc q.node_count }) u)
        × Seg u q.head (x ∷ entry fresh value priority ∷ y ∷ ys)
  unfolding enqueue_priority
  enqueue_priority-second x y ys is out low high =
      let is' =
        IsQueue-frame n m q (x ∷ y ∷ ys) fresh (with_node-AgreesOff fresh value priority ne given n)
          out is in
      let c = is'.chain.5 in
      let m₁ = record m {
        next = update m.next fresh y.address;
        prev = update m.prev fresh x.address;
      } in
      let m₂ = record m₁ { next = update m₁.next x.address fresh } in
      let rest =
        Seg-frame m₁ m₂ x.address (m₂.next fresh) (y ∷ ys) (λ b d. ground arith) is.distinct.0
          (Seg-frame m m₁ fresh (m₂.next fresh) (y ∷ ys) (λ b d. ground arith) out.1
            (ground arith, c.1, c.2, c.3, c.4, c.5)) in
      (
        record m {
          next = update (update m.next fresh y.address) x.address fresh;
          prev = update m.prev fresh x.address;
        },
        ground (
          arith,
          live-last m q.head x (y ∷ ys) is'.chain,
          priority-last m q.head x (y ∷ ys) is'.chain,
          is'.tail_ok,
          is'.count,
        ),
        (
          is'.chain.0,
          is'.chain.1,
          is'.chain.2,
          is'.chain.3,
          is'.chain.4,
          (ground arith, ne, ground arith, ground arith, ground arith, rest),
        ),
      )
