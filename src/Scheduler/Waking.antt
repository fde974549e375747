-- ===== src/Scheduler/Waking.antt =====
-- What a wakeup does to the sleeping processes.
use dionys_os.Prelude.{
  ℕ, zero, suc, ◌<◌, ◌≡◌, ◌≢◌, ◌⊎◌, inl, inr, Bool, true, false, ◌==◌, ◌||◌, ◌&&◌, if◌then◌else◌,
  update, update_same, update_other, ok, arith, refl, sym, ap, ◌∙◌, subst, List, [], ◌∷◌, length,
  Bool-cases,
}
use dionys_os.DoublyLinkedList.{Nodes, DoublyLinkedList, null, dec, remove_node_by_address}
use dionys_os.Spinlock.Recursion.{Free, taken, acquire-once, release-taken}
use dionys_os.Scheduler.{State, woken, wakeup_loop, sched_wakeup}

-- A node of the queue with its process.
abbrev pub Cells : Type 0
Cells = List (ℕ × ℕ)

abbrev pub within : Cells → ℕ → Bool
within [] b = false
within (c ∷ cs) b = (b == c.0) || within cs b

abbrev pub sleeps : Cells → ℕ → Bool
sleeps [] q = false
sleeps (c ∷ cs) q = (q == c.1) || sleeps cs q

-- A node that may stand in front of the nodes `cs`.
abbrev InFront : Nodes → ℕ → Cells → Type 0
InFront m b cs = ((b ≡ null) ⊎ (m.live b ≡ true)) × (within cs b ≡ false)

-- From `p` the next pointers lead through the nodes `cs` to null, and each prev pointer leads to a
-- live node in front, or to null.
abbrev pub Queued : Nodes → ℕ → Cells → Type 0
Queued m p [] = p ≡ null
Queued m p (c ∷ cs) =
    (p ≡ c.0)
    × (p ≢ null)
    × (c.1 ≢ null)
    × (m.live p ≡ true)
    × (m.value p ≡ c.1)
    × (within cs p ≡ false)
    × InFront m (m.prev p) (c ∷ cs)
    × Queued m (m.next p) cs

Queued-next :
    (m : Nodes) (x v p : ℕ) (cs : Cells)
    → within cs x ≡ false
    → Queued m p cs
    → Queued (record m { next = update m.next x v }) p cs
Queued-next m x v p [] out is = is
Queued-next m x v p (c ∷ cs) out is =
    let off : p ≢ x = λ e. ground (arith, e, out, is.0) in
    (
      is.0,
      is.1,
      is.2,
      is.3,
      is.4,
      is.5,
      is.6,
      subst (λ n. Queued (record m { next = update m.next x v }) n cs)
          (sym (update_other m.next x p v off))
          (Queued-next m x v (m.next p) cs (ground (arith, out)) is.7),
    )

Queued-prev :
    (m : Nodes) (x v p : ℕ) (cs : Cells)
    → within cs x ≡ false
    → Queued m p cs
    → Queued (record m { prev = update m.prev x v }) p cs
Queued-prev m x v p [] out is = is
Queued-prev m x v p (c ∷ cs) out is =
    let off : p ≢ x = λ e. ground (arith, e, out, is.0) in
    (
      is.0,
      is.1,
      is.2,
      is.3,
      is.4,
      is.5,
      subst (λ b. InFront m b (c ∷ cs)) (sym (update_other m.prev x p v off)) is.6,
      Queued-prev m x v (m.next p) cs (ground (arith, out)) is.7,
    )

-- The first node gets another node in front.
Queued-front :
    (m : Nodes) (v p : ℕ) (cs : Cells)
    → InFront m v cs
    → Queued m p cs
    → Queued (record m { prev = update m.prev p v }) p cs
Queued-front m v p [] front is = is
Queued-front m v p (c ∷ cs) front is = (
  is.0,
  is.1,
  is.2,
  is.3,
  is.4,
  is.5,
  subst (λ b. InFront m b (c ∷ cs)) (sym (update_same m.prev p v)) front,
  Queued-prev m p v (m.next p) cs is.5 is.7,
)

no_node : {n : ℕ} → n ≡ null → (n == null) ≡ true
no_node e = ground (arith, e)

a_node : {n : ℕ} → n ≢ null → (n == null) ≡ false
a_node h = ground (arith, h)

null_of : {n : ℕ} → (n == null) ≡ true → n ≡ null
null_of h = ground (arith, h)

-- A node leaves the queue; the walk can go on from it.
abbrev Leaves : (m : Nodes) (l : DoublyLinkedList) (p : ℕ) → Cells → Type 0
Leaves m l p cs =
    (l' : DoublyLinkedList) × (m' : Nodes) × (remove_node_by_address l p m ≡ ok l' m')
    × (m'.live p ≡ true)
    × Queued m' (m'.next p) cs

front_live :
    (m : Nodes) (b : ℕ) (cs : Cells) → InFront m b cs → (b == null) ≡ false → m.live b ≡ true
front_live m b cs front some_node = elim front.0 [
  | inl e ↦ absurd (ground (arith, e, some_node))
  | inr live ↦ live
]

next_live : (m : Nodes) (n : ℕ) (cs : Cells) → Queued m n cs → (n == null) ≡ false → m.live n ≡ true
next_live m n [] is some_node = absurd (ground (arith, is, some_node))
next_live m n (c ∷ cs) is some_node = is.3

module _ (m : Nodes) (l : DoublyLinkedList) (p : ℕ) (c : ℕ × ℕ) (cs : Cells)
    (is : Queued m p (c ∷ cs)) where
  not_front : p ≢ m.prev p
  not_front e = ground (arith, e, is.0, is.6.1)

  behind_out : within cs (m.prev p) ≡ false
  behind_out = ground (arith, is.6.1)

  -- The node in front skips this one.
  skipped : Nodes
  skipped = record m { next = update m.next (m.prev p) (m.next p) }

  skipped-Queued : Queued skipped (skipped.next p) cs
  unfolding skipped
  skipped-Queued =
      subst (λ n. Queued skipped n cs) (sym (update_other m.next (m.prev p) p (m.next p) not_front))
        (Queued-next m (m.prev p) (m.next p) (m.next p) cs behind_out is.7)

  remove_node-Leaves : Leaves m l p cs
  unfolding remove_node_by_address skipped
  remove_node-Leaves = elim (Bool-cases (m.next p == null)) [
    | inl last ↦ elim (Bool-cases (m.prev p == null)) [
      | inl alone ↦ (
        record { head = null; tail = null; node_count = dec l.node_count },
        m,
        rw (is.3, is.3, last, alone) refl,
        is.3,
        is.7,
      )
      | inr before ↦ (
        record l { tail = m.prev p; node_count = dec l.node_count },
        record m { next = update m.next (m.prev p) null },
        rw (is.3, is.3, last, before, front_live m (m.prev p) (c ∷ cs) is.6 before) refl,
        is.3,
        subst (λ n. Queued (record m { next = update m.next (m.prev p) null }) n cs)
            (sym (update_other m.next (m.prev p) p null not_front))
            (Queued-next m (m.prev p) null (m.next p) cs behind_out is.7),
      )
    ]
    | inr more ↦ elim (Bool-cases (m.prev p == null)) [
      | inl first ↦ (
        record l { head = m.next p; node_count = dec l.node_count },
        record m { prev = update m.prev (m.next p) null },
        rw (is.3, is.3, more, first, next_live m (m.next p) cs is.7 more) refl,
        is.3,
        Queued-front m null (m.next p) cs
            (inl refl, ap (within cs) (sym (null_of first)) ∙ behind_out) is.7,
      )
      | inr before ↦ (
        record l { node_count = dec l.node_count },
        record skipped { prev = update m.prev (m.next p) (m.prev p) },
        rw
            (
              is.3,
              is.3,
              more,
              before,
              front_live m (m.prev p) (c ∷ cs) is.6 before,
              next_live m (m.next p) cs is.7 more,
            )
            refl,
        is.3,
        subst (λ n. Queued (record skipped { prev = update m.prev (m.next p) (m.prev p) }) n cs)
            (sym (update_other m.next (m.prev p) p (m.next p) not_front))
            (Queued-front skipped (m.prev p) (m.next p) cs (is.6.0, behind_out)
              (Queued-next m (m.prev p) (m.next p) (m.next p) cs behind_out is.7)),
      )
    ]
  ]

-- The sleeping processes of the channel have woken up, and nothing else has happened to a process.
pub record Woken (channel : ℕ) (cs : Cells) (s t : State) : Type 0 where
  pub channels :
      (q : ℕ)
      → t.sleep_channel q
        ≡ (if sleeps cs q && (s.sleep_channel q == channel) then 0 else s.sleep_channel q)
  pub states : (q : ℕ) → t.current_state q ≡ s.current_state q

-- The channel of a process after the first one of the queue is looked at.
one_more :
    (q p before after channel : ℕ) (others : Bool) (result : ℕ)
    → result ≡ (if others && (after == channel) then 0 else after)
    → after ≡ (if (q == p) && (before == channel) then 0 else before)
    → result ≡ (if ((q == p) || others) && (before == channel) then 0 else before)
one_more q p before after channel true result r a = ground (arith, r, a)
one_more q p before after channel false result r a = ground (arith, r, a)

module _ (channel : ℕ) where
  abbrev Wakes : (fuel node process : ℕ) → Cells → State → Type 0
  Wakes fuel node process cs s =
      (t : State) × (wakeup_loop fuel channel node process s ≡ ok tt t)
      × Woken channel cs s t
      × (t.sched_sleep_lock ≡ s.sched_sleep_lock)

  wakeup_loop-Wakes :
      (cs : Cells) (fuel node process : ℕ) (s : State)
      → Queued s.nodes node cs
      → process ≢ null
      → length cs < fuel
      → Wakes fuel node process cs s
  unfolding wakeup_loop
  wakeup_loop-Wakes cs zero node process s is given enough = absurd (omega (arith, enough))
  wakeup_loop-Wakes [] (suc fuel) node process s is given enough =
      (s, rw (no_node is) refl, record { channels = λ q. refl; states = λ q. refl }, refl)
  wakeup_loop-Wakes (c ∷ cs) (suc fuel) node process s is given enough =
      elim (Bool-cases (s.sleep_channel c.1 == channel)) [
        | inl hit ↦
            (let gone = remove_node-Leaves s.nodes s.global_sleep_queue node c cs is in
              let s1 : State = record (woken c.1 s) {
                nodes = gone.1;
                global_sleep_queue = gone.0;
              } in
              let rest =
                wakeup_loop-Wakes cs fuel (gone.1.next node) c.1 s1 gone.4 is.2
                  (omega (arith, enough)) in
              (
                rest.0,
                rw (a_node is.1, a_node given, is.3, is.4, hit, gone.2, gone.3, rest.1) refl,
                record {
                  channels = λ q.
                      one_more q c.1 (s.sleep_channel q) (s1.sleep_channel q) channel (sleeps cs q)
                        (rest.0.sleep_channel q) (rest.2.channels q) (ground (arith, hit));
                  states = rest.2.states;
                },
                rest.3,
              ))
        | inr miss ↦
            (let rest =
                wakeup_loop-Wakes cs fuel (s.nodes.next node) c.1 s is.7 is.2
                  (omega (arith, enough)) in
              (
                rest.0,
                rw (a_node is.1, a_node given, is.3, is.4, miss, is.3, rest.1) refl,
                record {
                  channels = λ q.
                      one_more q c.1 (s.sleep_channel q) (s.sleep_channel q) channel (sleeps cs q)
                        (rest.0.sleep_channel q) (rest.2.channels q) (ground (arith, miss));
                  states = rest.2.states;
                },
                rest.3,
              ))
      ]

-- For a free sleep lock, a CPU that is not null and a queue that is not empty, whose next
-- pointers lead through live nodes with processes to null and whose prev pointers lead to live
-- nodes in front or to null, with more rounds than nodes, a wakeup after the bootstrap ends with
-- the lock free; every process in the queue that slept on the channel then sleeps on none, every
-- other channel is as it was, and the state of no process has changed.
pub sched_wakeup-Woken :
    (my_cpu current_process fuel channel : ℕ) (s : State) (c : ℕ × ℕ) (cs : Cells)
    → my_cpu ≢ 0
    → Free s.sched_sleep_lock
    → Queued s.nodes s.global_sleep_queue.head (c ∷ cs)
    → length (c ∷ cs) < fuel
    → (t : State) × (sched_wakeup my_cpu current_process fuel channel s ≡ ok tt t)
      × Woken channel (c ∷ cs) s t
      × (t.sched_sleep_lock ≡ s.sched_sleep_lock)
unfolding sched_wakeup
sched_wakeup-Woken my_cpu current_process fuel channel s c cs on_cpu free is enough =
    let held = taken my_cpu current_process on_cpu s.sched_sleep_lock free in
    let wakes =
      wakeup_loop-Wakes channel (c ∷ cs) fuel s.global_sleep_queue.head c.1
        (record s { sched_sleep_lock = held }) is is.2 enough in
    (
      record wakes.0 { sched_sleep_lock = s.sched_sleep_lock },
      rw
          (
            acquire-once my_cpu current_process on_cpu s.sched_sleep_lock free,
            a_node is.1,
            is.3,
            is.4,
            wakes.1,
            wakes.3,
            release-taken my_cpu current_process on_cpu s.sched_sleep_lock free,
          )
          refl,
      record { channels = wakes.2.channels; states = wakes.2.states },
      refl,
    )

-- For a free sleep lock and an empty queue, a wakeup ends with the lock still held.
sched_wakeup-empty :
    (my_cpu current_process fuel channel : ℕ) (s : State) (on_cpu : my_cpu ≢ 0)
    (free : Free s.sched_sleep_lock)
    → s.global_sleep_queue.head ≡ null
    → sched_wakeup my_cpu current_process fuel channel s
      ≡ ok tt (record s {
        sched_sleep_lock = taken my_cpu current_process on_cpu s.sched_sleep_lock free;
      })
unfolding sched_wakeup
sched_wakeup-empty my_cpu current_process fuel channel s on_cpu free empty =
    rw (acquire-once my_cpu current_process on_cpu s.sched_sleep_lock free, no_node empty) refl
