-- ===== src/DoublyLinkedList/Tails.antt =====
-- Removing what was inserted.
use dionys_os.Prelude.{ℕ, ◌+◌, ◌^◌, ◌<◌, ◌≡◌, ◌≢◌, true, false, arith, update, ok, ◌>>=◌}
use dionys_os.DoublyLinkedList.{
  Nodes, DoublyLinkedList, null, insert_head, insert_tail, remove_tail, remove_head,
}

-- Two memories agree on every node but the one at `a`.
abbrev pub AgreesOff : ℕ → Nodes → Nodes → Type 0
AgreesOff a n m =
    (b : ℕ)
    → b ≢ a
    → (m.live b ≡ n.live b)
      × (m.value b ≡ n.value b)
      × (m.next b ≡ n.next b)
      × (m.prev b ≡ n.prev b)

module _ (fresh value : ℕ) (ne : fresh ≢ null) (n : Nodes) (l : DoublyLinkedList)
    (small : l.node_count + 1 < 2 ^ 64) where
  abbrev after_head : Nodes
  after_head = record {
    live = update (update n.live fresh true) fresh false;
    value = update (update n.value fresh 0) fresh value;
    next = update (update n.next fresh null) fresh l.head;
    prev = update (update (update (update n.prev fresh null) l.head fresh) fresh null) l.head null;
  }

  -- For a list that is not empty, with room in its 64-bit count, whose head is live, has no
  -- predecessor and is not the new node, insertion at the head followed by removal at the head
  -- gives the same list header back and changes no node but the new one.
  remove_head-insert_head :
      l.node_count ≢ 0
      → l.head ≢ fresh
      → n.live l.head ≡ true
      → n.prev l.head ≡ null
      → (m : Nodes) × ((insert_head fresh l value >>= remove_head) n ≡ ok l m) × AgreesOff fresh n m
  unfolding insert_head remove_head
  remove_head-insert_head c d live first =
      (after_head, ground (arith, c, d, live, first), λ b e. ground (arith, first))

  abbrev after_tail : Nodes
  after_tail = record {
    live = update (update n.live fresh true) fresh false;
    value = update n.value fresh value;
    next = update (update n.next l.tail fresh) l.tail null;
    prev = update n.prev fresh l.tail;
  }

  -- For a list of two nodes or more, with room in its 64-bit count, whose tail is live, has no
  -- successor and is not the new node, insertion at the tail followed by removal at the tail
  -- gives the same list header back and changes no node but the new one.
  remove_tail-insert_tail :
      1 < l.node_count
      → l.tail ≢ fresh
      → n.live l.tail ≡ true
      → n.next l.tail ≡ null
      → (m : Nodes) × ((insert_tail fresh l value >>= remove_tail) n ≡ ok l m) × AgreesOff fresh n m
  unfolding insert_tail remove_tail
  remove_tail-insert_tail c d live last =
      (after_tail, ground (arith, c, d, live, last), λ b e. ground (arith, last))
