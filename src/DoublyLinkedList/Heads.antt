-- ===== src/DoublyLinkedList/Heads.antt =====
-- Lists built by insertions at the head.
use dionys_os.Prelude.{ℕ, ◌≡◌, ◌≢◌, false, arith, fault, ◌>>=◌}
use dionys_os.DoublyLinkedList.{
  Nodes, DoublyLinkedList, null, init, insert_head, insert_tail, remove_tail,
}

-- After two insertions at the head of an empty list, of two different nodes that are not null,
-- both an insertion of a node that is not null at the tail and a removal at the tail are faults,
-- null being no live node.
insert_tail-insert_head_twice :
    (a b c v w x : ℕ) (n : Nodes) (l : DoublyLinkedList)
    → a ≢ null
    → b ≢ null
    → c ≢ null
    → a ≢ b
    → n.live null ≡ false
    → (((insert_head a (init l) v >>= λ l₁. insert_head b l₁ w) >>= λ l₂. insert_tail c l₂ x) n
        ≡ fault)
      × (((insert_head a (init l) v >>= λ l₁. insert_head b l₁ w) >>= λ l₂. remove_tail l₂) n
          ≡ fault)
unfolding insert_head insert_tail remove_tail init
insert_tail-insert_head_twice a b c v w x n l na nb nc ab live = (ground (arith), ground (arith))
