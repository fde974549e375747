-- ===== src/SinglyLinkedList/Extraction.antt =====
-- Removal at the head.
use dionys_os.Prelude.{ℕ, ◌≡◌, ◌≢◌, true, false, ◌∷◌, update, ok, if◌then◌else◌}
use dionys_os.SinglyLinkedList.{
  Nodes, SinglyLinkedList, State, null, holds_free_nodes, is_static, remove_head, node_free,
  clear_free,
}
use dionys_os.SinglyLinkedList.Layout.{Cells, Out, AgreesOff, IsPool, IsList}

-- The pool after a node with these flags is given back: a static node goes in front, a node from
-- the heap goes back to the heap.
abbrev pub returned : (flags p : ℕ) → Cells → Cells
returned flags p pool = if is_static flags then (p, p) ∷ pool else pool

-- A node is given back: nobody else's memory changes, and the pool is `pool`.
pub record Released (s : State) (p : ℕ) (pool : Cells) (t : State) : Type 0 where
  pub others : AgreesOff p s.nodes t.nodes
  pub is_pool : IsPool t.nodes t.free_nodes pool

module _ (s : State) (p : ℕ) (ne : p ≢ null) (live : s.nodes.live p ≡ true) where
  abbrev pub Release : Cells → Type 0
  Release pool = (t : State) × (node_free p s ≡ ok tt t) × Released s p pool t

  -- The memory after a static node is cleared and linked to `next`.
  abbrev pooled : ℕ → Nodes
  pooled next = record s.nodes {
    flags = update s.nodes.flags p (clear_free (s.nodes.flags p));
    value = update (update s.nodes.value p null) p p;
    next = update (update s.nodes.next p null) p next;
  }

-- The outcome of taking the first value off a list.
pub record Popped (s : State) (a v : ℕ) (xs pool : Cells) (r : ℕ × SinglyLinkedList) (t : State)
    : Type 0 where
  pub first : r.0 ≡ v
  pub is_list : IsList t.nodes r.1 xs
  pub is_pool : IsPool t.nodes t.free_nodes pool
  pub others : AgreesOff a s.nodes t.nodes

module _ (s : State) (l : SinglyLinkedList) (a v : ℕ) (pool : Cells)
    (plain : holds_free_nodes l ≡ false) (is_pool : IsPool s.nodes s.free_nodes pool)
    (apart : Out a pool) where
  abbrev pub PopsFirst : Cells → Type 0
  PopsFirst xs =
      (r : ℕ × SinglyLinkedList) × (t : State) × (remove_head l s ≡ ok r t)
      × Popped s a v xs (returned (s.nodes.flags a) a pool) r t
