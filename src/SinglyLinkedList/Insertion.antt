-- ===== src/SinglyLinkedList/Insertion.antt =====
-- Insertion at the head and at the tail.
use dionys_os.Prelude.{ℕ, ◌+◌, ◌≡◌, ◌≢◌, inl, true, false, [], ◌∷◌, arith, update, refl, ok, eq→==}
use dionys_os.SinglyLinkedList.{
  Nodes, SinglyLinkedList, State, null, holds_free_nodes, insert_head_node, insert_head, node_alloc,
}
use dionys_os.SinglyLinkedList.Layout.{
  Cells, Seg-frame, Out, AgreesOff, IsPool, IsList, IsList-frame,
}
use dionys_os.SinglyLinkedList.Allocation.{Allocated}

-- The list after the node `p` with `v` went to its head; only `p` was written.
pub record InsertedHead (s : State) (p v : ℕ) (xs : Cells) (l : SinglyLinkedList) (t : State)
    : Type 0 where
  pub is_list : IsList t.nodes l ((p, v) ∷ xs)
  pub pool : t.free_nodes ≡ s.free_nodes
  pub others : AgreesOff p s.nodes t.nodes

module _ (s : State) (l : SinglyLinkedList) (p v : ℕ) (ne : p ≢ null)
    (live : s.nodes.live p ≡ true) where
  abbrev linked : Nodes
  linked = record s.nodes { value = update s.nodes.value p v; next = update s.nodes.next p l.head }

  abbrev Outcome : Cells → Type 0
  Outcome xs =
      (l' : SinglyLinkedList) × (t : State) × (insert_head_node l p v s ≡ ok l' t)
      × InsertedHead s p v xs l' t

  pub insert_head_node-InsertedHead : (xs : Cells) → Out p xs → IsList s.nodes l xs → Outcome xs
  unfolding insert_head_node
  insert_head_node-InsertedHead [] out is = (
    record l { head = p; tail = null; node_count = l.node_count + 1 },
    record s {
      nodes = record s.nodes {
        value = update s.nodes.value p v;
        next = update s.nodes.next p null;
      };
    },
    ground arith,
    record {
      is_list = record {
        chain = ground arith;
        distinct = (tt, tt);
        count = ground arith;
        tail_ok = inl refl;
      };
      pool = refl;
      others = λ b d. ground arith;
    },
  )
  insert_head_node-InsertedHead ((a, w) ∷ []) out is = (
    record l { head = p; tail = l.head; node_count = l.node_count + 1 },
    record s { nodes = record linked { next = update (update s.nodes.next p l.head) l.head null } },
    ground arith,
    record {
      is_list = record {
        chain = ground arith;
        distinct = ground arith;
        count = ground arith;
        tail_ok = ground arith;
      };
      pool = refl;
      others = λ b d. ground arith;
    },
  )
  insert_head_node-InsertedHead ((a, w) ∷ (b, u) ∷ xs) out is = (
    record l { head = p; node_count = l.node_count + 1 },
    record s { nodes = linked },
    ground arith,
    record {
      is_list = record {
        chain = (
          refl,
          ne,
          ground arith,
          ground arith,
          rw (eq→== p p refl) (
              Seg-frame s.nodes linked p l.head ((a, w) ∷ (b, u) ∷ xs) (λ b d. ground arith) out
                is.chain),
        );
        distinct = (out, is.distinct);
        count = ground arith;
        tail_ok = is.tail_ok;
      };
      pool = refl;
      others = λ b d. ground arith;
    },
  )

-- The list after an insertion into a full system state: the new node, the pool that is left, and
-- every other node as it was.
pub record Inserted (s : State) (p : ℕ) (xs pool : Cells) (l : SinglyLinkedList) (t : State)
    : Type 0 where
  pub is_list : IsList t.nodes l xs
  pub is_pool : IsPool t.nodes t.free_nodes pool
  pub others : AgreesOff p s.nodes t.nodes

pub IsPool-frame :
    {n m : Nodes} {l : SinglyLinkedList} {xs : Cells} (a : ℕ)
    → AgreesOff a n m
    → Out a xs
    → IsPool n l xs
    → IsPool m l xs
IsPool-frame {n} {m} {l} {xs} a same out is = record {
  chain = Seg-frame n m a l.head xs same out is.chain;
  distinct = is.distinct;
  count = is.count;
  self = is.self;
}

pub AgreesOff-trans : (a : ℕ) (n m k : Nodes) → AgreesOff a n m → AgreesOff a m k → AgreesOff a n k
AgreesOff-trans a n m k f g = λ b d. ground (arith, f b d, g b d)

module _ (fresh p : ℕ) (s t : State) (pool : Cells) (alloc : node_alloc fresh s ≡ ok p t)
    (given : Allocated s p pool t) (l : SinglyLinkedList) (value : ℕ)
    (plain : holds_free_nodes l ≡ false) where
  pub insert_head-cons :
      (xs : Cells)
      → Out p xs
      → IsList s.nodes l xs
      → (l' : SinglyLinkedList) × (u : State) × (insert_head fresh l value s ≡ ok l' u)
        × Inserted s p ((p, value) ∷ xs) pool l' u
  unfolding insert_head
  insert_head-cons xs out is = (
    r.0,
    r.1,
    rw (plain, alloc) r.2,
    record {
      is_list = r.3.is_list;
      is_pool = rw r.3.pool (IsPool-frame p r.3.others given.apart given.rest);
      others = AgreesOff-trans p s.nodes t.nodes r.1.nodes given.others r.3.others;
    },
  )
    where
      r : Outcome t l p value given.not_null given.live xs
      r =
          insert_head_node-InsertedHead t l p value given.not_null given.live xs out
            (IsList-frame p given.others out is)
