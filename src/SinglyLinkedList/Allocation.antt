-- ===== src/SinglyLinkedList/Allocation.antt =====
-- Where the nodes come from: the pool first, then the kernel heap.
use dionys_os.Prelude.{ℕ, ◌-◌, ◌≡◌, ◌≢◌, true, [], ◌∷◌, arith, update, ok}
use dionys_os.SinglyLinkedList.{Nodes, State, null, node_alloc, clear_free}
use dionys_os.SinglyLinkedList.Layout.{Cells, Seg-frame, Out, AgreesOff, IsPool}

-- A node is handed out: it is live, nobody else's memory changes, and the pool is `pool`.
pub record Allocated (s : State) (p : ℕ) (pool : Cells) (t : State) : Type 0 where
  pub not_null : p ≢ null
  pub live : t.nodes.live p ≡ true
  pub others : AgreesOff p s.nodes t.nodes
  pub rest : IsPool t.nodes t.free_nodes pool
  pub apart : Out p pool

module _ (fresh : ℕ) (s : State) where
  -- With a well-formed pool that is not empty, the allocator takes the first free node, leaves a
  -- well-formed pool of the others, and changes no other node.
  pub node_alloc-pooled :
      {p v : ℕ} {pool : Cells}
      → IsPool s.nodes s.free_nodes ((p, v) ∷ pool)
      → (t : State) × (node_alloc fresh s ≡ ok p t) × Allocated s p pool t
  unfolding node_alloc
  node_alloc-pooled {p} {v} {pool} is = (t, ground arith, a)
    where
      open s.free_nodes use {head, node_count}

      m : Nodes
      m = record s.nodes {
        flags = update s.nodes.flags p (clear_free (s.nodes.flags p));
        value = update s.nodes.value p null;
      }

      t : State
      t = record s {
        nodes = m;
        free_nodes = record s.free_nodes { head = s.nodes.next p; node_count = node_count - 1 };
      }

      a : Allocated s p pool t
      a = record {
        not_null = ground arith;
        live = ground arith;
        others = λ b ne. ground arith;
        rest = record {
          chain =
              Seg-frame s.nodes m p (s.nodes.next p) pool (λ b ne. ground arith) is.distinct.0
                is.chain.4;
          distinct = is.distinct.1;
          count = ground arith;
          self = is.self.1;
        };
        apart = is.distinct.0;
      }

  -- With an empty pool, when the heap hands out an address that is not null, the allocator takes
  -- that node, the pool stays empty, and no other node changes.
  pub node_alloc-fresh :
      IsPool s.nodes s.free_nodes []
      → fresh ≢ null
      → (t : State) × (node_alloc fresh s ≡ ok fresh t) × Allocated s fresh [] t
  unfolding node_alloc
  node_alloc-fresh is ne = (t, ground arith, a)
    where
      m : Nodes
      m = record s.nodes {
        live = update s.nodes.live fresh true;
        flags = update s.nodes.flags fresh (clear_free (s.nodes.flags fresh));
        value = update s.nodes.value fresh null;
      }

      t : State
      t = record s { nodes = m }

      a : Allocated s fresh [] t
      a = record {
        not_null = ne;
        live = ground arith;
        others = λ b ne. ground arith;
        rest = record { chain = is.chain; distinct = tt; count = is.count; self = tt };
        apart = tt;
      }
