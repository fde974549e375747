-- ===== src/SinglyLinkedList/Appending.antt =====
-- Insertion at the tail.
use dionys_os.Prelude.{
  ℕ, ◌+◌, ◌≡◌, ◌≢◌, true, false, [], ◌∷◌, ◌++◌, arith, update, refl, sym, ◌∙◌, ok, fault,
  length-append,
}
use dionys_os.SinglyLinkedList.{
  Nodes, SinglyLinkedList, State, null, holds_free_nodes, insert_tail, node_alloc,
}
use dionys_os.SinglyLinkedList.Layout.{
  Cells, Seg, Out, IsList, IsList-frame, Distinct, TailOk, last_address,
}
use dionys_os.SinglyLinkedList.Allocation.{Allocated}

Out-last : (a b : ℕ) (xs : Cells) → a ≢ b → Out a xs → a ≢ last_address b xs
Out-last a b [] ne out = ne
Out-last a b ((c, _) ∷ xs) ne out = Out-last a c xs out.0 out.1

Out-last-ne : (q a : ℕ) (xs : Cells) → q ≢ a → Out q xs → last_address a xs ≢ q
Out-last-ne q a [] ne out = λ e. ne (sym e)
Out-last-ne q a ((c, _) ∷ xs) ne out = Out-last-ne q c xs out.0 out.1

-- The last node of a chain is live.
pub live-last :
    (n : Nodes) (p a w : ℕ) (xs : Cells) → Seg n p ((a, w) ∷ xs) → n.live (last_address a xs) ≡ true
live-last n p a w [] s = s.2
live-last n p a w ((b, u) ∷ xs) s = live-last n (n.next a) b u xs s.4

-- `m` is `n` with the new node `q` behind the node at `t`.
pub record Linked (n m : Nodes) (t q v : ℕ) : Type 0 where
  pub live_q : m.live q ≡ true
  pub value_q : m.value q ≡ v
  pub next_q : m.next q ≡ null
  pub next_t : m.next t ≡ q
  pub live_same : (b : ℕ) → m.live b ≡ n.live b
  pub value_same : (b : ℕ) → b ≢ q → m.value b ≡ n.value b
  pub next_same : (b : ℕ) → b ≢ q → b ≢ t → m.next b ≡ n.next b

-- Linking a node behind the last one of a chain appends its cell.
pub Seg-append :
    (n m : Nodes) (q v p a w : ℕ) (xs : Cells)
    → Linked n m (last_address a xs) q v
    → q ≢ null
    → Out q ((a, w) ∷ xs)
    → Distinct ((a, w) ∷ xs)
    → Seg n p ((a, w) ∷ xs)
    → Seg m p (((a, w) ∷ xs) ++ ((q, v) ∷ []))
Seg-append n m q v p a w [] k ne out d s = (
  s.0,
  s.1,
  k.live_same a ∙ s.2,
  k.value_same a (λ e. out.0 (sym e)) ∙ s.3,
  (k.next_t, ne, k.live_q, k.value_q, k.next_q),
)
Seg-append n m q v p a w ((b, u) ∷ xs) k ne out d s = (
  s.0,
  s.1,
  k.live_same a ∙ s.2,
  k.value_same a (λ e. out.0 (sym e)) ∙ s.3,
  rw (k.next_same a (λ e. out.0 (sym e)) (Out-last a b xs d.0.0 d.0.1))
      (Seg-append n m q v (n.next a) b u xs k ne out.1 d.1 s.4),
)

Out-append : (a q v : ℕ) (xs : Cells) → Out a xs → a ≢ q → Out a (xs ++ ((q, v) ∷ []))
Out-append a q v [] out ne = (ne, tt)
Out-append a q v ((b, w) ∷ xs) out ne = (out.0, Out-append a q v xs out.1 ne)

pub Distinct-append :
    (q v : ℕ) (xs : Cells) → Out q xs → Distinct xs → Distinct (xs ++ ((q, v) ∷ []))
Distinct-append q v [] out d = (tt, tt)
Distinct-append q v ((b, w) ∷ xs) out d =
    (Out-append b q v xs d.0 (λ e. out.0 (sym e)), Distinct-append q v xs out.1 d.1)

last-append : (a q v : ℕ) (xs : Cells) → last_address a (xs ++ ((q, v) ∷ [])) ≡ q
last-append a q v [] = refl
last-append a q v ((b, _) ∷ xs) = last-append b q v xs

TailOk-append : (a w q v : ℕ) (xs : Cells) → TailOk q (((a, w) ∷ xs) ++ ((q, v) ∷ []))
TailOk-append a w q v [] = refl
TailOk-append a w q v ((b, u) ∷ xs) = sym (last-append b q v xs)

module _ (fresh p : ℕ) (s t : State) (pool : Cells) (alloc : node_alloc fresh s ≡ ok p t)
    (given : Allocated s p pool t) (l : SinglyLinkedList) (value : ℕ)
    (plain : holds_free_nodes l ≡ false) where
  abbrev at_tail : ℕ → Nodes
  at_tail e = record t.nodes {
    value = update t.nodes.value p value;
    next = update (update t.nodes.next p null) e p;
  }

  abbrev longer : SinglyLinkedList
  longer = record l { tail = p; node_count = l.node_count + 1 }

  -- The run of the code on a list with a last node.
  run-insert_tail :
      (a w : ℕ) (xs : Cells)
      → IsList t.nodes l ((a, w) ∷ xs)
      → t.nodes.live (last_address a xs) ≡ true
      → insert_tail fresh l value s ≡ ok longer (record t { nodes = at_tail (last_address a xs) })
  unfolding insert_tail
  run-insert_tail a w [] is live = rw (plain, alloc) (ground (arith, given.not_null, given.live))
  run-insert_tail a w ((b, u) ∷ xs) is live =
      rw (plain, alloc) (ground (arith, given.not_null, given.live))

  linked : (a : ℕ) → a ≢ p → Linked t.nodes (at_tail a) a p value
  linked a ne = record {
    live_q = given.live;
    value_q = ground arith;
    next_q = ground arith;
    next_t = ground arith;
    live_same = λ b. refl;
    value_same = λ b d. ground arith;
    next_same = λ b d e. ground arith;
  }

  -- When the allocator hands out a node that is not in the list, insertion at the tail of a
  -- well-formed list that is not empty and does not hold free nodes succeeds and leaves a
  -- well-formed list with the value behind the old ones.
  pub insert_tail-append :
      (a w : ℕ) (xs : Cells)
      → Out p ((a, w) ∷ xs)
      → IsList s.nodes l ((a, w) ∷ xs)
      → (l' : SinglyLinkedList) × (u : State) × (insert_tail fresh l value s ≡ ok l' u)
        × IsList u.nodes l' (((a, w) ∷ xs) ++ ((p, value) ∷ []))
  insert_tail-append a w xs out is =
      let here = IsList-frame p given.others out is in
      (
        longer,
        record t { nodes = at_tail (last_address a xs) },
        run-insert_tail a w xs here (live-last t.nodes l.head a w xs here.chain),
        record {
          chain =
              Seg-append t.nodes (at_tail (last_address a xs)) p value l.head a w xs
                (linked (last_address a xs) (Out-last-ne p a xs out.0 out.1)) given.not_null out
                here.distinct here.chain;
          distinct = Distinct-append p value ((a, w) ∷ xs) out here.distinct;
          count = omega (arith, length-append ((a, w) ∷ xs) ((p, value) ∷ []), here.count);
          tail_ok = TailOk-append a w p value xs;
        },
      )

  -- When the allocator hands out a node, null is no live node, and the list is empty, well-formed
  -- and does not hold free nodes, insertion at the tail is a fault.
  insert_tail-nil :
      IsList s.nodes l [] → t.nodes.live null ≡ false → insert_tail fresh l value s ≡ fault
  unfolding insert_tail
  insert_tail-nil is dead = rw (plain, alloc) (ground (arith, given.not_null, given.live))
