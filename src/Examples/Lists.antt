-- ===== src/Examples/Lists.antt =====
-- Lists and hash tables in concrete memories.
use dionys_os.Prelude.{
  ℕ, ◌≡◌, ◌==◌, ◌||◌, if◌then◌else◌, true, some, arith, refl, ok, [], ◌∷◌, ◌++◌,
}
use dionys_os.SinglyLinkedList.{SinglyLinkedList, State, node_alloc, insert_tail, header}
use dionys_os.SinglyLinkedList.Layout.{Cells, IsList, IsPool}
use dionys_os.SinglyLinkedList.Allocation.{Allocated, node_alloc-pooled}
use dionys_os.SinglyLinkedList.Appending.{insert_tail-append}
use dionys_os.HashTable.{Table, hash, mix, static_hash_table_insert, static_hash_table_check}
use dionys_os.HashTable.Lookup.{has, static_hash_table_insert-check}
use dionys_os.DoublyLinkedList as Doubly

-- A list of two static nodes, at 64 and 96; the static node at 32 is free.
abbrev state : State
state = record {
  nodes = record {
    live = λ i. if i == 32 then true else if i == 64 then true else i == 96;
    value = λ i. if i == 32 then 32 else if i == 64 then 5 else 6;
    next = λ i. if i == 64 then 96 else 0;
    flags = λ i. if i == 32 then 12 else 4;
  };
  free_nodes = header 32 0 1 16;
  static_pool_setup = true;
}

abbrev list : SinglyLinkedList
list = header 64 96 2 0

abbrev cells : Cells
cells = (64, 5) ∷ (96, 6) ∷ []

list-IsList : IsList state.nodes list cells
list-IsList = record {
  chain = (refl, omega arith, refl, refl, (refl, omega arith, refl, refl, refl));
  distinct = ((omega arith, tt), (tt, tt));
  count = refl;
  tail_ok = refl;
}

pool-IsPool : IsPool state.nodes state.free_nodes ((32, 32) ∷ [])
pool-IsPool = record {
  chain = (refl, omega arith, refl, refl, refl);
  distinct = (tt, tt);
  count = refl;
  self = (refl, tt);
}

allocated : (t : State) × (node_alloc 128 state ≡ ok 32 t) × Allocated state 32 [] t
allocated = node_alloc-pooled 128 state {p = 32} {v = 32} {pool = []} pool-IsPool

insert_tail-append_example :
    (l' : SinglyLinkedList) × (u : State) × (insert_tail 128 list 9 state ≡ ok l' u)
    × IsList u.nodes l' (cells ++ ((32, 9) ∷ []))
insert_tail-append_example =
    insert_tail-append 128 32 state allocated.0 [] allocated.1 allocated.2 list 9 refl 64 5
      ((96, 6) ∷ []) (omega arith, (omega arith, tt)) list-IsList

abbrev empty : SinglyLinkedList
empty = header 0 0 0 0

-- Every bucket of the table is the list.
abbrev table : Table
table = record { table = λ _. list; size = 1500 }

hash-7 : hash 7 1500 ≡ some 856
unfolding hash mix
hash-7 = refl

static_hash_table_insert-check_example :
    (t' : Table) × (w : State) × (static_hash_table_insert 128 table 7 9 state ≡ ok t' w)
    × ((v : ℕ) → static_hash_table_check 5 t' 856 v w ≡ ok ((9 == v) || has v cells) w)
    × ((j : ℕ) → t'.table j ≡ (if j == 856 then t'.table 856 else list))
static_hash_table_insert-check_example =
    static_hash_table_insert-check 128 32 state allocated.0 [] allocated.1 allocated.2 table 7 856 9
      5 cells hash-7 (omega arith) refl (omega arith, (omega arith, tt)) list-IsList (omega arith)

-- A doubly linked list of two nodes, at 10 and 20.
abbrev nodes : Doubly.Nodes
nodes = record {
  live = λ i. if i == 10 then true else i == 20;
  value = λ i. 0;
  next = λ i. if i == 10 then 20 else 0;
  prev = λ i. if i == 20 then 10 else 0;
}

abbrev pair : Doubly.DoublyLinkedList
pair = record { head = 10; tail = 20; node_count = 2 }
