-- ===== src/HashTable.antt =====
-- kernel/src/data_structures/hash_table.c: tables of singly linked lists. A table is an array of list
-- headers; the nodes of the lists and their pool are the state of the list component.
pub mod Hashing
pub mod Lookup
use dionys_os.Prelude.{
  ℕ, zero, suc, ◌+◌, ◌*◌, ◌-◌, ◌/◌, ◌%◌, ◌^◌, bit_xor, Bool, true, false, ltb, ◌==◌, if◌then◌else◌,
  Option, none, some, update, Run, ok, panic, fault, hang, Cmd, ◌>>=◌, ◌>>◌, pure,
}
use dionys_os.SinglyLinkedList.{
  SinglyLinkedList, State, null, get_value, get_next, insert_head, init, destroy,
}

-- `uint64_t` operations.
abbrev u64 : ℕ → ℕ
u64 n = n % 2 ^ 64

-- `key ^= key >> shift`
abbrev pub fold_bits : (shift key : ℕ) → ℕ
fold_bits shift key = bit_xor key (key / 2 ^ shift)

-- The mixing of `hash`: every multiplication wraps around.
unfoldable pub mix : ℕ → ℕ
mix key =
    let k₁ = u64 (fold_bits 4 key * 13787848793156543929) in
    let k₂ = u64 (fold_bits 31 k₁ * 10723151780598845931) in
    let k₃ = u64 (fold_bits 30 k₂ * 11400714819323198485) in fold_bits 26 k₃

-- A division by a modulus of 0 has no result.
unfoldable pub hash : (key modulus : ℕ) → Option ℕ
hash key modulus =
    let k = mix key in
    if ltb modulus k then (if modulus == 0 then none else some (k % modulus)) else some k

abbrev pub computed : Option ℕ → Cmd State ℕ
computed none = λ _. fault
computed (some h) = pure h

-- `struct static_hash_table` and `struct hash_table`: the headers of the lists, by index.
pub record Table : Type 0 where
  pub table : ℕ → SinglyLinkedList
  pub size : ℕ

-- HASH_TABLE_STATIC_POOL_SIZE, the length of a static table's array.
abbrev pub static_pool_size : ℕ
static_pool_size = 1500

-- `&table->table[index]` in an array of `bound` elements, to be read or written.
abbrev pub bucket : (bound index : ℕ) → Table → Cmd State SinglyLinkedList
bucket bound index t s = if ltb index bound then ok (t.table index) s else fault

abbrev pub with_bucket : ℕ → SinglyLinkedList → Table → Table
with_bucket index l t = record t { table = update t.table index l }

-- The loop that initialises `n` lists from index `i` on.
unfoldable pub init_lists : (pool pool_size bound n i : ℕ) → Table → Cmd State Table
init_lists pool pool_size bound zero i t = pure t
init_lists pool pool_size bound (suc n) i t = do
  _ ← bucket bound i t
  l ← init pool pool_size 0
  init_lists pool pool_size bound n (i + 1) (with_bucket i l t)

-- While `full` is 0 the headers are first copied from `hash_bucket_static_pool`, and initialised all
-- the same. The new value of `full` is returned.
unfoldable pub static_hash_table_init :
    (pool pool_size : ℕ) (full : Bool) (table size : ℕ) → Table → Cmd State (Bool × Table)
static_hash_table_init pool pool_size full table size t = if table == null then (λ _. panic) else do
  t' ← init_lists pool pool_size static_pool_size size 0 (record t { size = size })
  pure (true, t')

unfoldable pub static_hash_table_insert : (fresh : ℕ) → Table → (key value : ℕ) → Cmd State Table
static_hash_table_insert fresh t key value = do
  h ← computed (hash key t.size)
  l ← bucket static_pool_size h t
  l' ← insert_head fresh l value
  pure (with_bucket h l' t)

-- The walk of `static_hash_table_check`.
unfoldable pub check_walk : (fuel node value : ℕ) → Cmd State Bool
check_walk zero node value = λ _. hang
check_walk (suc k) node value = if node == null then pure false else do
  here ← get_value node
  if here == value then pure true else (do next ← get_next node; check_walk k next value)

unfoldable pub static_hash_table_check : (fuel : ℕ) → Table → (hash_key value : ℕ) → Cmd State Bool
static_hash_table_check fuel t hash_key value = do
  l ← bucket static_pool_size hash_key t
  check_walk fuel l.head value

-- The bucket is returned by its index.
unfoldable pub hash_table_retrieve : Table → (hash_key : ℕ) → Cmd State ℕ
hash_table_retrieve t hash_key = if ltb hash_key t.size then pure hash_key else (λ _. panic)

-- `fresh` is what `kmalloc` returns for the array.
unfoldable pub hash_table_init : (pool pool_size fresh table size : ℕ) → Table → Cmd State Table
hash_table_init pool pool_size fresh table size t =
    if table == null
    then (λ _. panic)
    else if fresh == null
    then (λ _. panic)
    else init_lists pool pool_size size size 0 (record t { size = size })

unfoldable pub destroy_lists : (n i : ℕ) → Table → Cmd State (Unit {0})
destroy_lists zero i t = pure tt
destroy_lists (suc n) i t = do destroy (t.table i); destroy_lists n (i + 1) t

-- The memory of the table itself is not part of the state.
unfoldable pub hash_table_destroy : (table : ℕ) → Table → Cmd State (Unit {0})
hash_table_destroy table t = if table == null then pure tt else destroy_lists t.size 0 t

unfoldable pub hash_table_insert : (fresh : ℕ) → Table → (key value : ℕ) → Cmd State Table
hash_table_insert fresh t key value = do
  h ← computed (hash key t.size)
  l ← bucket t.size h t
  l' ← insert_head fresh l value
  pure (with_bucket h l' t)
