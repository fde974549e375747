-- ===== src/Tmpfs/Files.antt =====
-- kernel/src/filesystem/tmpfs.c: the bytes of a file.
use dionys_os.Prelude.{
  ℕ, zero, suc, ◌+◌, ◌*◌, ◌/◌, ◌%◌, ◌^◌, Bool, true, false, ltb, ◌==◌, if◌then◌else◌, some, update,
  ok, panic, Cmd, ◌>>=◌, ◌>>◌, pure,
}
use dionys_os.DoublyLinkedList.{get_next, get_value, insert_tail}
use dionys_os.Tmpfs.{
  null, page_size, pages_per_tmpfs_entry, Tmpfs, modify, get_node, set_node, set_entry, get_page,
  load_byte, store_byte, on_list_nodes,
}

-- What the heap returns for a page list entry, its first page and the list node.
pub record Fresh : Type 0 where
  pub entry : ℕ
  pub page : ℕ
  pub node : ℕ

-- The walk to an entry: null past the end of the list.
unfoldable pub entry_walk : (page_list_entry_number d_node : ℕ) → Cmd Tmpfs ℕ
entry_walk zero d_node = pure d_node
entry_walk (suc n) d_node =
    if d_node == null
    then pure null
    else (do next ← on_list_nodes (get_next d_node); entry_walk n next)

-- The new entry comes zeroed from a slab; the new page keeps the bytes that its memory holds.
unfoldable pub tmpfs_find_page_list_entry : Fresh → (node page_list_entry_number : ℕ) → Cmd Tmpfs ℕ
unfolding entry_walk insert_tail
tmpfs_find_page_list_entry fresh node page_list_entry_number = do
  n ← get_node node
  d_node ← entry_walk page_list_entry_number n.page_list.head
  if d_node == null
      then (do
        modify (λ s. record s {
          entry_at =
              update s.entry_at fresh.entry (
                some (record { page_list = update (λ i. null) 0 fresh.page; number_of_pages = 1 }));
        })
        list ← on_list_nodes (insert_tail fresh.node n.page_list fresh.entry)
        set_node node (λ m. record m { page_list = list })
        pure fresh.entry)
      else on_list_nodes (get_value d_node)

-- The offset after a byte.
abbrev pub next_offset : ℕ → ℕ
next_offset offset = if offset + 1 == page_size then 0 else offset + 1

-- The page and the entry after a byte of a read; `fresh` is that for an entry.
unfoldable pub read_turn : (fresh : ℕ → Fresh) (node page offset target : ℕ) → Cmd Tmpfs (ℕ × ℕ)
unfolding tmpfs_find_page_list_entry
read_turn fresh node page offset target =
    if offset == 0
    then (if (page + 1) / pages_per_tmpfs_entry == 1
        then (do
          entry ← tmpfs_find_page_list_entry (fresh 1) node ((page + 1) / pages_per_tmpfs_entry)
          pure (page + 1, entry))
        else pure (page + 1, target))
    else pure (page, target)

-- The loop of `tmpfs_read`. The page in an entry is looked up by the number of the entry.
unfoldable pub read_loop :
    (bytes : ℕ) (fresh : ℕ → Fresh) (node page offset copy_index target buffer : ℕ)
    → Cmd Tmpfs (Unit {0})
unfolding read_turn
read_loop zero fresh node page offset copy_index target buffer = pure tt
read_loop (suc bytes) fresh node page offset copy_index target buffer = do
  data_page ← get_page target (page / pages_per_tmpfs_entry)
  c ← load_byte data_page offset
  store_byte buffer copy_index c
  next ← read_turn fresh node page (next_offset offset) target
  read_loop bytes fresh node next.0 (next_offset offset) (copy_index + 1) next.1 buffer

-- The first page of a transfer.
abbrev pub first_page : ℕ → ℕ
first_page offset = if ltb page_size offset then offset / page_size else 0

-- The node of a vnode.
unfoldable pub find_tmpfs_node_from_vnode : (vnode : ℕ) → Cmd Tmpfs ℕ
find_tmpfs_node_from_vnode vnode s =
    let node = s.node_tree (s.vnode_inode_number vnode) in if node == null then panic else ok node s

unfoldable pub tmpfs_read : (fresh : ℕ → Fresh) (vnode offset buffer bytes : ℕ) → Cmd Tmpfs ℕ
unfolding find_tmpfs_node_from_vnode tmpfs_find_page_list_entry
tmpfs_read fresh vnode offset buffer bytes = do
  node ← find_tmpfs_node_from_vnode vnode
  let page = first_page offset
  target ← tmpfs_find_page_list_entry (fresh 0) node (page / pages_per_tmpfs_entry)
  read_loop bytes fresh node page (offset % page_size) 0 target buffer
  pure bytes

-- The size of the file after a byte, and whether it is a new one.
unfoldable pub grow : (node end : ℕ) → Cmd Tmpfs Bool
grow node end = do
  n ← get_node node
  if ltb n.tmpfs_node_size end
      then (do set_node node (λ m. record m { tmpfs_node_size = end }); pure true)
      else pure false

-- The page and the entry after a byte of a write.
unfoldable pub write_turn :
    (fresh : ℕ → Fresh) (node page offset target : ℕ) (new_size : Bool) → Cmd Tmpfs (ℕ × ℕ)
unfolding tmpfs_find_page_list_entry
write_turn fresh node page offset target new_size =
    if offset == 0
    then (do
      if new_size
          then set_entry target
              (λ e. record e { number_of_pages = (e.number_of_pages + 1) % 2 ^ 64 })
          else pure tt
      if (page + 1) / pages_per_tmpfs_entry == 0
          then (do
            entry ← tmpfs_find_page_list_entry (fresh 1) node ((page + 1) / pages_per_tmpfs_entry)
            pure (page + 1, entry))
          else pure (page + 1, target))
    else pure (page, target)

-- The loop of `tmpfs_write`. A null byte in the buffer is a panic.
unfoldable pub write_loop :
    (bytes : ℕ) (fresh : ℕ → Fresh) (node page offset copy_index target buffer : ℕ)
    → Cmd Tmpfs (Unit {0})
unfolding grow write_turn
write_loop zero fresh node page offset copy_index target buffer = pure tt
write_loop (suc bytes) fresh node page offset copy_index target buffer = do
  data_page ← get_page target (page / pages_per_tmpfs_entry)
  c ← load_byte buffer copy_index
  if c == 0 then (λ s. panic) else do
    store_byte data_page offset c
    new_size ← grow node (page * page_size + next_offset offset)
    next ← write_turn fresh node page (next_offset offset) target new_size
    write_loop bytes fresh node next.0 (next_offset offset) (copy_index + 1) next.1 buffer

unfoldable pub tmpfs_write : (fresh : ℕ → Fresh) (vnode offset buffer bytes : ℕ) → Cmd Tmpfs ℕ
unfolding find_tmpfs_node_from_vnode tmpfs_find_page_list_entry
tmpfs_write fresh vnode offset buffer bytes = do
  node ← find_tmpfs_node_from_vnode vnode
  let page = first_page offset
  target ← tmpfs_find_page_list_entry (fresh 0) node (page / pages_per_tmpfs_entry)
  write_loop bytes fresh node page (offset % page_size) 0 target buffer
  modify (λ s. record s {
    vnode_size = update s.vnode_size vnode ((s.vnode_size vnode + bytes) % 2 ^ 64);
  })
  pure bytes
