-- ===== src/Tmpfs.antt =====
-- kernel/src/filesystem/tmpfs.c and kernel/src/include/filesystem/tmpfs.h: files in memory. The lock of
-- a file system makes each operation one step. The tree of nodes is a map from numbers to nodes.
pub mod Files
pub mod Nodes
pub mod Ring
pub mod Growing
pub mod Writing
pub mod Sharing
pub mod Numbers
use dionys_os.Prelude.{
  ℕ, ◌+◌, Bool, true, false, ltb, ◌==◌, if◌then◌else◌, Option, none, some, update, Run, ok, panic,
  fault, hang, Cmd,
}
use dionys_os.DoublyLinkedList
use dionys_os.DoublyLinkedList.{DoublyLinkedList}

abbrev pub null : ℕ
null = 0

abbrev pub page_size : ℕ
page_size = 4096

-- `PAGES_PER_TMPFS_ENTRY`
abbrev pub pages_per_tmpfs_entry : ℕ
pages_per_tmpfs_entry = 1024

-- `MAX_TMPFS_ENTRIES`
abbrev pub max_tmpfs_entries : ℕ
max_tmpfs_entries = 64

-- `struct tmpfs_page_list_entry`, with the array of pages in it.
pub record PageListEntry : Type 0 where
  pub page_list : ℕ → ℕ
  pub number_of_pages : ℕ

-- `struct tmpfs_node`. Of the union, a file has the page list and a directory the entries.
pub record TmpfsNode : Type 0 where
  pub parent_tmpfs_node : ℕ
  pub tmpfs_node_number : ℕ
  pub tmpfs_node_size : ℕ
  pub node_type : ℕ
  pub page_list : DoublyLinkedList
  pub entries : ℕ → ℕ

-- The name is an array inside the node, behind two words.
abbrev pub node_name : ℕ → ℕ
node_name node = node + 16

-- Pages, buffers and names are bytes of one memory. `vnode_size` and `vnode_inode_number` are fields
-- of the vnodes.
pub record Tmpfs : Type 0 where
  pub byte : ℕ → ℕ
  pub list_nodes : DoublyLinkedList.Nodes
  pub entry_at : ℕ → Option PageListEntry
  pub node_at : ℕ → Option TmpfsNode
  pub node_tree : ℕ → ℕ
  pub tmpfs_node_count : ℕ
  pub tmpfs_node_number_bitmap : ℕ → ℕ
  pub vnode_size : ℕ → ℕ
  pub vnode_inode_number : ℕ → ℕ

abbrev pub state : Cmd Tmpfs Tmpfs
state s = ok s s

abbrev pub modify : (Tmpfs → Tmpfs) → Cmd Tmpfs (Unit {0})
modify f s = ok tt (f s)

abbrev found {ℓ κ} : {A : Type ℓ} {B : Type κ} → Option A → (A → Run Tmpfs B) → Run Tmpfs B
found none k = fault
found (some v) k = k v

abbrev pub get_node : ℕ → Cmd Tmpfs TmpfsNode
get_node p s = found (s.node_at p) (λ n. ok n s)

abbrev pub set_node : ℕ → (TmpfsNode → TmpfsNode) → Cmd Tmpfs (Unit {0})
set_node p f s =
    found (s.node_at p) (λ n. ok tt (record s { node_at = update s.node_at p (some (f n)) }))

abbrev pub get_entry : ℕ → Cmd Tmpfs PageListEntry
get_entry p s = found (s.entry_at p) (λ e. ok e s)

abbrev pub set_entry : ℕ → (PageListEntry → PageListEntry) → Cmd Tmpfs (Unit {0})
set_entry p f s =
    found (s.entry_at p) (λ e. ok tt (record s { entry_at = update s.entry_at p (some (f e)) }))

-- `entry->page_list[index]`
abbrev pub get_page : (entry index : ℕ) → Cmd Tmpfs ℕ
get_page p index s =
    found (s.entry_at p)
      (λ e. if ltb index pages_per_tmpfs_entry then ok (e.page_list index) s else fault)

-- `page[offset]`
abbrev pub load_byte : (page offset : ℕ) → Cmd Tmpfs ℕ
load_byte page offset s = if page == null then fault else ok (s.byte (page + offset)) s

abbrev pub store_byte : (page offset value : ℕ) → Cmd Tmpfs (Unit {0})
store_byte page offset value s =
    if page == null then fault else ok tt (record s { byte = update s.byte (page + offset) value })

abbrev part {κ} :
    {A : Type κ} → (DoublyLinkedList.Nodes → Tmpfs) → Run DoublyLinkedList.Nodes A → Run Tmpfs A
part put (ok a n) = ok a (put n)
part put panic = panic
part put fault = fault
part put hang = hang

abbrev pub on_list_nodes {κ} : {A : Type κ} → Cmd DoublyLinkedList.Nodes A → Cmd Tmpfs A
on_list_nodes run s = part (λ n. record s { list_nodes = n }) (run s.list_nodes)
