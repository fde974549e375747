-- ===== src/Vfs.antt =====
-- kernel/src/filesystem/vfs.c and its header kernel/src/include/filesystem/vfs.h: the vnodes in
-- memory, the handles of the running process, and the locks of both. Diagnostic output is left out,
-- and so are fields that the file does not read. The children are modules of their own.
pub mod Vnodes
pub mod Paths
pub mod Handles
pub mod Calls
pub mod Interface
pub mod Mounting
pub mod Naming
pub mod HandleIds
pub mod Offsets
pub mod Children
pub mod Removing
pub mod Closing
pub mod Rooted
use dionys_os.Prelude.{
  ℕ, ◌+◌, Bool, true, false, ◌==◌, if◌then◌else◌, ltb, not, bit_and, Option, none, some, update,
  Run, ok, panic, fault, hang, Cmd,
}
use dionys_os.CString.{Memory}
use dionys_os.Spinlock.{Spinlock, acquire_spinlock, release_spinlock}
use dionys_os.DoublyLinkedList.{Nodes, DoublyLinkedList}
use dionys_os.SinglyLinkedList.{SinglyLinkedList, State}

abbrev pub null : ℕ
null = 0

abbrev pub vfs_max_name_length : ℕ
vfs_max_name_length = 128

-- `VNODE_MAX_DIRECTORY_ENTRIES`
abbrev pub vnode_max_directory_entries : ℕ
vnode_max_directory_entries = 64

-- `enum vnode_types`
abbrev pub vnode_directory : ℕ
vnode_directory = 0

abbrev pub vnode_file : ℕ
vnode_file = 1

abbrev pub vnode_hard_link : ℕ
vnode_hard_link = 2

abbrev pub vnode_sym_link : ℕ
vnode_sym_link = 8

-- An `int64_t` that a function of this file returns: a number, or a negative one.
pub data Returned : Type 0 where
  value : ℕ → Returned
  minus : ℕ → Returned

abbrev pub kern_success : Returned
kern_success = value 0

abbrev pub kern_busy : Returned
kern_busy = minus 1

abbrev pub kern_not_found : Returned
kern_not_found = minus 5

abbrev pub kern_wrong_type : Returned
kern_wrong_type = minus 10

abbrev pub kern_max_reached : Returned
kern_max_reached = minus 11

abbrev pub kern_overflow : Returned
kern_overflow = minus 43

abbrev pub kern_unexpected : Returned
kern_unexpected = minus 49

-- `struct vnode`. The array of children has `VNODE_MAX_DIRECTORY_ENTRIES` places once it is
-- allocated. A lock pointer may be null.
pub record Vnode : Type 0 where
  pub vnode_parent : ℕ
  pub vnode_children : ℕ → ℕ
  pub num_children : ℕ
  pub vnode_ops : ℕ
  pub mounted_vnode : ℕ
  pub filesystem_info : ℕ
  pub node_lock : Option Spinlock
  pub vnode_size : ℕ
  pub vnode_flags : ℕ
  pub vnode_type : ℕ
  pub vnode_refcount : ℕ
  pub vnode_active_references : ℕ
  pub is_mount_point : Bool
  pub is_mounted : Bool
  pub is_cached : Bool

-- A vnode of zeroed memory.
abbrev pub zeroed : Vnode
zeroed = record {
  vnode_parent = null;
  vnode_children = λ i. null;
  num_children = 0;
  vnode_ops = null;
  mounted_vnode = null;
  filesystem_info = null;
  node_lock = none;
  vnode_size = 0;
  vnode_flags = 0;
  vnode_type = 0;
  vnode_refcount = 0;
  vnode_active_references = 0;
  is_mount_point = false;
  is_mounted = false;
  is_cached = false;
}

-- The name is an array inside the vnode, behind five words.
abbrev pub vnode_name : ℕ → ℕ
vnode_name vnode = vnode + 40

-- `VNODE_CHILD_MEMORY_ALLOCATED` and `VNODE_STATIC_POOL`
abbrev pub has_child_memory : Vnode → Bool
has_child_memory v = not (bit_and v.vnode_flags 1 == 0)

abbrev pub from_static_pool : Vnode → Bool
from_static_pool v = not (bit_and v.vnode_flags 2 == 0)

-- `struct virtual_handle`
pub record VirtualHandle : Type 0 where
  pub handle_id : ℕ
  pub process : ℕ
  pub vnode : ℕ
  pub offset : ℕ

-- The state. `vnode_at` and `handle_at` have the memory of the vnodes and handles that exist;
-- `handle_list`, its lock, `num_handles` and `handle_id_bitmap` are those of the running process.
pub record Vfs : Type 0 where
  pub vnode_at : ℕ → Option Vnode
  pub memory : Memory
  pub vfs_lock : Spinlock
  pub vnode_static_pool : SinglyLinkedList
  pub pool_state : State
  pub filesystem_reference_count : ℕ → ℕ
  pub current_working_dir : ℕ
  pub handle_nodes : Nodes
  pub handle_list : DoublyLinkedList
  pub handle_lock : Spinlock
  pub num_handles : ℕ
  pub handle_id_bitmap : ℕ
  pub handle_at : ℕ → Option VirtualHandle

-- `struct vnode_operations`: what a file system implements.
pub record VnodeOperations : Type 0 where
  pub lookup : (vnode name : ℕ) → Cmd Vfs ℕ
  pub create : (parent name vnode_type : ℕ) → Cmd Vfs ℕ
  pub remove : (vnode : ℕ) → Cmd Vfs (Unit {0})
  pub rename : (vnode new_name : ℕ) → Cmd Vfs (Unit {0})
  pub write : (vnode offset buffer bytes : ℕ) → Cmd Vfs Returned
  pub read : (vnode offset buffer bytes : ℕ) → Cmd Vfs Returned
  pub unlink : (vnode : ℕ) → Cmd Vfs (Unit {0})
  pub close : (vnode handle : ℕ) → Cmd Vfs (Unit {0})

-- The CPU and process that run, the address of the root, and the tables of operations.
pub record Env : Type 0 where
  pub bsp : Bool
  pub my_cpu : ℕ
  pub current_process : ℕ
  pub vfs_root : ℕ
  pub operations : ℕ → VnodeOperations

abbrev pub state : Cmd Vfs Vfs
state s = ok s s

abbrev pub modify : (Vfs → Vfs) → Cmd Vfs (Unit {0})
modify f s = ok tt (f s)

-- An access to a vnode.
abbrev found {ℓ κ} : {A : Type ℓ} {B : Type κ} → Option A → Vfs → (A → Run Vfs B) → Run Vfs B
found none s k = fault
found (some v) s k = k v

abbrev pub get_vnode : ℕ → Cmd Vfs Vnode
get_vnode p s = found (s.vnode_at p) s (λ v. ok v s)

abbrev pub set_vnode : ℕ → (Vnode → Vnode) → Cmd Vfs (Unit {0})
set_vnode p f s =
    found (s.vnode_at p) s (λ v. ok tt (record s { vnode_at = update s.vnode_at p (some (f v)) }))

abbrev pub put_vnode : ℕ → Option Vnode → Cmd Vfs (Unit {0})
put_vnode p v s = ok tt (record s { vnode_at = update s.vnode_at p v })

-- A place in the array of children.
abbrev pub get_child : ℕ → ℕ → Cmd Vfs ℕ
get_child p i s = found (s.vnode_at p) s (λ v.
    if has_child_memory v
    then (if ltb i vnode_max_directory_entries then ok (v.vnode_children i) s else fault)
    else fault)

abbrev pub set_child : ℕ → ℕ → ℕ → Cmd Vfs (Unit {0})
set_child p i c s = found (s.vnode_at p) s (λ v.
    if has_child_memory v
    then (if ltb i vnode_max_directory_entries
        then ok tt (record s {
          vnode_at =
              update s.vnode_at p
                (some (record v { vnode_children = update v.vnode_children i c }));
        })
        else fault)
    else fault)

abbrev pub get_handle : ℕ → Cmd Vfs VirtualHandle
get_handle p s = found (s.handle_at p) s (λ h. ok h s)

abbrev pub put_handle : ℕ → Option VirtualHandle → Cmd Vfs (Unit {0})
put_handle p h s = ok tt (record s { handle_at = update s.handle_at p h })

-- A run on a part of the state; `put` puts the part back.
abbrev part {κ} : {S : Type 0} {A : Type κ} → (S → Vfs) → Run S A → Run Vfs A
part put (ok a t) = ok a (put t)
part put panic = panic
part put fault = fault
part put hang = hang

abbrev pub on_memory {κ} : {A : Type κ} → Cmd Memory A → Cmd Vfs A
on_memory run s = part (λ m. record s { memory = m }) (run s.memory)

abbrev pub on_handle_nodes {κ} : {A : Type κ} → Cmd Nodes A → Cmd Vfs A
on_handle_nodes run s = part (λ n. record s { handle_nodes = n }) (run s.handle_nodes)

abbrev pub on_pool {κ} : {A : Type κ} → Cmd State A → Cmd Vfs A
on_pool run s = part (λ n. record s { pool_state = n }) (run s.pool_state)

-- The locks. `acquire_spinlock` and `release_spinlock` stay shut here.
abbrev pub on_vfs_lock : Cmd Spinlock (Unit {0}) → Cmd Vfs (Unit {0})
on_vfs_lock run s = part (λ l. record s { vfs_lock = l }) (run s.vfs_lock)

abbrev pub on_handle_lock : Cmd Spinlock (Unit {0}) → Cmd Vfs (Unit {0})
on_handle_lock run s = part (λ l. record s { handle_lock = l }) (run s.handle_lock)

-- The lock that a pointer leads to.
abbrev through : Vfs → ℕ → Vnode → Option Spinlock → Cmd Spinlock (Unit {0}) → Run Vfs (Unit {0})
through s p v none run = fault
through s p v (some l) run =
    part (λ m. record s { vnode_at = update s.vnode_at p (some (record v { node_lock = some m })) })
      (run l)

abbrev pub on_node_lock : ℕ → Cmd Spinlock (Unit {0}) → Cmd Vfs (Unit {0})
on_node_lock p run s = found (s.vnode_at p) s (λ v. through s p v v.node_lock run)

module _ (env : Env) where
  abbrev pub acquire : Cmd Spinlock (Unit {0})
  acquire = acquire_spinlock env.bsp env.my_cpu env.current_process

  abbrev pub acquire_vfs_lock : Cmd Vfs (Unit {0})
  acquire_vfs_lock = on_vfs_lock acquire

abbrev pub release_vfs_lock : Cmd Vfs (Unit {0})
release_vfs_lock = on_vfs_lock release_spinlock
