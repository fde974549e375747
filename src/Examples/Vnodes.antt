-- ===== src/Examples/Vnodes.antt =====
-- A small tree of vnodes with two open handles.
use dionys_os.Prelude.{
  ℕ, suc, ◌<◌, ◌≡◌, ◌≢◌, ◌==◌, if◌then◌else◌, true, false, some, none, ok, fault, hang, arith, refl,
  inl, [], ◌∷◌,
}
use dionys_os.SinglyLinkedList
use dionys_os.Vfs.{
  Vnode, VirtualHandle, Vfs, VnodeOperations, Env, zeroed, value, kern_success, kern_not_found,
}
use dionys_os.Vfs.Vnodes.{
  new_lock, vnode_mount, vnode_unmount, find_vnode_child, vnode_update_children_array,
}
use dionys_os.Vfs.Paths.{through_mount, vnode_get_canonical_path, vnode_lookup}
use dionys_os.Vfs.Calls.{vnode_close, vnode_remove}
use dionys_os.Vfs.Interface.{read, write}
use dionys_os.Vfs.Mounting.{Ready, vnode_unmount-vnode_mount}
use dionys_os.Vfs.Naming.{vnode_get_canonical_path-unmounted}
use dionys_os.Vfs.HandleIds.{Given, get_new_file_handle-Given}
use dionys_os.Vfs.Offsets.{Listed, read-write-handle_of}
use dionys_os.Vfs.Children.{FirstNamed, find_vnode_child-FirstNamed}
use dionys_os.Vfs.Removing.{Child, vnode_update_children_array-loses_last, vnode_remove-fault}
use dionys_os.Vfs.Closing.{vnode_close-newest}
use dionys_os.Vfs.Rooted.{vnode_lookup-root_held}

-- A file system that does nothing.
abbrev idle : VnodeOperations
idle = record {
  lookup = λ v n s. ok 0 s;
  create = λ p n t s. ok 0 s;
  remove = λ v s. ok tt s;
  rename = λ v n s. ok tt s;
  write = λ v o b n s. ok (value n) s;
  read = λ v o b n s. ok (value n) s;
  unlink = λ v s. ok tt s;
  close = λ v h s. ok tt s;
}

abbrev here : Env
here = record {
  bsp = false;
  my_cpu = 7;
  current_process = 9;
  vfs_root = 1000;
  operations = λ t. idle;
}

-- The root with the children 2000, 3000 and 4000, of the names "a", "b" and "c".
abbrev root : Vnode
root = record zeroed {
  vnode_children =
      λ i. if i == 0 then 2000 else if i == 1 then 3000 else if i == 2 then 4000 else 0;
  num_children = 3;
  vnode_flags = 1;
  is_cached = true;
}

abbrev file : Vnode
file = record zeroed { vnode_parent = 1000; vnode_type = 1; node_lock = some new_lock }

abbrev directory : Vnode
directory = record zeroed { vnode_parent = 1000 }

-- A vnode that was mounted once.
abbrev detached : Vnode
detached = record zeroed { is_mounted = true }

abbrev no_list : SinglyLinkedList.SinglyLinkedList
no_list = record { head = 0; tail = 0; node_count = 0; list_flags = 0 }

abbrev newest : VirtualHandle
newest = record { handle_id = 1; process = 9; vnode = 3000; offset = 5 }

abbrev oldest : VirtualHandle
oldest = record { handle_id = 0; process = 9; vnode = 4000; offset = 6 }

abbrev tree : Vfs
tree = record {
  vnode_at = λ p.
      if p == 1000
      then some root
      else if p == 2000
      then some directory
      else if p == 3000
      then some file
      else if p == 4000
      then some file
      else if p == 5000
      then some zeroed
      else if p == 6000
      then some detached
      else none;
  memory = λ a.
      if a == 100
      then 47
      else if a == 200
      then 98
      else if a == 2040
      then 97
      else if a == 3040
      then 98
      else if a == 4040
      then 99
      else 0;
  vfs_lock = new_lock;
  vnode_static_pool = no_list;
  pool_state = record {
    nodes = record { live = λ b. false; value = λ b. 0; next = λ b. 0; flags = λ b. 0 };
    free_nodes = no_list;
    static_pool_setup = true;
  };
  filesystem_reference_count = λ f. 0;
  current_working_dir = 1000;
  handle_nodes = record {
    live = λ b. if b == 10 then true else b == 20;
    value = λ b. if b == 10 then 700 else 800;
    next = λ b. if b == 10 then 20 else 0;
    prev = λ b. if b == 20 then 10 else 0;
  };
  handle_list = record { head = 10; tail = 0; node_count = 2 };
  handle_lock = new_lock;
  num_handles = 2;
  handle_id_bitmap = 3;
  handle_at = λ p. if p == 700 then some newest else if p == 800 then some oldest else none;
}

tree-Ready : Ready here tree
tree-Ready = record {
  bootstrapped = refl;
  cpu = λ e. omega (arith, e);
  unlocked = (refl, refl, refl, refl, refl);
}

vnode_unmount-vnode_mount_example :
    (t : Vfs) × (vnode_mount here 2000 5000 tree ≡ ok kern_success t)
    × (through_mount 2000 t ≡ ok 5000 t)
    × (u : Vfs) × (vnode_unmount here 2000 t ≡ ok kern_success u)
    × (through_mount 2000 u ≡ ok 2000 u)
    × (u.vfs_lock ≡ new_lock)
    × (u.vnode_at 5000 ≡ some (record zeroed { vnode_parent = 0; is_mounted = true }))
    × ((q : ℕ) → q ≢ 2000 → q ≢ 5000 → u.vnode_at q ≡ tree.vnode_at q)
vnode_unmount-vnode_mount_example =
    vnode_unmount-vnode_mount here tree 2000 5000 directory zeroed tree-Ready (record {
      apart = λ e. omega (arith, e);
      point = refl;
      other = refl;
      directory = refl;
      no_point = refl;
      no_mount = refl;
    })

vnode_get_canonical_path-unmounted_example :
    vnode_get_canonical_path here 2 100 10000 20000 30000 40000 6000 tree ≡ fault
vnode_get_canonical_path-unmounted_example =
    vnode_get_canonical_path-unmounted here 0 100 10000 20000 30000 40000 6000 tree detached
      tree-Ready refl refl refl refl (λ e. omega (arith, e)) (λ e. omega (arith, e)) refl refl
      (inl (omega arith)) (inl (omega arith))

get_new_file_handle-Given_example : Given here tree
get_new_file_handle-Given_example =
    get_new_file_handle-Given here tree refl (λ e. omega (arith, e)) (refl, refl, refl, refl, refl)

tree-Listed : Listed tree 10 (newest ∷ oldest ∷ [])
tree-Listed = ((λ e. omega (arith, e)), refl, refl, ((λ e. omega (arith, e)), refl, refl, refl))

read-write-handle_of_example :
    (read here 3 0 50 8 tree ≡ ok kern_not_found tree)
    × (write here 3 0 50 8 tree ≡ ok kern_not_found tree)
read-write-handle_of_example =
    read-write-handle_of here 3 0 50 8 newest [] oldest tree refl (λ e. omega (arith, e))
      (refl, refl, refl, refl, refl) tree-Listed (omega arith)
      ((λ e. omega (arith, e)), omega arith, tt)

vnode_close-newest_example :
    ((fuel handle : ℕ) → 1 ≢ handle → vnode_close here fuel handle tree ≡ hang)
    × ((fuel : ℕ)
        → (t : Vfs) × (vnode_close here (suc fuel) 1 tree ≡ ok tt t)
          × (t.handle_list.head ≡ 20)
          × (t.handle_id_bitmap ≡ 3)
          × (t.num_handles ≡ 2))
vnode_close-newest_example =
    vnode_close-newest here tree newest (oldest ∷ []) tree-Listed file refl refl refl

find_vnode_child-FirstNamed_example :
    (r : ℕ) × (find_vnode_child here 1000 200 tree ≡ ok r tree)
    × FirstNamed tree.memory root.vnode_children 3 0 200 r
find_vnode_child-FirstNamed_example =
    find_vnode_child-FirstNamed here 1000 200 1000 root root tree tree-Ready (record {
      at = refl;
      type = refl;
      through = refl;
      target_at = refl;
      cached = refl;
      memory = refl;
      room = omega arith;
    })

root-Child : Child 3000 1000 1 root
root-Child = record {
  memory = refl;
  counted = omega arith;
  room = omega arith;
  here = refl;
  first = λ j l. ground (arith, l);
}

root_distinct : (j k : ℕ) → j < k → k < 3 → root.vnode_children j ≢ root.vnode_children k
root_distinct j k a b = ground (arith, a, b)

vnode_update_children_array-loses_last_example :
    (t : Vfs) × (vnode_update_children_array here 3000 tree ≡ ok kern_success t)
    × (q : Vnode) × (t.vnode_at 1000 ≡ some q)
    × (q.num_children ≡ 2)
    × (q.vnode_children 1 ≡ 0)
    × ((j : ℕ) → j < q.num_children → q.vnode_children j ≢ 4000)
vnode_update_children_array-loses_last_example =
    vnode_update_children_array-loses_last 1000 1 root here 3000 tree tree-Ready refl root-Child
      file refl refl refl root_distinct (λ e. omega (arith, e))

vnode_remove-fault_example : vnode_remove here 99 3000 tree ≡ fault
vnode_remove-fault_example =
    vnode_remove-fault here 99 3000 1000 1 file root new_lock tree tree-Ready
      (record {
        at = refl;
        lock = refl;
        unlocked = (refl, refl, refl, refl, refl);
        no_mount = refl;
        unused = refl;
        dynamic = refl;
        no_root = λ e. omega (arith, e);
        given = λ e. omega (arith, e);
      })
      refl (λ e. omega (arith, e)) refl root-Child (λ u. refl)

vnode_lookup-root_held_example :
    (t : Vfs) × (vnode_lookup here 1 300 100 tree ≡ ok 1000 t)
    × (t.vfs_lock.locked ≡ 1)
    × (t.vfs_lock.holding_process ≡ 9)
    × (t.vfs_lock.cpu ≡ 7)
vnode_lookup-root_held_example =
    vnode_lookup-root_held here 0 1 300 100 root tree tree-Ready refl (refl, refl) (omega arith)
