-- ===== src/Examples/Files.antt =====
-- A file of one page in memory.
use dionys_os.Prelude.{
  ℕ, ◌+◌, ◌<◌, ◌≡◌, ◌≢◌, ◌⊎◌, ◌==◌, if◌then◌else◌, some, none, ok, panic, arith, refl, inr,
}
use dionys_os.Tmpfs.{Tmpfs, TmpfsNode, PageListEntry}
use dionys_os.Tmpfs.Files.{Fresh, tmpfs_read, tmpfs_write}
use dionys_os.Tmpfs.Sharing.{Transfer, tmpfs_read-tmpfs_write}
use dionys_os.Tmpfs.Nodes.{tmpfs_node_bitmap_get}
use dionys_os.Tmpfs.Numbers.{FirstNumber, tmpfs_node_bitmap_get-FirstNumber}

abbrev text : TmpfsNode
text = record {
  parent_tmpfs_node = 0;
  tmpfs_node_number = 8;
  tmpfs_node_size = 5;
  node_type = 1;
  page_list = record { head = 10; tail = 10; node_count = 1 };
  entries = λ i. 0;
}

abbrev first_entry : PageListEntry
first_entry = record { page_list = λ i. if i == 0 then 8192 else 0; number_of_pages = 1 }

-- The file 500 of the vnode 700; the buffer at 100 holds "ab".
abbrev files : Tmpfs
files = record {
  byte = λ p. if p == 100 then 97 else if p == 101 then 98 else 0;
  list_nodes = record { live = λ b. b == 10; value = λ b. 600; next = λ b. 0; prev = λ b. 0 };
  entry_at = λ p. if p == 600 then some first_entry else none;
  node_at = λ p. if p == 500 then some text else none;
  node_tree = λ k. if k == 8 then 500 else 0;
  tmpfs_node_count = 1;
  tmpfs_node_number_bitmap = λ i. if i == 0 then 255 else if i == 1 then 1 else 0;
  vnode_size = λ v. 5;
  vnode_inode_number = λ v. if v == 700 then 8 else 0;
}

abbrev no_fresh : ℕ → Fresh
no_fresh k = record { entry = 0; page = 0; node = 0 }

letters : (i : ℕ) → i < 2 → files.byte (100 + i) ≢ 0
letters i l = ground (arith, l)

transfer : Transfer no_fresh 700 500 600 8192 100 200 2 10 4106 files
transfer = record {
  number = refl;
  given = λ e. omega (arith, e);
  is_file = record {
    file = text;
    at = refl;
    some_entry = λ e. omega (arith, e);
    live = refl;
    value = refl;
    entry = first_entry;
    entry_at = refl;
    page = refl;
    not_null = λ e. omega (arith, e);
  };
  small = omega arith;
  below = omega arith;
  other_below = omega arith;
  same_place = refl;
  from_given = λ e. omega (arith, e);
  into_given = λ e. omega (arith, e);
  from_apart = inr (omega arith);
  into_apart = inr (omega arith);
  visible = letters;
}

tmpfs_read-tmpfs_write_example :
    (t : Tmpfs) × (tmpfs_write no_fresh 700 10 100 2 files ≡ ok 2 t)
    × (u : Tmpfs) × (tmpfs_read no_fresh 700 4106 200 2 t ≡ ok 2 u)
    × ((i : ℕ) → i < 2 → u.byte (200 + i) ≡ files.byte (100 + i))
tmpfs_read-tmpfs_write_example =
    tmpfs_read-tmpfs_write no_fresh 700 500 600 8192 100 200 2 10 4106 files transfer

bytes_small : (i : ℕ) → files.tmpfs_node_number_bitmap i < 256
bytes_small i = ground arith

tmpfs_node_bitmap_get-FirstNumber_example :
    FirstNumber files bytes_small
    ⊎ (((k : ℕ) → k < 4096 → files.tmpfs_node_number_bitmap k ≡ 255)
        × (tmpfs_node_bitmap_get files ≡ panic))
tmpfs_node_bitmap_get-FirstNumber_example = tmpfs_node_bitmap_get-FirstNumber files bytes_small
