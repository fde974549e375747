-- ===== src/Tmpfs/Growing.antt =====
-- What stays while a file grows: its first entry and page.
use dionys_os.Prelude.{
  ℕ, ◌+◌, ◌/◌, ◌%◌, ◌^◌, ◌<◌, ◌≡◌, ◌≢◌, ◌∙◌, Bool, true, false, some, ok, arith, refl, Bool-cases,
  inl, inr, not_eq, eq→==, ltb, update, update_same,
}
use dionys_os.Tmpfs.{null, PageListEntry, TmpfsNode, Tmpfs}
use dionys_os.Tmpfs.Files.{Fresh, write_turn, grow, tmpfs_find_page_list_entry, entry_walk}

-- A file whose first entry is `target`, with the first page `data_page`.
pub record IsFile (s : Tmpfs) (node target data_page : ℕ) : Type 0 where
  pub file : TmpfsNode
  pub at : s.node_at node ≡ some file
  pub some_entry : file.page_list.head ≢ null
  pub live : s.list_nodes.live file.page_list.head ≡ true
  pub value : s.list_nodes.value file.page_list.head ≡ target
  pub entry : PageListEntry
  pub entry_at : s.entry_at target ≡ some entry
  pub page : entry.page_list 0 ≡ data_page
  pub not_null : data_page ≢ null

-- The bytes and the nodes' numbers are as they were.
abbrev pub Same : Tmpfs → Tmpfs → Type 0
Same s t =
    (t.byte ≡ s.byte) × (t.node_tree ≡ s.node_tree) × (t.vnode_inode_number ≡ s.vnode_inode_number)

module _ (node target data_page : ℕ) where
  pub find-IsFile :
      (fresh : Fresh) (s : Tmpfs)
      → IsFile s node target data_page
      → tmpfs_find_page_list_entry fresh node 0 s ≡ ok target s
  unfolding tmpfs_find_page_list_entry entry_walk
  find-IsFile fresh s f = rw (f.at, not_eq f.some_entry, f.live, f.value) refl

  abbrev pub Grows : ℕ → Tmpfs → Type 0
  Grows end s =
      (b : Bool) × (t : Tmpfs) × (grow node end s ≡ ok b t)
      × IsFile t node target data_page
      × Same s t

  pub grow-IsFile : (end : ℕ) (s : Tmpfs) → IsFile s node target data_page → Grows end s
  unfolding grow
  grow-IsFile end s f = elim (Bool-cases (ltb f.file.tmpfs_node_size end)) [
    | inl more ↦
        let n = record f.file { tmpfs_node_size = end } in
        (
          true,
          record s { node_at = update s.node_at node (some n) },
          rw (f.at, more, f.at) refl,
          record {
            file = n;
            at = update_same s.node_at node (some n);
            some_entry = f.some_entry;
            live = f.live;
            value = f.value;
            entry = f.entry;
            entry_at = f.entry_at;
            page = f.page;
            not_null = f.not_null;
          },
          (refl, refl, refl),
        )
    | inr same ↦ (false, s, rw (f.at, same) refl, f, (refl, refl, refl))
  ]

  -- The turn at the end of a page, and within one.
  abbrev pub Turns : (fresh : ℕ → Fresh) (page offset : ℕ) (new_size : Bool) → ℕ → Tmpfs → Type 0
  Turns fresh page offset new_size page' s =
      (t : Tmpfs) × (write_turn fresh node page offset target new_size s ≡ ok (page', target) t)
      × IsFile t node target data_page
      × Same s t

  zero_entry : (page : ℕ) → page + 1 < 1024 → (page + 1) / 1024 ≡ 0
  zero_entry page l = omega (arith, l)

  pub write_turn-IsFile :
      (fresh : ℕ → Fresh) (page offset : ℕ) (new_size : Bool) (s : Tmpfs)
      → IsFile s node target data_page
      → offset ≡ 0
      → page + 1 < 1024
      → Turns fresh page offset new_size (page + 1) s
  unfolding write_turn
  write_turn-IsFile fresh page offset true s f z l =
      let e = record f.entry { number_of_pages = (f.entry.number_of_pages + 1) % 2 ^ 64 } in
      let t : Tmpfs = record s { entry_at = update s.entry_at target (some e) } in
      let g : IsFile t node target data_page = record {
        file = f.file;
        at = f.at;
        some_entry = f.some_entry;
        live = f.live;
        value = f.value;
        entry = e;
        entry_at = update_same s.entry_at target (some e);
        page = f.page;
        not_null = f.not_null;
      } in
      (
        t,
        rw (eq→== offset 0 z, f.entry_at, zero_entry page l, find-IsFile (fresh 1) t g) refl,
        g,
        (refl, refl, refl),
      )
  write_turn-IsFile fresh page offset false s f z l = (
    s,
    rw (eq→== offset 0 z, zero_entry page l, find-IsFile (fresh 1) s f) refl,
    f,
    (refl, refl, refl),
  )

  pub write_turn-within :
      (fresh : ℕ → Fresh) (page offset : ℕ) (new_size : Bool) (s : Tmpfs)
      → IsFile s node target data_page
      → offset ≢ 0
      → Turns fresh page offset new_size page s
  unfolding write_turn
  write_turn-within fresh page offset new_size s f z =
      (s, rw (not_eq z) refl, f, (refl, refl, refl))

pub Same-trans : (s t u : Tmpfs) → Same s t → Same t u → Same s u
Same-trans s t u a b = (b.0 ∙ a.0, b.1 ∙ a.1, b.2 ∙ a.2)
