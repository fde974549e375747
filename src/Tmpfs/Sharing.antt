-- ===== src/Tmpfs/Sharing.antt =====
-- Reads behind writes, at the same place of a page or at the same place of another one.
use dionys_os.Prelude.{
  ℕ, ◌+◌, ◌%◌, ◌≤◌, ◌<◌, ◌≡◌, ◌≢◌, ◌∙◌, ok, arith, refl, sym, ap, not_eq, subst, ◌^◌, update,
}
use dionys_os.Tmpfs.{null, Tmpfs}
use dionys_os.Tmpfs.Files.{Fresh, first_page, find_tmpfs_node_from_vnode, tmpfs_read, tmpfs_write}
use dionys_os.Tmpfs.Ring.{Apart, Receives, read_loop-Receives}
use dionys_os.Tmpfs.Growing.{IsFile, find-IsFile}
use dionys_os.Tmpfs.Writing.{Visible, Sends, first_page-zero, write_loop-Sends}

plus_zero : (b : ℕ) → b + 0 ≡ b
plus_zero b = omega arith

module _ (fresh : ℕ → Fresh) (vnode node target data_page from into n offset other : ℕ)
    (s : Tmpfs) where
  -- A file with buffers apart from its page.
  pub record Transfer : Type 0 where
    pub number : s.node_tree (s.vnode_inode_number vnode) ≡ node
    pub given : node ≢ null
    pub is_file : IsFile s node target data_page
    pub small : n ≤ 4096
    pub below : offset + n < 4194304
    pub other_below : other + n < 4194304
    pub same_place : offset % 4096 ≡ other % 4096
    pub from_given : from ≢ null
    pub into_given : into ≢ null
    pub from_apart : Apart data_page from n
    pub into_apart : Apart data_page into n
    pub visible : Visible s.byte from n

  module _ (x : Transfer) where
    sends :
        Sends fresh node target from data_page x.from_given n
          (first_page offset)
          (offset % 4096)
          0
          s
    sends =
        write_loop-Sends fresh node target from data_page x.from_given n (first_page offset)
          (offset % 4096) 0 s (omega arith) x.small (first_page-zero offset n x.below).1
          (subst (λ b. Apart data_page b n) (sym (plus_zero from)) x.from_apart)
          (subst (λ b. Visible s.byte b n) (sym (plus_zero from)) x.visible) x.is_file

    sized : Tmpfs
    sized = record sends.0 {
      vnode_size = update sends.0.vnode_size vnode ((sends.0.vnode_size vnode + n) % 2 ^ 64);
    }

    sized-IsFile : IsFile sized node target data_page
    unfolding sized
    sized-IsFile =
        let f = sends.2 in
        record {
          file = f.file;
          at = f.at;
          some_entry = f.some_entry;
          live = f.live;
          value = f.value;
          entry = f.entry;
          entry_at = f.entry_at;
          page = f.page;
          not_null = f.not_null;
        }

    writes : tmpfs_write fresh vnode offset from n s ≡ ok n sized
    unfolding tmpfs_write find_tmpfs_node_from_vnode sized
    writes =
        rw
          (
            x.number,
            not_eq x.given,
            (first_page-zero offset n x.below).0,
            find-IsFile node target data_page (fresh 0) s x.is_file,
            sends.1,
          )
          refl

    receives :
        Receives fresh node target into data_page x.into_given n
          (first_page other)
          (other % 4096)
          0
          sized
    unfolding sized
    receives =
        let f = sized-IsFile in
        read_loop-Receives fresh node target into data_page x.into_given n (first_page other)
          (other % 4096) 0 sized (omega arith) (first_page-zero other n x.other_below).1
          (subst (λ b. Apart data_page b n) (sym (plus_zero into)) x.into_apart)
          (f.entry, f.entry_at, f.page, f.not_null)

    -- For a file that has its first page, and two buffers that are not null and share no byte
    -- with it, a write of at most 4096 bytes, none of them 0, and then a read of as many bytes at
    -- an offset of the same remainder modulo 4096, both ending below 4 MiB, succeed, and the read
    -- gives the written bytes. So it does at the same offset, and as well in every other page.
    pub tmpfs_read-tmpfs_write :
        (t : Tmpfs) × (tmpfs_write fresh vnode offset from n s ≡ ok n t)
        × (u : Tmpfs) × (tmpfs_read fresh vnode other into n t ≡ ok n u)
        × ((i : ℕ) → i < n → u.byte (into + i) ≡ s.byte (from + i))
    unfolding tmpfs_read find_tmpfs_node_from_vnode sized
    tmpfs_read-tmpfs_write =
        let number : sized.node_tree (sized.vnode_inode_number vnode) ≡ node =
          ap (λ k. sends.0.node_tree (k vnode)) sends.5
          ∙ ap (λ k. k (s.vnode_inode_number vnode)) sends.4
          ∙ x.number in
        (
          sized,
          writes,
          record sized { byte = receives.0 },
          rw
              (
                number,
                not_eq x.given,
                (first_page-zero other n x.other_below).0,
                find-IsFile node target data_page (fresh 0) sized sized-IsFile,
                receives.1,
              )
              refl,
          λ i h.
              ap (λ b. receives.0 (b + i)) (sym (plus_zero into))
              ∙ receives.2.bytes i h
              ∙ ap (λ k. sends.0.byte (data_page + (k + i) % 4096)) (sym x.same_place)
              ∙ sends.3.bytes i h
              ∙ ap (λ b. s.byte (b + i)) (plus_zero from),
        )
