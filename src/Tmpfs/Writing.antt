-- ===== src/Tmpfs/Writing.antt =====
-- What a write of a file moves.
use dionys_os.Prelude.{
  ℕ, zero, suc, ◌+◌, ◌*◌, ◌/◌, ◌%◌, ◌≤◌, ◌<◌, ◌≡◌, ◌≢◌, ◌⊎◌, ◌∙◌, ◌==◌, Bool, ok, arith, refl, sym,
  ap, Bool-cases, inl, inr, not_eq, ==→eq, update, update_same, update_other, subst,
}
use dionys_os.Tmpfs.{null, page_size, Tmpfs}
use dionys_os.Tmpfs.Files.{Fresh, next_offset, first_page, write_turn, grow, write_loop}
use dionys_os.Tmpfs.Growing.{IsFile, Same-trans, grow-IsFile, write_turn-IsFile, write_turn-within}
use dionys_os.Tmpfs.Ring.{around, around-next, Apart, turn_room, step_room}

-- What `n` bytes of a write do to the memory.
pub record Sent (m m' : ℕ → ℕ) (data_page offset buffer n : ℕ) : Type 0 where
  pub bytes : (i : ℕ) → i < n → m' (data_page + around offset i) ≡ m (buffer + i)
  pub others :
      (k : ℕ)
      → k < 4096
      → ((i : ℕ) → i < n → k ≢ around offset i)
      → m' (data_page + k) ≡ m (data_page + k)
  pub rest : (a : ℕ) → (a < data_page) ⊎ (data_page + 4096 ≤ a) → m' a ≡ m a

around_first :
    (offset i n : ℕ) → offset < 4096 → suc n ≤ 4096 → i < n → offset ≢ around (next_offset offset) i
around_first offset i n l small h e = ground (arith, l, small, h, e)

Sent-next :
    (m m' : ℕ → ℕ) (data_page offset buffer n : ℕ)
    → offset < 4096
    → suc n ≤ 4096
    → Apart data_page buffer (suc n)
    → Sent
        (update m (data_page + offset) (m buffer))
        m'
        data_page
        (next_offset offset)
        (buffer + 1)
        n
    → Sent m m' data_page offset buffer (suc n)
Sent-next m m' data_page offset buffer n l small apart r = record {
  bytes = bytes';
  others = λ k b none_of.
      r.others k b (λ i h e. none_of (suc i) (omega (arith, h)) (e ∙ around-next offset i l))
      ∙ update_other m (data_page + offset) (data_page + k) (m buffer)
          (λ e. none_of 0 (omega arith) (omega (arith, e, l)));
  rest = λ a out.
      r.rest a out ∙ update_other m (data_page + offset) a (m buffer) (ground (arith, out, l));
}
  where
    bytes' : (i : ℕ) → i < suc n → m' (data_page + around offset i) ≡ m (buffer + i)
    bytes' zero h =
        ap (λ k. m' (data_page + k)) (omega (arith, l))
        ∙ r.others offset l (λ i k. around_first offset i n l small k)
        ∙ update_same m (data_page + offset) (m buffer)
        ∙ ap m (omega arith)
    bytes' (suc i) h =
        ap (λ k. m' (data_page + k)) (sym (around-next offset i l))
        ∙ r.bytes i (omega (arith, h))
        ∙ update_other m (data_page + offset) (buffer + 1 + i) (m buffer)
            (ground (arith, apart, l, h))
        ∙ ap m (omega arith)

-- Every byte to send is one.
abbrev pub Visible : (m : ℕ → ℕ) (from n : ℕ) → Type 0
Visible m from n = (i : ℕ) → i < n → m (from + i) ≢ 0

pub first_page-zero :
    (offset n : ℕ)
    → offset + n < 4194304
    → (first_page offset / 1024 ≡ 0) × (first_page offset * 4096 + offset % 4096 + n < 4194304)
first_page-zero offset n l = (ground (arith, l), ground (arith, l))

module _ (fresh : ℕ → Fresh) (node target buffer data_page : ℕ) (given : buffer ≢ null) where
  abbrev pub Sends : (n page offset copy : ℕ) → Tmpfs → Type 0
  Sends n page offset copy s =
      (t : Tmpfs) × (write_loop n fresh node page offset copy target buffer s ≡ ok tt t)
      × IsFile t node target data_page
      × Sent s.byte t.byte data_page offset (buffer + copy) n
      × (t.node_tree ≡ s.node_tree)
      × (t.vnode_inode_number ≡ s.vnode_inode_number)

  Sent-later :
      (s s1 : Tmpfs) (n page offset copy : ℕ) (t : Tmpfs)
      → offset < 4096
      → suc n ≤ 4096
      → Apart data_page (buffer + copy) (suc n)
      → s1.byte ≡ update s.byte (data_page + offset) (s.byte (buffer + copy))
      → Sent s1.byte t.byte data_page (next_offset offset) (buffer + (copy + 1)) n
      → Sent s.byte t.byte data_page offset (buffer + copy) (suc n)
  Sent-later s s1 n page offset copy t l small apart e sent =
      let shift : buffer + (copy + 1) ≡ buffer + copy + 1 = omega arith in
      Sent-next s.byte t.byte data_page offset (buffer + copy) n l small apart (
        subst (λ m. Sent m t.byte data_page (next_offset offset) (buffer + copy + 1) n) e
          (subst (λ b. Sent s1.byte t.byte data_page (next_offset offset) b n) shift sent))

  Visible-later :
      (s s1 : Tmpfs) (n offset copy : ℕ)
      → offset < 4096
      → Apart data_page (buffer + copy) (suc n)
      → s1.byte ≡ update s.byte (data_page + offset) (s.byte (buffer + copy))
      → Visible s.byte (buffer + copy) (suc n)
      → Visible s1.byte (buffer + (copy + 1)) n
  Visible-later s s1 n offset copy l apart e seen i h z = seen (suc i) (omega (arith, h)) (
      sym (
        ap (λ m. m (buffer + (copy + 1) + i)) e
        ∙ update_other s.byte (data_page + offset) (buffer + (copy + 1) + i)
            (s.byte (buffer + copy)) (ground (arith, apart, l, h))
        ∙ ap s.byte (omega arith))
      ∙ z)

  -- One round, from those of its parts.
  write_round :
      (n page page' offset copy : ℕ) (b : Bool) (s grown turned sent : Tmpfs)
      → page / 1024 ≡ 0
      → s.byte (buffer + copy) ≢ 0
      → IsFile s node target data_page
      → grow node
          (page * page_size + next_offset offset)
          (record s { byte = update s.byte (data_page + offset) (s.byte (buffer + copy)) })
        ≡ ok b grown
      → write_turn fresh node page (next_offset offset) target b grown ≡ ok (page', target) turned
      → write_loop n fresh node page' (next_offset offset) (copy + 1) target buffer turned
        ≡ ok tt sent
      → write_loop (suc n) fresh node page offset copy target buffer s ≡ ok tt sent
  unfolding write_loop
  write_round n page page' offset copy b s grown turned sent zeroth here f g w r =
      rw (zeroth, f.entry_at, f.page, not_eq given, not_eq here, not_eq f.not_null, g, w, r) refl

  pub write_loop-Sends :
      (n page offset copy : ℕ) (s : Tmpfs)
      → offset < 4096
      → n ≤ 4096
      → page * 4096 + offset + n < 4194304
      → Apart data_page (buffer + copy) n
      → Visible s.byte (buffer + copy) n
      → IsFile s node target data_page
      → Sends n page offset copy s
  unfolding write_loop
  write_loop-Sends zero page offset copy s l small room apart seen f = (
    s,
    refl,
    f,
    record {
      bytes = λ i h. absurd (omega arith);
      others = λ k b none_of. refl;
      rest = λ a out. refl;
    },
    refl,
    refl,
  )
  write_loop-Sends (suc n) page offset copy s l small room apart seen f =
      let s1 : Tmpfs = record s {
        byte = update s.byte (data_page + offset) (s.byte (buffer + copy));
      } in
      let f1 : IsFile s1 node target data_page = record {
        file = f.file;
        at = f.at;
        some_entry = f.some_entry;
        live = f.live;
        value = f.value;
        entry = f.entry;
        entry_at = f.entry_at;
        page = f.page;
        not_null = f.not_null;
      } in
      let zeroth : page / 1024 ≡ 0 = omega arith in
      let apart1 : Apart data_page (buffer + (copy + 1)) n = ground (arith, apart) in
      let here : s.byte (buffer + copy) ≢ 0 = ground (arith, seen 0) in
      let grown = grow-IsFile node target data_page (page * page_size + next_offset offset) s1 f1 in
      elim (Bool-cases (next_offset offset == 0)) [
        | inl z ↦
            let room1 = turn_room page offset n l room (==→eq (next_offset offset) 0 z) in
            let turned =
              write_turn-IsFile node target data_page fresh page (next_offset offset) grown.0
                grown.1 grown.3 (==→eq (next_offset offset) 0 z) room1.0 in
            let same = Same-trans s1 grown.1 turned.0 grown.4 turned.3 in
            let rest =
              write_loop-Sends n (page + 1) (next_offset offset) (copy + 1) turned.0
                (ground (arith, z)) (omega (arith, small))
                (rw (==→eq (next_offset offset) 0 z) room1.1) apart1
                (Visible-later s turned.0 n offset copy l apart same.0 seen) turned.2 in
            (
              rest.0,
              write_round n page (page + 1) offset copy grown.0 s grown.1 turned.0 rest.0 zeroth
                  here f grown.2 turned.1 rest.1,
              rest.2,
              Sent-later s turned.0 n page offset copy rest.0 l small apart same.0 rest.3,
              rest.4 ∙ same.1,
              rest.5 ∙ same.2,
            )
        | inr nz ↦
            let room1 = step_room page offset n l room (ground (arith, nz)) in
            let turned =
              write_turn-within node target data_page fresh page (next_offset offset) grown.0
                grown.1 grown.3 (ground (arith, nz)) in
            let same = Same-trans s1 grown.1 turned.0 grown.4 turned.3 in
            let rest =
              write_loop-Sends n page (next_offset offset) (copy + 1) turned.0 room1.0
                (omega (arith, small)) room1.1 apart1
                (Visible-later s turned.0 n offset copy l apart same.0 seen) turned.2 in
            (
              rest.0,
              write_round n page page offset copy grown.0 s grown.1 turned.0 rest.0 zeroth here f
                  grown.2 turned.1 rest.1,
              rest.2,
              Sent-later s turned.0 n page offset copy rest.0 l small apart same.0 rest.3,
              rest.4 ∙ same.1,
              rest.5 ∙ same.2,
            )
      ]
