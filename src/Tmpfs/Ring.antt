-- ===== src/Tmpfs/Ring.antt =====
-- What a transfer of a file moves: below 4 MiB, all offsets share the first page.
use dionys_os.Prelude.{
  ℕ, zero, suc, ◌+◌, ◌*◌, ◌/◌, ◌%◌, ◌≤◌, ◌<◌, ◌≡◌, ◌≢◌, ◌⊎◌, ◌∙◌, ◌==◌, false, some, ok, arith,
  refl, ap, Bool-cases, inl, inr, not_eq, update, update_same, update_other, subst,
}
use dionys_os.Tmpfs.{null, PageListEntry, Tmpfs}
use dionys_os.Tmpfs.Files.{Fresh, next_offset, read_turn, read_loop}

-- The place in a page that is `i` bytes behind an offset.
abbrev pub around : (offset i : ℕ) → ℕ
around offset i = (offset + i) % 4096

pub around-next :
    (offset i : ℕ) → offset < 4096 → around (next_offset offset) i ≡ around offset (suc i)
around-next offset i l = ground (arith, l)

-- A buffer of `n` bytes that shares no byte with a page.
abbrev pub Apart : (page buffer n : ℕ) → Type 0
Apart page buffer n = (page + 4096 ≤ buffer) ⊎ (buffer + n ≤ page)

-- An entry whose first page is `data_page`.
abbrev pub FirstPage : Tmpfs → (target data_page : ℕ) → Type 0
FirstPage s target data_page =
    (e : PageListEntry) × (s.entry_at target ≡ some e)
    × (e.page_list 0 ≡ data_page)
    × (data_page ≢ null)

lt_small : (page : ℕ) → page + 1 < 1024 → ((page + 1) / 1024 == 1) ≡ false
lt_small page l = ground (arith, l)

read_turn-below :
    (fresh : ℕ → Fresh) (node page offset target : ℕ) (s : Tmpfs)
    → (offset ≡ 0 → page + 1 < 1024)
    → (read_turn fresh node page offset target s ≡ ok (page + 1, target) s) × (offset ≡ 0)
      ⊎ (read_turn fresh node page offset target s ≡ ok (page, target) s) × (offset ≢ 0)
unfolding read_turn
read_turn-below fresh node page offset target s l = elim (Bool-cases (offset == 0)) [
  | inl z ↦ inl (rw (z, lt_small page (l (ground (arith, z)))) refl, ground (arith, z))
  | inr nz ↦ inr (rw nz refl, ground (arith, nz))
]

-- What `n` bytes of a read do to the memory.
pub record Received (m m' : ℕ → ℕ) (data_page offset buffer n : ℕ) : Type 0 where
  pub bytes : (i : ℕ) → i < n → m' (buffer + i) ≡ m (data_page + around offset i)
  pub rest : (a : ℕ) → (a < buffer) ⊎ (buffer + n ≤ a) → m' a ≡ m a

Received-next :
    (m m' : ℕ → ℕ) (data_page offset buffer n : ℕ)
    → offset < 4096
    → Apart data_page buffer (suc n)
    → Received
        (update m buffer (m (data_page + offset)))
        m'
        data_page
        (next_offset offset)
        (buffer + 1)
        n
    → Received m m' data_page offset buffer (suc n)
Received-next m m' data_page offset buffer n l apart r = record {
  bytes = bytes';
  rest = λ a out.
      r.rest a (ground (arith, out))
      ∙ update_other m buffer a (m (data_page + offset)) (ground (arith, out));
}
  where
    bytes' : (i : ℕ) → i < suc n → m' (buffer + i) ≡ m (data_page + around offset i)
    bytes' zero h =
        ap m' (omega arith)
        ∙ r.rest buffer (inl (omega arith))
        ∙ update_same m buffer (m (data_page + offset))
        ∙ ap (λ k. m (data_page + k)) (omega (arith, l))
    bytes' (suc i) h =
        let place : around (next_offset offset) i ≡ around offset (suc i) =
          around-next offset i l in
        let off : data_page + around offset (suc i) ≢ buffer = ground (arith, apart) in
        ap m' (omega arith)
        ∙ r.bytes i (omega (arith, h))
        ∙ ap (λ k. update m buffer (m (data_page + offset)) (data_page + k)) place
        ∙ update_other m buffer (data_page + around offset (suc i)) (m (data_page + offset)) off

pub turn_room :
    (page offset n : ℕ)
    → offset < 4096
    → page * 4096 + offset + suc n < 4194304
    → next_offset offset ≡ 0
    → (page + 1 < 1024) × ((page + 1) * 4096 + 0 + n < 4194304)
turn_room page offset n l room z = (ground (arith, l, room, z), ground (arith, l, room, z))

pub step_room :
    (page offset n : ℕ)
    → offset < 4096
    → page * 4096 + offset + suc n < 4194304
    → next_offset offset ≢ 0
    → (next_offset offset < 4096) × (page * 4096 + next_offset offset + n < 4194304)
step_room page offset n l room z = (ground (arith, l, room, z), ground (arith, l, room, z))

module _ (fresh : ℕ → Fresh) (node target buffer data_page : ℕ) (given : buffer ≢ null) where
  abbrev pub Receives : (n page offset copy : ℕ) → Tmpfs → Type 0
  Receives n page offset copy s =
      (m' : ℕ → ℕ) × (read_loop n fresh node page offset copy target buffer s
        ≡ ok tt (record s { byte = m' }))
      × Received s.byte m' data_page offset (buffer + copy) n

  pub read_loop-Receives :
      (n page offset copy : ℕ) (s : Tmpfs)
      → offset < 4096
      → page * 4096 + offset + n < 4194304
      → Apart data_page (buffer + copy) n
      → FirstPage s target data_page
      → Receives n page offset copy s
  unfolding read_loop
  read_loop-Receives zero page offset copy s l room apart f =
      (s.byte, refl, record { bytes = λ i h. absurd (omega arith); rest = λ a out. refl })
  read_loop-Receives (suc n) page offset copy s l room apart f =
      let s1 : Tmpfs = record s {
        byte = update s.byte (buffer + copy) (s.byte (data_page + offset));
      } in
      let zeroth : page / 1024 ≡ 0 = omega arith in
      let apart1 : Apart data_page (buffer + (copy + 1)) n = ground (arith, apart) in
      let shift : buffer + (copy + 1) ≡ buffer + copy + 1 = omega arith in
      elim (read_turn-below fresh node page (next_offset offset) target s1
        (λ z. (turn_room page offset n l room z).0)) [
          | inl turn ↦
              let rest =
                read_loop-Receives n (page + 1) (next_offset offset) (copy + 1) s1
                  (ground (arith, turn.1)) (rw turn.1 (turn_room page offset n l room turn.1).1)
                  apart1 f in
              (
                rest.0,
                rw (zeroth, f.1, f.2, not_eq f.3, not_eq given, turn.0, rest.1) refl,
                Received-next s.byte rest.0 data_page offset (buffer + copy) n l apart (
                    subst (λ b. Received s1.byte rest.0 data_page (next_offset offset) b n) shift
                      rest.2),
              )
          | inr stay ↦
              let room1 = step_room page offset n l room stay.1 in
              let rest =
                read_loop-Receives n page (next_offset offset) (copy + 1) s1 room1.0 room1.1 apart1
                  f in
              (
                rest.0,
                rw (zeroth, f.1, f.2, not_eq f.3, not_eq given, stay.0, rest.1) refl,
                Received-next s.byte rest.0 data_page offset (buffer + copy) n l apart (
                    subst (λ b. Received s1.byte rest.0 data_page (next_offset offset) b n) shift
                      rest.2),
              )
        ]
