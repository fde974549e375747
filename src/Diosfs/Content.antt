-- ===== src/Diosfs/Content.antt =====
-- The bytes of a file: `diosfs_read_bytes_from_inode`.
use dionys_os.Prelude.{
  ℕ, zero, suc, ◌+◌, ◌*◌, ◌-◌, ◌/◌, ◌%◌, ◌≤◌, ◌<◌, ◌≡◌, Bool, true, false, ◌||◌, ltb, ◌==◌,
  if◌then◌else◌, arith, refl, sym, ap, ◌∙◌, ok, panic, fault, Cmd, ◌>>=◌, pure, subst, inl, inr,
  lt_or_le, le→ltb_false, lt→ltb, Run, hang, ◌>>◌, and_then,
}
use dionys_os.Diosfs.Index.{BlockPath, InBounds, position}
use dionys_os.Diosfs.Device.{
  Buffer, Device, Superblock, device_block_size, in_memory, read_block_by_number,
  read_block_by_number-ok, IsData, data_byte, loaded,
}
use dionys_os.Diosfs.Resolve.{
  BlockPointers, get_relative_block_number, block_at, Reachable, get_relative_block_number-block_at,
}

pub data VnodeType : Type 0 where
  directory file hard_link block_dev char_dev net_dev special special_file sym_link : VnodeType

-- `struct diosfs_inode`, without its names and owners.
pub record Inode : Type 0 where
  pub kind : VnodeType
  pub size : ℕ
  pub block_count : ℕ
  pub pointers : BlockPointers

pub data Answer : Type 0 where
  success buffer_too_small : Answer

abbrev pub is_file : VnodeType → Bool
is_file file = true
is_file _ = false

-- What a read into `buffer + at` leaves.
abbrev pub at_offset : ℕ → Buffer → Buffer
at_offset at buffer i = buffer (at + i)

abbrev pub put_back : ℕ → Buffer → Buffer → Buffer
put_back at buffer part i = if ltb i at then buffer i else part (i - at)

module _ (sb : Superblock) (temp : Buffer) (inode : Inode) where
  -- The loop of the function over the blocks from `i` on. `bytes_read` and `bytes_to_read` are its
  -- counters, and `start_offset` only enters the size of the first part: the driver always transfers
  -- a whole block, which must lie in the memory of the buffer.
  unfoldable pub read_loop :
      (buffer_size rounds i bytes_read bytes_to_read start_offset : ℕ) → Buffer → Cmd Device Buffer
  read_loop buffer_size zero i bytes_read bytes_to_read start_offset buffer = pure buffer
  read_loop buffer_size (suc rounds) i bytes_read bytes_to_read start_offset buffer = do
    let byte_size =
        if ltb (sb.block_size - start_offset) bytes_to_read
        then sb.block_size - start_offset
        else bytes_to_read
    block ← get_relative_block_number sb temp inode.pointers i
    part ← read_block_by_number sb block (at_offset bytes_read buffer) start_offset byte_size
    in_memory buffer_size (bytes_read + device_block_size)
    read_loop buffer_size rounds (i + 1) (bytes_read + byte_size) (bytes_to_read - byte_size) 0
        (put_back bytes_read buffer part)

  -- `buffer_size` is the size of the memory of the buffer.
  unfoldable pub read_bytes_from_inode :
      Buffer → (buffer_size offset read_size : ℕ) → Cmd Device (Answer × Buffer)
  read_bytes_from_inode buffer buffer_size offset read_size =
      if sb.block_size == 0
      then (λ _. fault)
      else if is_file inode.kind
      then (if ltb buffer_size sb.block_size
            || ltb buffer_size (sb.block_size * (read_size / sb.block_size))
          then pure (buffer_too_small, buffer)
          else if ltb inode.size offset
          then (λ _. panic)
          else (do
            b ←
                read_loop buffer_size (read_size / sb.block_size + 1) (offset / sb.block_size) 0
                  read_size (offset % sb.block_size) buffer
            pure (success, b)))
      else (λ _. panic)

-- Block `i` of a file lies on the device, with its pointer blocks, and holds the bytes `content`.
pub record Holds (sb : Superblock) (d : Device) (inode : Inode) (i : ℕ) (content : Buffer)
    : Type 0 where
  pub path : BlockPath
  pub in_bounds : InBounds path
  pub leads : position path ≡ i
  pub reachable : Reachable sb d inode.pointers path
  pub on_device : IsData sb d (block_at sb d inode.pointers path)
  pub bytes : (j : ℕ) → j < 1024 → content j ≡ data_byte sb d (block_at sb d inode.pointers path) j

-- What the function makes of the outcome of its loop.
abbrev answered : Run Device Buffer → Run Device (Answer × Buffer)
answered (ok b d) = ok (success, b) d
answered panic = panic
answered fault = fault
answered hang = hang

run-answered : (r : Run Device Buffer) → and_then r (λ b. pure (success, b)) ≡ answered r
run-answered (ok b d) = refl
run-answered panic = refl
run-answered fault = refl
run-answered hang = refl

module _ (sb : Superblock) (temp : Buffer) (inode : Inode) (d : Device) (content : ℕ → Buffer)
    (small : sb.block_size ≡ 1024) (buffer_size : ℕ) where
  abbrev run : (rounds i bytes_read bytes_to_read : ℕ) → Buffer → Run Device Buffer
  run rounds i bytes_read bytes_to_read buffer =
      read_loop sb temp inode buffer_size rounds i bytes_read bytes_to_read 0 buffer d

  -- The outcome of the loop: the bytes to read are those of the file, and what was read stays.
  abbrev Reads : (rounds i bytes_read bytes_to_read : ℕ) → Buffer → Type 0
  Reads rounds i bytes_read bytes_to_read buffer =
      (b : Buffer) × (run rounds i bytes_read bytes_to_read buffer ≡ ok b d)
      × ((p : ℕ) → p < bytes_to_read → b (bytes_read + p) ≡ content (i + p / 1024) (p % 1024))
      × ((a : ℕ) → a < bytes_read → b a ≡ buffer a)

  abbrev part_size : ℕ → ℕ
  part_size left = if ltb (sb.block_size - 0) left then sb.block_size - 0 else left

  abbrev step_buffer : (i at : ℕ) → Holds sb d inode i (content i) → Buffer → Buffer
  step_buffer i at h buffer =
      put_back at buffer (loaded sb d (block_at sb d inode.pointers h.path) (at_offset at buffer))

  resolved :
      (i : ℕ) (h : Holds sb d inode i (content i))
      → get_relative_block_number sb temp inode.pointers i d
        ≡ ok (block_at sb d inode.pointers h.path) d
  resolved i h =
      subst
        (λ n.
          get_relative_block_number sb temp inode.pointers n d
          ≡ ok (block_at sb d inode.pointers h.path) d)
        h.leads
        (get_relative_block_number-block_at sb temp d inode.pointers h.path h.in_bounds h.reachable)

  run-read_loop :
      (rounds i at left : ℕ) (buffer : Buffer) (h : Holds sb d inode i (content i))
      → at + 1024 ≤ buffer_size
      → run (suc rounds) i at left buffer
        ≡ run rounds
            (i + 1)
            (at + part_size left)
            (left - part_size left)
            (step_buffer i at h buffer)
  unfolding read_loop
  run-read_loop rounds i at left buffer h room =
      rw
        (
          resolved i h,
          read_block_by_number-ok sb d (block_at sb d inode.pointers h.path) (at_offset at buffer) 0
              (part_size left) h.on_device,
          le→ltb_false buffer_size (at + 1024) room,
        )
        refl

  -- The transfer of a block beyond the memory of the buffer.
  run-outside :
      (rounds i at left : ℕ) (buffer : Buffer) (h : Holds sb d inode i (content i))
      → buffer_size < at + 1024
      → run (suc rounds) i at left buffer ≡ fault
  unfolding read_loop
  run-outside rounds i at left buffer h outside =
      rw
        (
          resolved i h,
          read_block_by_number-ok sb d (block_at sb d inode.pointers h.path) (at_offset at buffer) 0
              (part_size left) h.on_device,
          lt→ltb buffer_size (at + 1024) outside,
        )
        refl

  content-near : (i p : ℕ) → p < 1024 → content (i + p / 1024) (p % 1024) ≡ content i p
  content-near i p h =
      ap (λ q. content q (p % 1024)) (omega (arith, h)) ∙ ap (λ q. content i q) (omega (arith, h))

  content-far :
      (i p : ℕ)
      → 1024 ≤ p
      → content (i + 1 + (p - 1024) / 1024) ((p - 1024) % 1024) ≡ content (i + p / 1024) (p % 1024)
  content-far i p h =
      ap (λ q. content q ((p - 1024) % 1024)) (omega (arith, h))
      ∙ ap (λ q. content (i + p / 1024) q) (omega (arith, h))

  -- The blocks from `i` on, as many as the rounds.
  abbrev HoldsAll : (rounds i : ℕ) → Type 0
  HoldsAll rounds i = (k : ℕ) → k < rounds → Holds sb d inode (i + k) (content (i + k))

  first_block : (rounds i : ℕ) → HoldsAll (suc rounds) i → Holds sb d inode i (content i)
  first_block rounds i holds =
      subst (λ j. Holds sb d inode j (content j)) (omega arith) (holds 0 (omega arith))

  later_blocks : (rounds i : ℕ) → HoldsAll (suc rounds) i → HoldsAll rounds (i + 1)
  later_blocks rounds i holds k l =
      subst (λ j. Holds sb d inode j (content j)) (omega arith) (holds (k + 1) (omega arith))

  read_loop-Reads :
      (rounds i at left : ℕ) (buffer : Buffer)
      → HoldsAll rounds i
      → left ≤ rounds * 1024
      → at + rounds * 1024 ≤ buffer_size
      → Reads rounds i at left buffer
  unfolding read_loop
  read_loop-Reads zero i at left buffer holds enough room =
      (buffer, refl, (λ p h. absurd (omega arith)), λ a h. refl)
  read_loop-Reads (suc rounds) i at left buffer holds enough room =
      let h = first_block _ i holds in
      let r =
        read_loop-Reads rounds (i + 1) (at + part_size left) (left - part_size left)
          (step_buffer i at h buffer) (later_blocks rounds i holds) (ground (arith, small))
          (ground (arith, small, room)) in
      (
        r.0,
        run-read_loop rounds i at left buffer h (omega (arith, room)) ∙ r.1,
        (λ p l. elim (lt_or_le p 1024) [
          | inl near ↦
              r.3 (at + p) (ground (arith, small, l, near))
              ∙ ground (arith, small, near)
              ∙ sym (h.bytes p near)
              ∙ sym (content-near i p near)
          | inr far ↦
              ap r.0 (ground (arith, small, l, far))
              ∙ r.2 (p - 1024) (ground (arith, small, l, far))
              ∙ content-far i p far
        ]),
        λ a l. r.3 a (ground (arith, small)) ∙ ground arith,
      )

  read_loop-overrun :
      (rounds i at left : ℕ) (buffer : Buffer)
      → HoldsAll (suc rounds) i
      → rounds * 1024 ≤ left
      → buffer_size < at + suc rounds * 1024
      → run (suc rounds) i at left buffer ≡ fault
  read_loop-overrun zero i at left buffer holds more outside =
      run-outside zero i at left buffer (first_block zero i holds) (omega (arith, outside))
  read_loop-overrun (suc rounds) i at left buffer holds more outside =
      let h = first_block _ i holds in
      elim (lt_or_le buffer_size (at + 1024)) [
        | inl here ↦ run-outside (suc rounds) i at left buffer h here
        | inr room ↦
            run-read_loop (suc rounds) i at left buffer h room
            ∙ read_loop-overrun rounds (i + 1) (at + part_size left) (left - part_size left)
                (step_buffer i at h buffer) (later_blocks (suc rounds) i holds)
                (ground (arith, small, more)) (ground (arith, small, more, outside))
      ]

  -- The tests of the function let the read pass.
  run-read_bytes_from_inode :
      (buffer : Buffer) (offset size : ℕ)
      → inode.kind ≡ file
      → 1024 ≤ buffer_size
      → size / 1024 * 1024 ≤ buffer_size
      → offset ≤ inode.size
      → offset % 1024 ≡ 0
      → read_bytes_from_inode sb temp inode buffer buffer_size offset size d
        ≡ answered (run (size / 1024 + 1) (offset / 1024) 0 size buffer)
  unfolding read_bytes_from_inode
  run-read_bytes_from_inode buffer offset size is_f room fits inside aligned =
      let not_zero : (sb.block_size == 0) ≡ false = ground (arith, small) in
      let large : (ltb buffer_size sb.block_size
            || ltb buffer_size (sb.block_size * (size / sb.block_size)))
          ≡ false =
        ground (arith, small, room, fits) in
      rw
        (
          not_zero,
          ap is_file is_f,
          large,
          le→ltb_false inode.size offset inside,
          ap (λ q. size / q) small,
          ap (λ q. offset / q) small,
          ap (λ q. offset % q) small ∙ aligned,
        )
        (run-answered (run (size / 1024 + 1) (offset / 1024) 0 size buffer))

  -- For a file on blocks of 1024 bytes, a buffer with memory for size / 1024 + 1 blocks, and an
  -- offset at the start of a block and inside the file, when that many blocks from there lie on
  -- the device with their pointer blocks and hold a content, the read succeeds without a change
  -- of the device, and the first bytes of the buffer, as many as the size, are those of the
  -- content from the offset on.
  pub read_bytes_from_inode-content :
      (buffer : Buffer) (offset size : ℕ)
      → inode.kind ≡ file
      → (size / 1024 + 1) * 1024 ≤ buffer_size
      → offset ≤ inode.size
      → offset % 1024 ≡ 0
      → ((k : ℕ)
          → k < size / 1024 + 1
          → Holds sb d inode (offset / 1024 + k) (content (offset / 1024 + k)))
      → (b : Buffer) × (read_bytes_from_inode sb temp inode buffer buffer_size offset size d
          ≡ ok (success, b) d)
        × ((p : ℕ) → p < size → b p ≡ content ((offset + p) / 1024) ((offset + p) % 1024))
  read_bytes_from_inode-content buffer offset size is_f room inside aligned holds =
      let r =
        read_loop-Reads (size / 1024 + 1) (offset / 1024) 0 size buffer holds (omega arith)
          (omega (arith, room)) in
      (
        r.0,
        run-read_bytes_from_inode buffer offset size is_f (omega (arith, room))
              (omega (arith, room)) inside aligned
            ∙ ap answered r.1,
        λ p l.
            ap r.0 (omega arith)
            ∙ r.2 p l
            ∙ ap (λ q. content q (p % 1024)) (omega (arith, aligned))
            ∙ ap (λ q. content ((offset + p) / 1024) q) (omega (arith, aligned)),
      )

  -- For a file on blocks of 1024 bytes, a buffer of at least 1024 bytes and the size that is
  -- read, which passes the test of the function, but with memory for fewer than size / 1024 + 1
  -- blocks, and an offset at the start of a block and inside the file, when that many blocks from
  -- there lie on the device with their pointer blocks and hold a content, the read overruns the
  -- memory of the buffer.
  pub read_bytes_from_inode-overrun :
      (buffer : Buffer) (offset size : ℕ)
      → inode.kind ≡ file
      → 1024 ≤ buffer_size
      → size ≤ buffer_size
      → buffer_size < (size / 1024 + 1) * 1024
      → offset ≤ inode.size
      → offset % 1024 ≡ 0
      → ((k : ℕ)
          → k < size / 1024 + 1
          → Holds sb d inode (offset / 1024 + k) (content (offset / 1024 + k)))
      → read_bytes_from_inode sb temp inode buffer buffer_size offset size d ≡ fault
  read_bytes_from_inode-overrun buffer offset size is_f room fits outside inside aligned holds =
      run-read_bytes_from_inode buffer offset size is_f room (omega (arith, fits)) inside aligned
      ∙ ap (λ n. answered (run n (offset / 1024) 0 size buffer)) (omega arith)
      ∙ ap answered (
          read_loop-overrun (size / 1024) (offset / 1024) 0 size buffer
            (λ k l. holds k (omega (arith, l))) (omega arith) (omega (arith, outside)))
