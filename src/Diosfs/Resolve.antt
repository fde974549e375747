-- ===== src/Diosfs/Resolve.antt =====
-- From a position in a file to the data block there:
-- `diosfs_get_relative_block_number_from_file`.
use dionys_os.Prelude.{
  ℕ, zero, suc, ◌+◌, ◌*◌, ◌<◌, ◌≤◌, ◌≡◌, arith, if◌then◌else◌, ◌==◌, ok, panic, Cmd, ◌>>=◌, pure,
  none, some, refl,
}
use dionys_os.Diosfs.Index.{
  ByteOffsetIndices, indirection_indices, num_blocks_in_indirection_block, BlockPath, in_inode,
  in_single, in_double, in_triple, InBounds, position, indices_of, indirection_indices-position,
}
use dionys_os.Diosfs.Device.{
  Buffer, Device, Superblock, read_block_by_number, read_block_by_number-ok, IsData, data_byte,
  loaded,
}

-- `n` bytes from `at` on, the least significant first.
unfoldable pub load_le : ℕ → Buffer → ℕ → ℕ
load_le zero buffer at = 0
load_le (suc n) buffer at = buffer at + 256 * load_le n buffer (at + 1)

-- Element `i` of a `uint64_t` array that lies over a buffer.
abbrev pub load64 : Buffer → ℕ → ℕ
load64 buffer i = load_le 8 buffer (8 * i)

-- Two buffers that agree on `n` bytes hold the same number there.
pub load_le-congr :
    (n : ℕ) (b c : Buffer) (at : ℕ)
    → ((i : ℕ) → at ≤ i → i < at + n → b i ≡ c i)
    → load_le n b at ≡ load_le n c at
unfolding load_le
load_le-congr zero b c at h = refl
load_le-congr (suc n) b c at h = omega (
  arith,
  h at (omega arith) (omega arith),
  load_le-congr n b c (at + 1) (λ i p q. h i (omega arith) (omega arith)),
)

-- The block pointers of `struct diosfs_inode`.
pub record BlockPointers : Type 0 where
  pub blocks : ℕ → ℕ
  pub single_indirect : ℕ
  pub double_indirect : ℕ
  pub triple_indirect : ℕ

-- `temp` is what the page from `kmalloc` holds. The other panic of the function is that of the
-- indices.
module _ (sb : Superblock) (temp : Buffer) where
  follow : BlockPointers → ByteOffsetIndices → Cmd Device ℕ
  unfolding read_block_by_number
  follow inode ix =
      if ix.levels_indirection == 0
      then pure (inode.blocks ix.direct_block_number)
      else if ix.levels_indirection == 1
      then (do
        b1 ← read_block_by_number sb inode.single_indirect temp 0 sb.block_size
        pure (load64 b1 ix.first_level_block_number))
      else if ix.levels_indirection == 2
      then (do
        b1 ← read_block_by_number sb inode.double_indirect temp 0 sb.block_size
        b2 ← read_block_by_number sb (load64 b1 ix.second_level_block_number) b1 0 sb.block_size
        pure (load64 b2 ix.first_level_block_number))
      else if ix.levels_indirection == 3
      then (do
        b1 ← read_block_by_number sb inode.triple_indirect temp 0 sb.block_size
        b2 ← read_block_by_number sb (load64 b1 ix.third_level_block_number) b1 0 sb.block_size
        b3 ← read_block_by_number sb (load64 b2 ix.second_level_block_number) b2 0 sb.block_size
        pure (load64 b3 ix.first_level_block_number))
      else λ _. panic

  unfoldable pub get_relative_block_number : BlockPointers → ℕ → Cmd Device ℕ
  unfolding follow indirection_indices
  get_relative_block_number inode n = elim (indirection_indices n) [
    | none ↦ λ _. panic
    | some ix ↦ follow inode ix
  ]

-- Pointer `i` of the pointer block `n` on the device.
unfoldable pub pointer : Superblock → Device → ℕ → ℕ → ℕ
pointer sb d n i = load64 (data_byte sb d n) i

-- The block that a path leads to, as the layout of an inode defines it.
unfoldable pub block_at : Superblock → Device → BlockPointers → BlockPath → ℕ
unfolding pointer
block_at sb d inode (in_inode i) = inode.blocks i
block_at sb d inode (in_single i) = pointer sb d inode.single_indirect i
block_at sb d inode (in_double j i) = pointer sb d (pointer sb d inode.double_indirect j) i
block_at sb d inode (in_triple k j i) =
    pointer sb d (pointer sb d (pointer sb d inode.triple_indirect k) j) i

-- The pointer blocks on the way lie on the device.
abbrev pub Reachable : Superblock → Device → BlockPointers → BlockPath → Type 0
Reachable sb d inode (in_inode i) = Unit
Reachable sb d inode (in_single i) = IsData sb d inode.single_indirect
Reachable sb d inode (in_double j i) =
    IsData sb d inode.double_indirect × IsData sb d (pointer sb d inode.double_indirect j)
Reachable sb d inode (in_triple k j i) =
    IsData sb d inode.triple_indirect
    × IsData sb d (pointer sb d inode.triple_indirect k)
    × IsData sb d (pointer sb d (pointer sb d inode.triple_indirect k) j)

load64-loaded :
    (sb : Superblock) (d : Device) (n : ℕ) (buffer : Buffer) (i : ℕ)
    → i < num_blocks_in_indirection_block
    → load64 (loaded sb d n buffer) i ≡ pointer sb d n i
unfolding pointer
load64-loaded sb d n buffer i h =
    load_le-congr 8 (loaded sb d n buffer) (data_byte sb d n) (8 * i) (λ j p q. ground arith)

module _ (sb : Superblock) (temp : Buffer) {d : Device} (inode : BlockPointers) where
  open inode use {single_indirect, double_indirect, triple_indirect}

  read :
      (n : ℕ) (b : Buffer)
      → IsData sb d n
      → read_block_by_number sb n b 0 sb.block_size d ≡ ok (loaded sb d n b) d
  read n b = read_block_by_number-ok sb d n b 0 sb.block_size

  follow-block_at :
      (path : BlockPath)
      → InBounds path
      → Reachable sb d inode path
      → follow sb temp inode (indices_of path) d ≡ ok (block_at sb d inode path) d
  unfolding follow block_at
  follow-block_at (in_inode i) bounds reach = refl
  follow-block_at (in_single i) bounds reach =
      rw (read single_indirect temp reach, load64-loaded sb d single_indirect temp i bounds) refl
  follow-block_at (in_double j i) bounds reach =
      rw
        (
          read double_indirect temp reach.0,
          load64-loaded sb d double_indirect temp j bounds.0,
          read _ _ reach.1,
          load64-loaded sb d _ _ i bounds.1,
        )
        refl
  follow-block_at (in_triple k j i) bounds reach =
      rw
        (
          read triple_indirect temp reach.0,
          load64-loaded sb d triple_indirect temp k bounds.0,
          read _ _ reach.1,
          load64-loaded sb d _ _ j bounds.1,
          read _ _ reach.2,
          load64-loaded sb d _ _ i bounds.2,
        )
        refl

-- For every path of an inode (an index of the inode, or the indices into the pointer blocks
-- behind the singly, doubly or triply indirect block) with its indices in bounds and its pointer
-- blocks on the device, the function returns, for the position in the file that the layout gives
-- to the path, the block that the path leads to, whatever the scratch page held before, and
-- leaves the device unchanged.
pub get_relative_block_number-block_at :
    (sb : Superblock) (temp : Buffer) (d : Device) (inode : BlockPointers) (path : BlockPath)
    → InBounds path
    → Reachable sb d inode path
    → get_relative_block_number sb temp inode (position path) d ≡ ok (block_at sb d inode path) d
unfolding get_relative_block_number
get_relative_block_number-block_at sb temp d inode path bounds reach =
    rw (get_relative_block_number, indirection_indices-position path bounds)
      (follow-block_at sb temp inode path bounds reach)
