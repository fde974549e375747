-- ===== src/Diosfs/Index.antt =====
-- The map from a block's position in a file to the pointers that lead to it:
-- `diosfs_indirection_indices_for_block_number` of kernel/src/filesystem/diosfs.c.
use dionys_os.Prelude.{
  ℕ, ◌+◌, ◌-◌, ◌*◌, ◌/◌, ◌%◌, ◌^◌, ◌≤◌, ◌<◌, ◌≡◌, Option, none, some, arith, ltb, if◌then◌else◌,
  ◌↔◌, refl, lt_or_le, inl, inr,
}

abbrev pub num_blocks_direct : ℕ
num_blocks_direct = 10

-- A block of 1024 bytes holds 128 pointers of eight bytes.
abbrev pub num_blocks_in_indirection_block : ℕ
num_blocks_in_indirection_block = 1024 / 8

abbrev pub num_blocks_double_indirection : ℕ
num_blocks_double_indirection = num_blocks_in_indirection_block * num_blocks_in_indirection_block

abbrev pub num_blocks_triple_indirection : ℕ
num_blocks_triple_indirection =
    num_blocks_in_indirection_block * num_blocks_in_indirection_block
    * num_blocks_in_indirection_block

-- The first block number that the function refuses.
abbrev pub max_block_number : ℕ
max_block_number =
    num_blocks_triple_indirection + num_blocks_double_indirection + num_blocks_in_indirection_block
    + num_blocks_direct

-- `struct diosfs_byte_offset_indices`; its fields are `uint16_t`.
pub record ByteOffsetIndices : Type 0 where
  pub direct_block_number : ℕ
  pub third_level_block_number : ℕ
  pub second_level_block_number : ℕ
  pub first_level_block_number : ℕ
  pub block_number : ℕ
  pub levels_indirection : ℕ

abbrev zeroed : ByteOffsetIndices
zeroed = record {
  direct_block_number = 0;
  third_level_block_number = 0;
  second_level_block_number = 0;
  first_level_block_number = 0;
  block_number = 0;
  levels_indirection = 0;
}

-- A store to a `uint16_t` field.
abbrev u16 : ℕ → ℕ
u16 n = n % 2 ^ 16

one_level : ℕ → ByteOffsetIndices
one_level n = record zeroed {
  first_level_block_number = u16 (n % num_blocks_in_indirection_block);
  levels_indirection = 1;
}

two_levels : ℕ → ByteOffsetIndices
two_levels n = record zeroed {
  second_level_block_number = u16 (n / num_blocks_in_indirection_block);
  first_level_block_number = u16 (n % num_blocks_in_indirection_block);
  levels_indirection = 2;
}

-- The second index is computed from the third as it was stored.
three_levels : ℕ → ByteOffsetIndices
three_levels n =
    let third = u16 (n / num_blocks_double_indirection) in
    record zeroed {
      third_level_block_number = third;
      second_level_block_number =
          u16 ((n - third * num_blocks_double_indirection) / num_blocks_in_indirection_block);
      first_level_block_number = u16 (n % num_blocks_in_indirection_block);
      levels_indirection = 3;
    }

-- `none` is the panic. Each subtraction is behind a test that makes it exact.
unfoldable pub indirection_indices : ℕ → Option ByteOffsetIndices
unfolding one_level two_levels three_levels
indirection_indices n =
    if ltb n num_blocks_direct
    then some (record zeroed { direct_block_number = u16 n })
    else if ltb n (num_blocks_in_indirection_block + num_blocks_direct)
    then some (one_level (n - num_blocks_direct))
    else if ltb n
        (num_blocks_double_indirection + num_blocks_in_indirection_block + num_blocks_direct)
    then some (two_levels (n - (num_blocks_in_indirection_block + num_blocks_direct)))
    else if ltb n max_block_number
    then some (
        three_levels (
          n
          - (num_blocks_double_indirection + num_blocks_in_indirection_block + num_blocks_direct)))
    else none

-- Where the pointer to a block of a file is: in the inode, or behind one, two or three blocks of
-- pointers, the outer ones first.
pub data BlockPath : Type 0 where
  in_inode : (index : ℕ) → BlockPath
  in_single : (index : ℕ) → BlockPath
  in_double : (outer index : ℕ) → BlockPath
  in_triple : (outer middle index : ℕ) → BlockPath

-- Every index lies inside the array that it is used with.
abbrev pub InBounds : BlockPath → Type 0
InBounds (in_inode i) = i < 10
InBounds (in_single i) = i < 128
InBounds (in_double j i) = (j < 128) × (i < 128)
InBounds (in_triple k j i) = (k < 128) × (j < 128) × (i < 128)

-- The position in the file, as the layout of an inode has it: first the blocks of the inode, then
-- those behind the singly, the doubly and the triply indirect block, each in the order of the
-- pointers.
abbrev pub position : BlockPath → ℕ
position (in_inode i) = i
position (in_single i) = 10 + i
position (in_double j i) = 10 + 128 + 128 * j + i
position (in_triple k j i) = 10 + 128 + 128 * 128 + 128 * 128 * k + 128 * j + i

abbrev pub indices_of : BlockPath → ByteOffsetIndices
indices_of (in_inode i) = record zeroed { direct_block_number = i }
indices_of (in_single i) = record zeroed { first_level_block_number = i; levels_indirection = 1 }
indices_of (in_double j i) = record zeroed {
  second_level_block_number = j;
  first_level_block_number = i;
  levels_indirection = 2;
}
indices_of (in_triple k j i) = record zeroed {
  third_level_block_number = k;
  second_level_block_number = j;
  first_level_block_number = i;
  levels_indirection = 3;
}

-- The function computes the path of a position.
pub indirection_indices-position :
    (path : BlockPath)
    → InBounds path
    → indirection_indices (position path) ≡ some (indices_of path)
unfolding indirection_indices
indirection_indices-position (in_inode i) h = ground (arith, h)
indirection_indices-position (in_single i) h = ground (arith, h)
indirection_indices-position (in_double j i) h = ground (arith, h)
indirection_indices-position (in_triple k j i) h = ground (arith, h)

-- Every position below the largest number of blocks of a file has a path.
position-onto :
    (n : ℕ) → n < max_block_number → (path : BlockPath) × InBounds path × (position path ≡ n)
position-onto n h = elim (lt_or_le n 10) [
  | inl d ↦ (in_inode n, d, refl)
  | inr m₁ ↦ elim (lt_or_le n 138) [
    | inl d ↦ (in_single (n - 10), omega arith, omega arith)
    | inr m₂ ↦ elim (lt_or_le n 16522) [
      | inl d ↦
          (in_double ((n - 138) / 128) ((n - 138) % 128), (omega arith, omega arith), omega arith)
      | inr m₃ ↦
          (let r = n - 16522 in
            (
              in_triple (r / 16384) (r % 16384 / 128) (r % 128),
              (omega arith, omega arith, omega arith),
              omega arith,
            ))
    ]
  ]
]

-- The indices of a block number do not exist, which is a panic, exactly if the number is not
-- below the largest number of blocks of a file.
indirection_indices-none : (n : ℕ) → (indirection_indices n ≡ none) ↔ (max_block_number ≤ n)
unfolding indirection_indices
indirection_indices-none n = (λ h. ground arith, λ h. ground arith)
