-- ===== src/Memory.antt =====
-- kernel/src/boot/main.c: the four memory functions. Memory is one array of bytes.
pub mod Moving
use dionys_os.Prelude.{ℕ, zero, suc, ◌+◌, ltb, ◌==◌, if◌then◌else◌, update}

abbrev pub Bytes : Type 0
Bytes = ℕ → ℕ

-- `pdest[i] = psrc[i]`
abbrev pub copy_byte : (dest src i : ℕ) → Bytes → Bytes
copy_byte dest src i m = update m (dest + i) (m (src + i))

-- `left` bytes from index `i` on, upwards.
unfoldable pub copy_up : (left dest src i : ℕ) → Bytes → Bytes
copy_up zero dest src i m = m
copy_up (suc left) dest src i m = copy_up left dest src (i + 1) (copy_byte dest src i m)

-- The first `n` bytes, downwards.
unfoldable pub copy_down : (n dest src : ℕ) → Bytes → Bytes
copy_down zero dest src m = m
copy_down (suc n) dest src m = copy_down n dest src (copy_byte dest src n m)

unfoldable pub memcpy : (dest src n : ℕ) → Bytes → Bytes
memcpy dest src n m = copy_up n dest src 0 m

unfoldable pub set_up : (left s c i : ℕ) → Bytes → Bytes
set_up zero s c i m = m
set_up (suc left) s c i m = set_up left s c (i + 1) (update m (s + i) c)

-- `c` is the value as a `uint8_t`.
unfoldable pub memset : (s c n : ℕ) → Bytes → Bytes
memset s c n m = set_up n s c 0 m

unfoldable pub memmove : (dest src n : ℕ) → Bytes → Bytes
memmove dest src n m =
    if ltb dest src
    then copy_up n dest src 0 m
    else if ltb src dest
    then copy_down n dest src m
    else m

-- The results -1, 0 and 1 of `memcmp`.
pub data Comparison : Type 0 where
  below same above : Comparison

unfoldable pub compare_up : (left s1 s2 i : ℕ) → Bytes → Comparison
compare_up zero s1 s2 i m = same
compare_up (suc left) s1 s2 i m =
    let rest = compare_up left s1 s2 (i + 1) m in
    if m (s1 + i) == m (s2 + i)
    then rest
    else if ltb (m (s1 + i)) (m (s2 + i))
    then below
    else above

unfoldable pub memcmp : (s1 s2 n : ℕ) → Bytes → Comparison
memcmp s1 s2 n m = compare_up n s1 s2 0 m
