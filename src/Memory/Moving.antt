-- ===== src/Memory/Moving.antt =====
-- `memmove` between ranges that may overlap.
use dionys_os.Prelude.{
  ℕ, zero, suc, ◌+◌, ◌-◌, ◌<◌, ◌≡◌, ltb, if◌then◌else◌, arith, refl, ◌∙◌, fun_ext, Bool-cases, inl,
  inr,
}
use dionys_os.Memory.{Bytes, copy_up, copy_down, memmove, copy_byte}

-- The bytes from `dest + i` to `dest + i + size` replaced by those of the source.
abbrev pub moved : (i size dest src : ℕ) → Bytes → Bytes
moved i size dest src m a =
    if ltb a (dest + i)
    then m a
    else if ltb a (dest + (i + size))
    then m (src + (a - dest))
    else m a

copy_up-moved :
    (left dest src i : ℕ) (m : Bytes)
    → dest < src
    → copy_up left dest src i m ≡ moved i left dest src m
unfolding copy_up
copy_up-moved zero dest src i m h = fun_ext λ a. ground arith
copy_up-moved (suc left) dest src i m h =
    copy_up-moved left dest src (i + 1) (copy_byte dest src i m) h ∙ (fun_ext λ a. ground arith)

copy_down-moved :
    (n dest src : ℕ) (m : Bytes) → src < dest → copy_down n dest src m ≡ moved 0 n dest src m
unfolding copy_down
copy_down-moved zero dest src m h = fun_ext λ a. ground arith
copy_down-moved (suc n) dest src m h =
    copy_down-moved n dest src (copy_byte dest src n m) h ∙ (fun_ext λ a. ground arith)

-- Whatever the two ranges of n bytes are, overlapping or not, memmove leaves at the destination
-- the n bytes that the source held before, and changes no other byte.
pub memmove-moved : (dest src n : ℕ) (m : Bytes) → memmove dest src n m ≡ moved 0 n dest src m
unfolding memmove
memmove-moved dest src n m = fun_ext λ a. elim (Bool-cases (ltb dest src)) [
  | inl up ↦ rw (up, copy_up-moved n dest src 0 m (ground (arith, up))) refl
  | inr other ↦ elim (Bool-cases (ltb src dest)) [
    | inl down ↦ rw (other, down, copy_down-moved n dest src m (ground (arith, down))) refl
    | inr same_place ↦ ground (arith, other, same_place)
  ]
]
