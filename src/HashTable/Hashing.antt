-- ===== src/HashTable/Hashing.antt =====
-- The range of the hash function.
use dionys_os.Prelude.{ℕ, ◌%◌, ◌≤◌, ◌≡◌, ◌≢◌, inl, inr, ltb, arith, some, Bool-cases, ◌↔◌}
use dionys_os.HashTable.{hash, mix}

-- For a modulus that is not 0 the hash exists and is at most the modulus, and it is the modulus
-- itself exactly if the mixed key is.
hash-range :
    (key modulus : ℕ)
    → modulus ≢ 0
    → (h : ℕ) × (hash key modulus ≡ some h) × (h ≤ modulus) × (h ≡ modulus ↔ mix key ≡ modulus)
unfolding hash
hash-range key modulus nz = elim (Bool-cases (ltb modulus (mix key))) [
  | inl big ↦ (
    mix key % modulus,
    ground (arith, big),
    omega arith,
    ((λ e. absurd (omega arith)), λ e. absurd (ground (arith, big, e))),
  )
  | inr small ↦ (mix key, ground (arith, small), ground (arith, small), ((λ e. e), λ e. e))
]
