-- ===== src/CString/Measuring.antt =====
-- The lengths of strings.
use dionys_os.Prelude.{
  ℕ, zero, suc, ◌+◌, ◌<◌, ◌≤◌, ◌≡◌, ◌≢◌, leb, if◌then◌else◌, none, some, arith, le_cases,
  Bool-cases, inl, inr,
}
use dionys_os.CString.{Memory, strlen, strlen_loop, safe_strlen, safe_strlen_loop}

-- The string at `p` has `n` bytes before its terminator.
pub record IsString (m : Memory) (p n : ℕ) : Type 0 where
  pub inner : (i : ℕ) → i < n → m (p + i) ≢ 0
  pub terminator : m (p + n) ≡ 0

strlen_loop-some :
    (fuel p i n : ℕ) (m : Memory)
    → IsString m p n
    → i ≤ n
    → n < fuel + i
    → strlen_loop fuel p i m ≡ some n
unfolding strlen_loop
strlen_loop-some zero p i n m str h f = absurd (omega arith)
strlen_loop-some (suc k) p i n m str h f = elim (le_cases i n h) [
  | inl same ↦ ground (arith, same, str.terminator)
  | inr less ↦
      ground
        (arith, str.inner i less, strlen_loop-some k p (i + 1) n m str (omega arith) (omega arith))
]

-- For a string of n bytes, with fuel above n, strlen ends and returns n.
strlen-some : (fuel p n : ℕ) (m : Memory) → IsString m p n → n < fuel → strlen fuel p m ≡ some n
unfolding strlen
strlen-some fuel p n m str f = strlen_loop-some fuel p 0 n m str (omega arith) (omega arith)

safe_strlen_loop-short :
    (fuel p i n max : ℕ) (m : Memory)
    → IsString m p n
    → i ≤ n
    → n ≤ max
    → max + 1 < fuel + i
    → safe_strlen_loop fuel p i max m ≡ n
unfolding safe_strlen_loop
safe_strlen_loop-short zero p i n max m str h l f = absurd (omega arith)
safe_strlen_loop-short (suc k) p i n max m str h l f = elim (le_cases i n h) [
  | inl same ↦ ground (arith, same, str.terminator)
  | inr less ↦ ground (
    arith,
    str.inner i less,
    safe_strlen_loop-short k p (i + 1) n max m str (omega arith) l (omega arith),
  )
]

safe_strlen_loop-long :
    (fuel p i n max : ℕ) (m : Memory)
    → IsString m p n
    → i ≤ max + 1
    → max < n
    → max + 1 < fuel + i
    → safe_strlen_loop fuel p i max m ≡ max + 1
unfolding safe_strlen_loop
safe_strlen_loop-long zero p i n max m str h l f = omega arith
safe_strlen_loop-long (suc k) p i n max m str h l f = elim (le_cases i (max + 1) h) [
  | inl same ↦ ground (arith, same)
  | inr less ↦ ground (
    arith,
    str.inner i (omega arith),
    safe_strlen_loop-long k p (i + 1) n max m str (omega arith) l (omega arith),
  )
]

-- For a string of n bytes, safe_strlen returns n if n is at most max, and KERN_OVERFLOW
-- otherwise.
safe_strlen-eq :
    (p n max : ℕ) (m : Memory)
    → IsString m p n
    → safe_strlen p max m ≡ (if leb n max then some n else none)
unfolding safe_strlen
safe_strlen-eq p n max m str = elim (Bool-cases (leb n max)) [
  | inl fits ↦ ground (
    arith,
    fits,
    safe_strlen_loop-short (max + 2) p 0 n max m str (omega arith) (ground (arith, fits))
        (omega arith),
  )
  | inr over ↦ ground (
    arith,
    over,
    safe_strlen_loop-long (max + 2) p 0 n max m str (omega arith) (ground (arith, over))
        (omega arith),
  )
]

pub IsString-tail : (m : Memory) (p n : ℕ) → IsString m p (suc n) → IsString m (p + 1) n
IsString-tail m p n str = record {
  inner = λ i h. ground (arith, str.inner (i + 1) (omega arith));
  terminator = ground (arith, str.terminator);
}
