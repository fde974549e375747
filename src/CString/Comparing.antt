-- ===== src/CString/Comparing.antt =====
-- Comparing strings.
use dionys_os.Prelude.{
  ◌⊎◌, inl, inr, refl, Bool-cases, ◌==◌, ℕ, zero, suc, ◌+◌, ◌<◌, ◌≤◌, ◌≡◌, ◌≢◌, some, arith,
}
use dionys_os.CString.{Memory, strcmp, safe_strcmp}
use dionys_os.CString.Measuring.{IsString, IsString-tail}

-- The first `n` bytes of the two strings are the same.
abbrev pub Agrees : Memory → (p q n : ℕ) → Type 0
Agrees m p q n = (i : ℕ) → i < n → m (p + i) ≡ m (q + i)

Agrees-tail : (m : Memory) (p q n : ℕ) → Agrees m p q (suc n) → Agrees m (p + 1) (q + 1) n
Agrees-tail m p q n agrees i h = ground (arith, agrees (i + 1) (omega arith))

-- If a string of a bytes is a prefix of another one, with fuel above a, strcmp ends and returns 1
-- for the two in either order.
strcmp-prefix :
    (fuel p q a b : ℕ) (m : Memory)
    → IsString m p a
    → IsString m q b
    → a ≤ b
    → a < fuel
    → Agrees m p q a
    → (strcmp fuel p q m ≡ some 1) × (strcmp fuel q p m ≡ some 1)
unfolding strcmp
strcmp-prefix zero p q a b m sp sq l f agrees = absurd (omega arith)
strcmp-prefix (suc k) p q zero b m sp sq l f agrees =
    (ground (arith, sp.terminator), ground (arith, sp.terminator))
strcmp-prefix (suc k) p q (suc a) zero m sp sq l f agrees = absurd (omega arith)
strcmp-prefix (suc k) p q (suc a) (suc b) m sp sq l f agrees =
    let rest =
      strcmp-prefix k (p + 1) (q + 1) a b m (IsString-tail m p a sp) (IsString-tail m q b sq)
        (omega arith) (omega arith) (Agrees-tail m p q a agrees) in
    (
      ground (arith, agrees 0, sp.inner 0, sq.inner 0, rest.0),
      ground (arith, agrees 0, sp.inner 0, sq.inner 0, rest.1),
    )

-- If two strings first differ at a place i inside both, with fuel above i, strcmp ends and
-- returns 0.
strcmp-differ :
    (fuel p q a b i : ℕ) (m : Memory)
    → IsString m p a
    → IsString m q b
    → i < a
    → i < b
    → i < fuel
    → Agrees m p q i
    → m (p + i) ≢ m (q + i)
    → strcmp fuel p q m ≡ some 0
unfolding strcmp
strcmp-differ zero p q a b i m sp sq la lb f agrees d = absurd (omega arith)
strcmp-differ (suc k) p q zero b i m sp sq la lb f agrees d = absurd (omega arith)
strcmp-differ (suc k) p q (suc a) zero i m sp sq la lb f agrees d = absurd (omega arith)
strcmp-differ (suc k) p q (suc a) (suc b) zero m sp sq la lb f agrees d =
    ground (arith, sp.inner 0, sq.inner 0, d)
strcmp-differ (suc k) p q (suc a) (suc b) (suc i) m sp sq la lb f agrees d =
    let rest =
      strcmp-differ k (p + 1) (q + 1) a b i m (IsString-tail m p a sp) (IsString-tail m q b sq)
        (omega arith) (omega arith) (omega arith) (Agrees-tail m p q i agrees)
        (ground (arith, d)) in
    ground (arith, agrees 0, sp.inner 0, sq.inner 0, rest)

-- The strings agree up to the end of one of them, or for `n` bytes.
abbrev pub Matches : Memory → (p q n : ℕ) → Type 0
Matches m p q n =
    (k : ℕ) × (k ≤ n) × Agrees m p q k × ((k ≡ n) ⊎ ((m (p + k) ≡ 0) ⊎ (m (q + k) ≡ 0)))

-- Neither string ends before its place `n`.
abbrev pub Inside : Memory → (p q n : ℕ) → Type 0
Inside m p q n = (i : ℕ) → i < n → (m (p + i) ≢ 0) × (m (q + i) ≢ 0)

-- The strings differ at a place inside both, among the first `n` bytes.
abbrev pub Differs : Memory → (p q n : ℕ) → Type 0
Differs m p q n = (k : ℕ) × (k < n) × (m (p + k) ≢ m (q + k)) × Inside m p q (suc k)

Agrees-next :
    (m : Memory) (p q k : ℕ) → m p ≡ m q → Agrees m (p + 1) (q + 1) k → Agrees m p q (suc k)
Agrees-next m p q k e h zero l = ground (arith, e)
Agrees-next m p q k e h (suc i) l = ground (arith, h i (omega arith))

Inside-next :
    (m : Memory) (p q k : ℕ) → m p ≢ 0 → m q ≢ 0 → Inside m (p + 1) (q + 1) k → Inside m p q (suc k)
Inside-next m p q k a b h zero l = (ground (arith, a), ground (arith, b))
Inside-next m p q k a b h (suc i) l =
    (ground (arith, h i (omega arith)), ground (arith, h i (omega arith)))

Matches-next :
    (m : Memory) (p q n : ℕ) → m p ≡ m q → Matches m (p + 1) (q + 1) n → Matches m p q (suc n)
Matches-next m p q n e h =
    (suc h.0, omega (arith, h.1), Agrees-next m p q h.0 e h.2, ground (arith, h.3))

Differs-next :
    (m : Memory) (p q n : ℕ)
    → m p ≢ 0
    → m q ≢ 0
    → Differs m (p + 1) (q + 1) n
    → Differs m p q (suc n)
Differs-next m p q n a b h =
    (suc h.0, omega (arith, h.1), ground (arith, h.2), Inside-next m p q (suc h.0) a b h.3)

-- safe_strcmp tells the two apart.
pub safe_strcmp-cases :
    (p q n : ℕ) (m : Memory)
    → ((safe_strcmp p q n m ≡ 1) × Matches m p q n) ⊎ ((safe_strcmp p q n m ≡ 0) × Differs m p q n)
unfolding safe_strcmp
safe_strcmp-cases p q zero m = inl (refl, (0, omega arith, (λ i l. absurd (omega arith)), inl refl))
safe_strcmp-cases p q (suc n) m = elim (Bool-cases (m p == 0)) [
  | inl e ↦ inl (
    ground (arith, e),
    (0, omega arith, (λ i l. absurd (omega arith)), inr (inl (ground (arith, e)))),
  )
  | inr ne ↦ elim (Bool-cases (m q == 0)) [
    | inl e ↦ inl (
      ground (arith, e),
      (0, omega arith, (λ i l. absurd (omega arith)), inr (inr (ground (arith, e)))),
    )
    | inr nf ↦ elim (Bool-cases (m p == m q)) [
      | inl same ↦ elim (safe_strcmp-cases (p + 1) (q + 1) n m) [
        | inl h ↦ inl (rw (ne, nf, same) h.0, Matches-next m p q n (ground (arith, same)) h.1)
        | inr h ↦ inr (
          rw (ne, nf, same) h.0,
          Differs-next m p q n (ground (arith, ne)) (ground (arith, nf)) h.1,
        )
      ]
      | inr other ↦ inr (
        rw (ne, nf, other) refl,
        (
          0,
          omega arith,
          ground (arith, other),
          λ i l. let z : i ≡ 0 = omega arith in rw z (ground (arith, ne), ground (arith, nf)),
        ),
      )
    ]
  ]
]
