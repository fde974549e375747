-- ===== src/Prelude/Table.antt =====
-- A test of every number below a bound, run once as a table.
use Prim.Native.Nat.{ℕ, zero, suc, ◌<◌}
use mathlib.Core.Path.{◌≡◌, refl}
use mathlib.Core.Logic.{inl, inr}
use mathlib.Core.Bool.{Bool, true, false}
use native.Mathlib.Omega.{arith}
use dionys_os.Prelude.Tests.{if◌then◌else◌, Bool-cases}

unfoldable pub tabulated : (bound : ℕ) (test : ℕ → Bool) → Bool
tabulated zero test = true
tabulated (suc last) test = if test last then tabulated last test else false

-- The table speaks for each of its numbers.
pub tabulated-entry :
    (bound : ℕ) (test : ℕ → Bool) (entry : ℕ)
    → tabulated bound test ≡ true
    → entry < bound
    → test entry ≡ true
unfolding tabulated
tabulated-entry zero test entry table below = absurd (omega (arith, below))
tabulated-entry (suc last) test entry table below =
    let earlier = tabulated-entry last test entry in
    elim (Bool-cases (test last)) [
      | inl hit ↦ ground (arith, hit, earlier)
      | inr miss ↦ ground (arith, miss)
    ]

-- A table of facts that hold is filled.
pub tabulated-filled :
    (bound : ℕ) (test : ℕ → Bool)
    → ((entry : ℕ) → entry < bound → test entry ≡ true)
    → tabulated bound test ≡ true
unfolding tabulated
tabulated-filled zero test each = refl
tabulated-filled (suc last) test each =
    let earlier = tabulated-filled last test (λ entry below. each entry (omega arith)) in
    rw (each last (omega arith)) earlier
