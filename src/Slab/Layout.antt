-- ===== src/Slab/Layout.antt =====
-- What a slab in memory stands for: its free entries, first to last.
use dionys_os.Prelude.{ℕ, ◌+◌, ◌≤◌, ◌<◌, ◌≡◌, ◌≢◌, ◌⊎◌, List, [], ◌∷◌, arith, update}
use dionys_os.Slab.{Words, Slab, null, cleared}

-- From `p` the first words lead through `xs` to null.
abbrev pub Chain : Words → ℕ → List ℕ → Type 0
Chain m p [] = p ≡ null
Chain m p (x ∷ xs) = (p ≡ x) × (x ≢ null) × Chain m (m x) xs

-- Two entries of a size do not meet.
abbrev pub Apart : (size a b : ℕ) → Type 0
Apart size a b = (a + size ≤ b) ⊎ (b + size ≤ a)

abbrev pub Clear : (size a : ℕ) → List ℕ → Type 0
Clear size a [] = Unit
Clear size a (x ∷ xs) = Apart size a x × Clear size a xs

abbrev pub Spread : (size : ℕ) → List ℕ → Type 0
Spread size [] = Unit
Spread size (x ∷ xs) = Clear size x xs × Spread size xs

-- All entries lie between two addresses.
abbrev pub Inside : (low high size : ℕ) → List ℕ → Type 0
Inside low high size [] = Unit
Inside low high size (x ∷ xs) = ((low ≤ x) × (x + size ≤ high)) × Inside low high size xs

pub record HasFree (m : Words) (s : Slab) (xs : List ℕ) : Type 0 where
  pub chain : Chain m s.first_free xs
  pub spread : Spread s.entry_size xs
  pub inside : Inside s.start_address s.end_address s.entry_size xs
  pub size : 0 < s.entry_size

-- Clearing an entry keeps a chain that it does not meet.
pub Chain-cleared :
    (m : Words) (a size p : ℕ) (xs : List ℕ)
    → 0 < size
    → Clear size a xs
    → Chain m p xs
    → Chain (cleared a size m) p xs
Chain-cleared m a size p [] z c h = h
Chain-cleared m a size p (x ∷ xs) z c h =
    let rest = Chain-cleared m a size (m x) xs z c.1 h.2 in ground (arith, rest)

pub Chain-update :
    (m : Words) (a v size p : ℕ) (xs : List ℕ)
    → 0 < size
    → Clear size a xs
    → Chain m p xs
    → Chain (update m a v) p xs
Chain-update m a v size p [] z c h = h
Chain-update m a v size p (x ∷ xs) z c h =
    let rest = Chain-update m a v size (m x) xs z c.1 h.2 in ground (arith, rest)
