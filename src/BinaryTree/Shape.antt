-- ===== src/BinaryTree/Shape.antt =====
-- Trees in memory: which abstract tree the nodes below a pointer are.
use dionys_os.Prelude.{
  ℕ, ◌+◌, ◌^◌, ◌≤◌, ◌<◌, ◌≡◌, ◌≢◌, Bool, true, false, ◌||◌, ◌==◌, List, length, arith, sym, ap, ◌∙◌,
  inl, inr, Bool-cases, subst,
}
use dionys_os.BinaryTree.{Nodes, State, null}
use dionys_os.SinglyLinkedList.Values.{sound}

-- A node is its address, its key and its bucket.
pub data Tree : Type 0 where
  leaf : Tree
  node : Tree → (address key : ℕ) → (values : List ℕ) → Tree → Tree

abbrev pub has : Tree → ℕ → Bool
has leaf b = false
has (node l p k xs r) b = (b == p) || has l b || has r b

abbrev pub nodes_in : Tree → ℕ
nodes_in leaf = 0
nodes_in (node l p k xs r) = 1 + nodes_in l + nodes_in r

-- The tree below `ptr`, whose parent is `up`. The buckets have their tails.
abbrev pub IsTree : (m : Nodes) (up ptr : ℕ) → Tree → Type 0
IsTree m up ptr leaf = ptr ≡ null
IsTree m up ptr (node l p k xs r) =
    (ptr ≡ p)
    × (p ≢ null)
    × (m.live p ≡ true)
    × (m.parent p ≡ up)
    × (m.key p ≡ k)
    × (m.bucket p ≡ sound xs)
    × IsTree m p (m.left p) l
    × IsTree m p (m.right p) r

abbrev pub Apart : Tree → Tree → Type 0
Apart t u = (b : ℕ) → has t b ≡ true → has u b ≡ false

-- No node is twice in the tree.
abbrev pub Distinct : Tree → Type 0
Distinct leaf = Unit
Distinct (node l p k xs r) =
    (has l p ≡ false) × (has r p ≡ false) × Apart l r × Distinct l × Distinct r

-- The keys lie between the bounds, in the order of a search tree.
abbrev pub Ordered : (low high : ℕ) → Tree → Type 0
Ordered low high leaf = Unit
Ordered low high (node l p k xs r) =
    (low ≤ k) × (k < high) × Ordered low k l × Ordered (k + 1) high r

-- No bucket is empty.
abbrev pub Filled : Tree → Type 0
Filled leaf = Unit
Filled (node l p k xs r) = (1 ≤ length xs) × Filled l × Filled r

-- The nodes of a state are the tree `t`, which is a search tree for 32-bit keys.
pub record IsBinaryTree (s : State) (t : Tree) : Type 0 where
  pub shape : IsTree s.nodes null s.root t
  pub distinct : Distinct t
  pub ordered : Ordered 0 (2 ^ 32) t
  pub filled : Filled t
  pub count : s.node_count ≡ nodes_in t

-- A node is the same in both memories.
pub record Same (m m' : Nodes) (b : ℕ) : Type 0 where
  pub live : m'.live b ≡ m.live b
  pub parent : m'.parent b ≡ m.parent b
  pub left : m'.left b ≡ m.left b
  pub right : m'.right b ≡ m.right b
  pub key : m'.key b ≡ m.key b
  pub bucket : m'.bucket b ≡ m.bucket b

pub IsTree-frame :
    (m m' : Nodes) (t : Tree) (up ptr : ℕ)
    → ((b : ℕ) → has t b ≡ true → Same m m' b)
    → IsTree m up ptr t
    → IsTree m' up ptr t
IsTree-frame m m' leaf up ptr same is = is
IsTree-frame m m' (node l p k xs r) up ptr same is =
    let here = same p (ground arith) in
    (
      is.0,
      is.1,
      here.live ∙ is.2,
      here.parent ∙ is.3,
      here.key ∙ is.4,
      here.bucket ∙ is.5,
      subst (λ q. IsTree m' p q l) (sym here.left)
          (IsTree-frame m m' l p (m.left p) (λ b h. same b (ground (arith, h))) is.6),
      subst (λ q. IsTree m' p q r) (sym here.right)
          (IsTree-frame m m' r p (m.right p) (λ b h. same b (ground (arith, h))) is.7),
    )

-- A subtree that a change outside of it leaves alone.
pub IsTree-outside :
    (m m' : Nodes) (t u : Tree) (q up ptr : ℕ)
    → ((b : ℕ) → has t b ≡ false → b ≢ q → Same m m' b)
    → Apart u t
    → has u q ≡ false
    → IsTree m up ptr u
    → IsTree m' up ptr u
IsTree-outside m m' t u q up ptr same apart out is =
    IsTree-frame m m' u up ptr (λ b h. same b (apart b h) (λ e. ground (arith, ap (has u) e))) is

pub Apart-sym : (t u : Tree) → Apart t u → Apart u t
Apart-sym t u apart b h = elim (Bool-cases (has t b)) [
  | inl hit ↦ ground (arith, apart b hit)
  | inr miss ↦ miss
]
