-- ===== src/BinaryTree/Search.antt =====
-- Insertion and lookup on abstract search trees.
use dionys_os.Prelude.{
  ℕ, ◌+◌, ◌≤◌, ◌<◌, ◌≡◌, ◌≢◌, true, false, ltb, ◌==◌, if◌then◌else◌, List, [], ◌∷◌, ◌++◌, length,
  length-append, arith, refl, sym, ap, ◌∙◌, inl, inr, Bool-cases, lt_or_le,
}
use dionys_os.BinaryTree.Shape.{
  Tree, leaf, node, has, nodes_in, Apart, Distinct, Ordered, Filled, Apart-sym,
}

-- The bucket of a key.
unfoldable pub values_of : Tree → ℕ → List ℕ
values_of leaf key = []
values_of (node l p k xs r) key =
    let on_left = values_of l key in
    let on_right = values_of r key in
    if key == k then xs else if ltb key k then on_left else on_right

-- A value behind the others of its key, in the new node `q` where the key has none.
unfoldable pub inserted : (q key value : ℕ) → Tree → Tree
inserted q key value leaf = node leaf q key (value ∷ []) leaf
inserted q key value (node l p k xs r) =
    let on_left = inserted q key value l in
    let on_right = inserted q key value r in
    if key == k
    then node l p k (xs ++ value ∷ []) r
    else if ltb key k
    then node on_left p k xs r
    else node l p k xs on_right

-- The bucket of a key becomes `ys`.
unfoldable pub with_values : (key : ℕ) (ys : List ℕ) → Tree → Tree
with_values key ys leaf = leaf
with_values key ys (node l p k xs r) =
    let on_left = with_values key ys l in
    let on_right = with_values key ys r in
    if key == k
    then node l p k ys r
    else if ltb key k
    then node on_left p k xs r
    else node l p k xs on_right

pub data Compared (key k : ℕ) : Type 0 where
  equal : key ≡ k → Compared key k
  below : key < k → Compared key k
  above : k < key → Compared key k

pub compared : (key k : ℕ) → Compared key k
compared key k = elim (lt_or_le key k) [
  | inl lt ↦ below lt
  | inr le ↦ elim (lt_or_le k key) [ inl lt ↦ above lt | inr ge ↦ equal (omega arith) ]
]

pub eq_test : {key k : ℕ} → key ≡ k → (key == k) ≡ true
eq_test e = ground (arith, e)

pub lt_ne : {key k : ℕ} → key < k → (key == k) ≡ false
lt_ne h = ground (arith, h)

pub lt_test : {key k : ℕ} → key < k → ltb key k ≡ true
lt_test h = ground (arith, h)

pub gt_ne : {key k : ℕ} → k < key → (key == k) ≡ false
gt_ne h = ground (arith, h)

pub gt_test : {key k : ℕ} → k < key → ltb key k ≡ false
gt_test h = ground (arith, h)

module _ (q key value : ℕ) where
  values_of-inserted :
      (t : Tree) → values_of (inserted q key value t) key ≡ values_of t key ++ value ∷ []
  unfolding values_of inserted
  values_of-inserted leaf = ground arith
  values_of-inserted (node l p k xs r) = elim (compared key k) [
    | equal e ↦ ground (arith, e)
    | below h ↦ ground (arith, h, values_of-inserted l)
    | above h ↦ ground (arith, h, values_of-inserted r)
  ]

  values_of-inserted_other :
      (t : Tree) (other : ℕ)
      → other ≢ key
      → values_of (inserted q key value t) other ≡ values_of t other
  unfolding values_of inserted
  values_of-inserted_other leaf other ne = ground (arith, ne)
  values_of-inserted_other (node l p k xs r) other ne = elim (compared key k) [
    | equal e ↦ ground (arith, e, ne)
    | below h ↦ ground (arith, h, values_of-inserted_other l other ne)
    | above h ↦ ground (arith, h, values_of-inserted_other r other ne)
  ]

  has-inserted :
      (t : Tree) (b : ℕ) → has t b ≡ false → b ≢ q → has (inserted q key value t) b ≡ false
  unfolding inserted
  has-inserted leaf b out ne = ground (arith, ne)
  has-inserted (node l p k xs r) b out ne = elim (compared key k) [
    | equal e ↦ ground (arith, e, out)
    | below h ↦ ground (arith, h, out, has-inserted l b (ground (arith, out)) ne)
    | above h ↦ ground (arith, h, out, has-inserted r b (ground (arith, out)) ne)
  ]

  Apart-inserted : (t u : Tree) → Apart t u → has u q ≡ false → Apart (inserted q key value t) u
  Apart-inserted t u apart out b hit = elim (Bool-cases (has t b)) [
    | inl in_t ↦ apart b in_t
    | inr out_t ↦ elim (Bool-cases (b == q)) [
      | inl is ↦ ground (arith, is, out)
      | inr not ↦ ground (arith, hit, has-inserted t b out_t (ground (arith, not)))
    ]
  ]

  pub Distinct-inserted :
      (t : Tree) → Distinct t → has t q ≡ false → Distinct (inserted q key value t)
  unfolding inserted
  Distinct-inserted leaf d out = (refl, refl, (λ b h. absurd (ground arith)), tt, tt)
  Distinct-inserted (node l p k xs r) d out = elim (compared key k) [
    | equal e ↦ rw (eq_test e) d
    | below h ↦
        rw (lt_ne h, lt_test h)
          (
            has-inserted l p d.0 (λ e. ground (arith, e, out)),
            d.1,
            Apart-inserted l r d.2 (ground (arith, out)),
            Distinct-inserted l d.3 (ground (arith, out)),
            d.4,
          )
    | above h ↦
        rw (gt_ne h, gt_test h)
          (
            d.0,
            has-inserted r p d.1 (λ e. ground (arith, e, out)),
            Apart-sym (inserted q key value r) l
                (Apart-inserted r l (Apart-sym l r d.2) (ground (arith, out))),
            d.3,
            Distinct-inserted r d.4 (ground (arith, out)),
          )
  ]

  pub Ordered-inserted :
      (t : Tree) (low high : ℕ)
      → Ordered low high t
      → low ≤ key
      → key < high
      → Ordered low high (inserted q key value t)
  unfolding inserted
  Ordered-inserted leaf low high o above_low below_high = (above_low, below_high, tt, tt)
  Ordered-inserted (node l p k xs r) low high o above_low below_high = elim (compared key k) [
    | equal e ↦ rw (eq_test e) o
    | below h ↦ rw (lt_ne h, lt_test h) (o.0, o.1, Ordered-inserted l low k o.2 above_low h, o.3)
    | above h ↦
        rw (gt_ne h, gt_test h)
          (o.0, o.1, o.2, Ordered-inserted r (k + 1) high o.3 (omega (arith, h)) below_high)
  ]

  pub Filled-inserted : (t : Tree) → Filled t → Filled (inserted q key value t)
  unfolding inserted
  Filled-inserted leaf f = (omega arith, tt, tt)
  Filled-inserted (node l p k xs r) f = elim (compared key k) [
    | equal e ↦ rw (eq_test e) (omega (arith, length-append xs (value ∷ [])), f.1, f.2)
    | below h ↦ rw (lt_ne h, lt_test h) (f.0, Filled-inserted l f.1, f.2)
    | above h ↦ rw (gt_ne h, gt_test h) (f.0, f.1, Filled-inserted r f.2)
  ]

pub nodes_in-inserted :
    (q key value : ℕ) (t : Tree) → nodes_in (inserted q key value t) ≤ nodes_in t + 1
unfolding inserted
nodes_in-inserted q key value leaf = omega arith
nodes_in-inserted q key value (node l p k xs r) = elim (compared key k) [
  | equal e ↦ rw (eq_test e) (omega arith)
  | below h ↦ rw (lt_ne h, lt_test h) (omega (arith, nodes_in-inserted q key value l))
  | above h ↦ rw (gt_ne h, gt_test h) (omega (arith, nodes_in-inserted q key value r))
]

module _ (key : ℕ) (ys : List ℕ) where
  has-with_values : (t : Tree) (b : ℕ) → has (with_values key ys t) b ≡ has t b
  unfolding with_values
  has-with_values leaf b = refl
  has-with_values (node l p k xs r) b = elim (compared key k) [
    | equal e ↦ rw (eq_test e) refl
    | below h ↦ rw (lt_ne h, lt_test h, has-with_values l b) refl
    | above h ↦ rw (gt_ne h, gt_test h, has-with_values r b) refl
  ]

  pub nodes_in-with_values : (t : Tree) → nodes_in (with_values key ys t) ≡ nodes_in t
  unfolding with_values
  nodes_in-with_values leaf = refl
  nodes_in-with_values (node l p k xs r) = elim (compared key k) [
    | equal e ↦ rw (eq_test e) refl
    | below h ↦ rw (lt_ne h, lt_test h, nodes_in-with_values l) refl
    | above h ↦ rw (gt_ne h, gt_test h, nodes_in-with_values r) refl
  ]

  pub Distinct-with_values : (t : Tree) → Distinct t → Distinct (with_values key ys t)
  unfolding with_values
  Distinct-with_values leaf d = tt
  Distinct-with_values (node l p k xs r) d = elim (compared key k) [
    | equal e ↦ rw (eq_test e) d
    | below h ↦
        rw (lt_ne h, lt_test h)
          (
            has-with_values l p ∙ d.0,
            d.1,
            (λ b hit. d.2 b (sym (has-with_values l b) ∙ hit)),
            Distinct-with_values l d.3,
            d.4,
          )
    | above h ↦
        rw (gt_ne h, gt_test h)
          (
            d.0,
            has-with_values r p ∙ d.1,
            (λ b hit. has-with_values r b ∙ d.2 b hit),
            d.3,
            Distinct-with_values r d.4,
          )
  ]

  pub Ordered-with_values :
      (t : Tree) (low high : ℕ) → Ordered low high t → Ordered low high (with_values key ys t)
  unfolding with_values
  Ordered-with_values leaf low high o = tt
  Ordered-with_values (node l p k xs r) low high o = elim (compared key k) [
    | equal e ↦ rw (eq_test e) o
    | below h ↦ rw (lt_ne h, lt_test h) (o.0, o.1, Ordered-with_values l low k o.2, o.3)
    | above h ↦ rw (gt_ne h, gt_test h) (o.0, o.1, o.2, Ordered-with_values r (k + 1) high o.3)
  ]

  pub Filled-with_values : (t : Tree) → 1 ≤ length ys → Filled t → Filled (with_values key ys t)
  unfolding with_values
  Filled-with_values leaf some_values f = tt
  Filled-with_values (node l p k xs r) some_values f = elim (compared key k) [
    | equal e ↦ rw (eq_test e) (some_values, f.1, f.2)
    | below h ↦ rw (lt_ne h, lt_test h) (f.0, Filled-with_values l some_values f.1, f.2)
    | above h ↦ rw (gt_ne h, gt_test h) (f.0, f.1, Filled-with_values r some_values f.2)
  ]

pub values_of-inserted_at :
    (q key value : ℕ) (t : Tree) (other : ℕ)
    → values_of (inserted q key value t) other
      ≡ (if other == key then values_of t key ++ value ∷ [] else values_of t other)
values_of-inserted_at q key value t other = elim (compared other key) [
  | equal e ↦
      rw (eq_test e) (ap (values_of (inserted q key value t)) e ∙ values_of-inserted q key value t)
  | below h ↦ rw (lt_ne h) (values_of-inserted_other q key value t other (λ e. omega (arith, h, e)))
  | above h ↦ rw (gt_ne h) (values_of-inserted_other q key value t other (λ e. omega (arith, h, e)))
]

module _ (l r : Tree) (p k key : ℕ) (xs : List ℕ) where
  pub values_of-here : key ≡ k → values_of (node l p k xs r) key ≡ xs
  unfolding values_of
  values_of-here e = rw (eq_test e) refl

  pub values_of-below : key < k → values_of (node l p k xs r) key ≡ values_of l key
  unfolding values_of
  values_of-below h = rw (lt_ne h, lt_test h) refl

  pub values_of-above : k < key → values_of (node l p k xs r) key ≡ values_of r key
  unfolding values_of
  values_of-above h = rw (gt_ne h, gt_test h) refl
