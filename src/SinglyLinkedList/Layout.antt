-- ===== src/SinglyLinkedList/Layout.antt =====
-- What a list in memory stands for: the address and the value of each node, in order.
use dionys_os.Prelude.{ℕ, ◌≡◌, ◌≢◌, ◌⊎◌, true, List, [], ◌∷◌, length, arith}
use dionys_os.SinglyLinkedList.{Nodes, SinglyLinkedList, null}

abbrev pub Cells : Type 0
Cells = List (ℕ × ℕ)

-- From `p` the `next` pointers lead through the live nodes `xs` to null.
abbrev pub Seg : Nodes → ℕ → Cells → Type 0
Seg n p [] = p ≡ null
Seg n p ((a, v) ∷ xs) =
    (p ≡ a) × (a ≢ null) × (n.live a ≡ true) × (n.value a ≡ v) × Seg n (n.next a) xs

-- `a` is no address of `xs`.
abbrev pub Out : ℕ → Cells → Type 0
Out a [] = Unit
Out a ((b, _) ∷ xs) = (a ≢ b) × Out a xs

abbrev pub Distinct : Cells → Type 0
Distinct [] = Unit
Distinct ((a, _) ∷ xs) = Out a xs × Distinct xs

abbrev pub last_address : ℕ → Cells → ℕ
last_address a [] = a
last_address a ((b, _) ∷ xs) = last_address b xs

-- The tail of an empty list is null, that of a list of one node may be, and with more nodes it is
-- the last one.
abbrev pub TailOk : ℕ → Cells → Type 0
TailOk t [] = t ≡ null
TailOk t ((a, _) ∷ []) = (t ≡ null) ⊎ (t ≡ a)
TailOk t ((a, _) ∷ (b, _) ∷ xs) = t ≡ last_address b xs

pub record IsList (n : Nodes) (l : SinglyLinkedList) (xs : Cells) : Type 0 where
  pub chain : Seg n l.head xs
  pub distinct : Distinct xs
  pub count : l.node_count ≡ length xs
  pub tail_ok : TailOk l.tail xs

-- Two memories agree on the node at `b`.
abbrev pub AgreesAt : Nodes → Nodes → ℕ → Type 0
AgreesAt n m b = (m.live b ≡ n.live b) × (m.value b ≡ n.value b) × (m.next b ≡ n.next b)

-- Two memories agree on every node but the one at `a`.
abbrev pub AgreesOff : ℕ → Nodes → Nodes → Type 0
AgreesOff a n m = (b : ℕ) → b ≢ a → AgreesAt n m b

-- A chain survives any change of a node that is not in it.
pub Seg-frame :
    (n m : Nodes) (a p : ℕ) (xs : Cells) → AgreesOff a n m → Out a xs → Seg n p xs → Seg m p xs
Seg-frame n m a p [] same out s = s
Seg-frame n m a p ((b, v) ∷ xs) same out s =
    ground (arith, same b, Seg-frame n m a (n.next b) xs same out.1 s.4)

pub IsList-frame :
    {n m : Nodes} {l : SinglyLinkedList} {xs : Cells} (a : ℕ)
    → AgreesOff a n m
    → Out a xs
    → IsList n l xs
    → IsList m l xs
IsList-frame {n} {m} {l} {xs} a same out is = record {
  chain = Seg-frame n m a l.head xs same out is.chain;
  distinct = is.distinct;
  count = is.count;
  tail_ok = is.tail_ok;
}

-- The free nodes of the pool: each holds its own address.
abbrev pub Self : Cells → Type 0
Self [] = Unit
Self ((a, v) ∷ xs) = (v ≡ a) × Self xs

-- The pool keeps no tail: `remove_head` does not maintain it.
pub record IsPool (n : Nodes) (l : SinglyLinkedList) (xs : Cells) : Type 0 where
  pub chain : Seg n l.head xs
  pub distinct : Distinct xs
  pub count : l.node_count ≡ length xs
  pub self : Self xs
