-- ===== src/Queue/Layout.antt =====
-- What a queue in memory stands for: address, value and priority of each node, first to last.
use dionys_os.Prelude.{ℕ, ◌^◌, ◌<◌, ◌≡◌, ◌≢◌, true, List, [], ◌∷◌, ◌++◌, length, arith, refl, sym}
use dionys_os.Queue.{Nodes, Queue, null}

-- A node of the queue.
pub record Entry : Type 0 where
  pub address : ℕ
  pub held : ℕ
  pub rank : ℕ

abbrev pub entry : ℕ → ℕ → ℕ → Entry
entry a v r = record { address = a; held = v; rank = r }

abbrev pub Entries : Type 0
Entries = List Entry

-- From `p` the `next` pointers lead through the live nodes `xs` to null.
abbrev pub Seg : Nodes → ℕ → Entries → Type 0
Seg n p [] = p ≡ null
Seg n p (x ∷ xs) =
    (p ≡ x.address)
    × (x.address ≢ null)
    × (n.live x.address ≡ true)
    × (n.value x.address ≡ x.held)
    × (n.priority x.address ≡ x.rank)
    × Seg n (n.next x.address) xs

abbrev pub Out : ℕ → Entries → Type 0
Out a [] = Unit
Out a (x ∷ xs) = (a ≢ x.address) × Out a xs

abbrev pub Distinct : Entries → Type 0
Distinct [] = Unit
Distinct (x ∷ xs) = Out x.address xs × Distinct xs

abbrev pub last_address : ℕ → Entries → ℕ
last_address a [] = a
last_address a (x ∷ xs) = last_address x.address xs

-- The tail pointer of an empty queue is stale.
abbrev pub TailOk : ℕ → Entries → Type 0
TailOk t [] = Unit
TailOk t (x ∷ xs) = t ≡ last_address x.address xs

pub record IsQueue (n : Nodes) (q : Queue) (xs : Entries) : Type 0 where
  pub chain : Seg n q.head xs
  pub distinct : Distinct xs
  pub count : q.node_count ≡ length xs
  pub small : length xs < 2 ^ 32
  pub tail_ok : TailOk q.tail xs

-- Two memories agree on the node at `b`, but perhaps for its `prev`.
abbrev pub AgreesAt : Nodes → Nodes → ℕ → Type 0
AgreesAt n m b =
    (m.live b ≡ n.live b)
    × (m.value b ≡ n.value b)
    × (m.priority b ≡ n.priority b)
    × (m.next b ≡ n.next b)

abbrev pub AgreesOff : ℕ → Nodes → Nodes → Type 0
AgreesOff a n m = (b : ℕ) → b ≢ a → AgreesAt n m b

pub Seg-frame :
    (n m : Nodes) (a p : ℕ) (xs : Entries) → AgreesOff a n m → Out a xs → Seg n p xs → Seg m p xs
Seg-frame n m a p [] same out s = s
Seg-frame n m a p (x ∷ xs) same out s =
    ground (arith, same x.address, Seg-frame n m a (n.next x.address) xs same out.1 s.5)

pub IsQueue-frame :
    (n m : Nodes) (q : Queue) (xs : Entries) (a : ℕ)
    → AgreesOff a n m
    → Out a xs
    → IsQueue n q xs
    → IsQueue m q xs
IsQueue-frame n m q xs a same out is = record {
  chain = Seg-frame n m a q.head xs same out is.chain;
  distinct = is.distinct;
  count = is.count;
  small = is.small;
  tail_ok = is.tail_ok;
}

Out-last : (a b : ℕ) (xs : Entries) → a ≢ b → Out a xs → a ≢ last_address b xs
Out-last a b [] ne out = ne
Out-last a b (x ∷ xs) ne out = Out-last a x.address xs out.0 out.1

pub last-ne : (q b : ℕ) (xs : Entries) → q ≢ b → Out q xs → last_address b xs ≢ q
last-ne q b xs ne out e = Out-last q b xs ne out (sym e)

pub live-last :
    (n : Nodes) (p : ℕ) (x : Entry) (xs : Entries)
    → Seg n p (x ∷ xs)
    → n.live (last_address x.address xs) ≡ true
live-last n p x [] s = s.2
live-last n p x (y ∷ ys) s = live-last n (n.next x.address) y ys s.5

-- `m` is `n` with the new node `q` behind the node at `t`; `prev` pointers may differ.
pub record Linked (n m : Nodes) (t : ℕ) (q : Entry) : Type 0 where
  pub live_q : m.live q.address ≡ true
  pub value_q : m.value q.address ≡ q.held
  pub priority_q : m.priority q.address ≡ q.rank
  pub next_q : m.next q.address ≡ null
  pub next_t : m.next t ≡ q.address
  pub same :
      (b : ℕ)
      → b ≢ q.address
      → (m.live b ≡ n.live b) × (m.value b ≡ n.value b) × (m.priority b ≡ n.priority b)
  pub next_same : (b : ℕ) → b ≢ q.address → b ≢ t → m.next b ≡ n.next b

-- Linking a node behind the last one of a chain appends its entry.
pub Seg-append :
    (n m : Nodes) (q : Entry) (p : ℕ) (x : Entry) (xs : Entries)
    → Linked n m (last_address x.address xs) q
    → q.address ≢ null
    → Out q.address (x ∷ xs)
    → Distinct (x ∷ xs)
    → Seg n p (x ∷ xs)
    → Seg m p ((x ∷ xs) ++ (q ∷ []))
Seg-append n m q p x [] k ne out d s =
    ground (arith, k.same x.address, k.next_t, k.live_q, k.value_q, k.priority_q, k.next_q)
Seg-append n m q p x (y ∷ ys) k ne out d s = ground (
  arith,
  k.same x.address,
  k.next_same x.address,
  Out-last x.address y.address ys,
  Seg-append n m q (n.next x.address) y ys k ne out.1 d.1 s.5,
)

Out-append : (a : ℕ) (q : Entry) (xs : Entries) → Out a xs → a ≢ q.address → Out a (xs ++ (q ∷ []))
Out-append a q [] out ne = (ne, tt)
Out-append a q (x ∷ xs) out ne = (out.0, Out-append a q xs out.1 ne)

pub Distinct-append :
    (q : Entry) (xs : Entries) → Out q.address xs → Distinct xs → Distinct (xs ++ (q ∷ []))
Distinct-append q [] out d = (tt, tt)
Distinct-append q (x ∷ xs) out d =
    (Out-append x.address q xs d.0 (λ e. out.0 (sym e)), Distinct-append q xs out.1 d.1)

pub last-append : (a : ℕ) (q : Entry) (xs : Entries) → last_address a (xs ++ (q ∷ [])) ≡ q.address
last-append a q [] = refl
last-append a q (x ∷ xs) = last-append x.address q xs
