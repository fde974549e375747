-- ===== src/SinglyLinkedList/Values.antt =====
-- kernel/src/data_structures/singly_linked_list.c: a list as its values, for the components that keep
-- lists of their own and never take a node or a tail from them.
-- `singly_linked_list_remove_node_by_address` leaves the tail as it is, so that the tail names a
-- released node once the last node has gone. A write through a released node is a fault.
use dionys_os.Prelude.{
  ◌≢◌, not_eq, ◌≤◌, ◌≡◌, arith, refl, length, ℕ, Bool, true, false, ◌==◌, if◌then◌else◌, List, [],
  ◌∷◌, ◌++◌, Option, none, some, Cmd, fault, pure,
}

-- The values from the head on. The tail of a sound list is the last node, or null where there are
-- fewer than two; that of a stale list, which has a value at least, is a released node. The count is
-- the number of values.
pub data Values : Type 0 where
  sound : List ℕ → Values
  stale : List ℕ → Values

abbrev pub values_in : Values → List ℕ
values_in (sound xs) = xs
values_in (stale xs) = xs

-- The list keeps its tail, for other values.
abbrev pub with_values_in : Values → List ℕ → Values
with_values_in (sound xs) ys = sound ys
with_values_in (stale xs) ys = stale ys

-- `singly_linked_list_insert_head`. With a count of 1 the old head becomes the tail.
unfoldable pub insert_first : ℕ → Values → Values
insert_first value (sound xs) = sound (value ∷ xs)
insert_first value (stale []) = sound (value ∷ [])
insert_first value (stale (x ∷ [])) = sound (value ∷ x ∷ [])
insert_first value (stale (x ∷ y ∷ ys)) = stale (value ∷ x ∷ y ∷ ys)

-- `singly_linked_list_insert_tail`. `none` is a write through the tail when that is null, as in an
-- empty list, or released.
unfoldable pub insert_last : ℕ → Values → Option Values
insert_last value (sound []) = none
insert_last value (sound (x ∷ xs)) = some (sound (x ∷ xs ++ value ∷ []))
insert_last value (stale xs) = none

-- `singly_linked_list_remove_head`. With a count of 2 the tail becomes the head and is written
-- through, which is `none` when it is released.
unfoldable pub remove_first : Values → Option Values
remove_first (sound []) = some (sound [])
remove_first (sound (x ∷ xs)) = some (sound xs)
remove_first (stale []) = some (stale [])
remove_first (stale (x ∷ [])) = some (sound [])
remove_first (stale (x ∷ y ∷ [])) = none
remove_first (stale (x ∷ y ∷ z ∷ zs)) = some (stale (y ∷ z ∷ zs))

unfoldable pub has_address : ℕ → List ℕ → Bool
has_address address [] = false
has_address address (x ∷ xs) =
    let rest = has_address address xs in if x == address then true else rest

-- The first node of the address is the last one.
unfoldable pub ends_at : ℕ → List ℕ → Bool
ends_at address [] = false
ends_at address (x ∷ []) = x == address
ends_at address (x ∷ y ∷ ys) =
    let rest = ends_at address (y ∷ ys) in if x == address then false else rest

unfoldable pub without_address : ℕ → List ℕ → List ℕ
without_address address [] = []
without_address address (x ∷ xs) =
    let rest = without_address address xs in if x == address then xs else x ∷ rest

-- The unlinking of a node behind the head.
unfoldable pub unlink : ℕ → List ℕ → Values → Values
unfolding ends_at without_address
unlink address xs l =
    if ends_at address xs
    then stale (without_address address xs)
    else with_values_in l (without_address address xs)

-- `singly_linked_list_remove_node_by_address`, with whether the address was there. An empty list is
-- read through its null head.
unfoldable pub remove_by_address : ℕ → Values → Option (Bool × Values)
unfolding remove_first has_address unlink
remove_by_address address l = elim (values_in l) [
  | [] ↦ none
  | x ∷ xs ↦
      (if x == address
        then elim (remove_first l) [ none ↦ none | some l' ↦ some (true, l') ]
        else if has_address address xs
        then some (true, unlink address (x ∷ xs) l)
        else some (false, l))
]

-- The outcome of an operation, as a step that faults without one.
abbrev pub or_fault {ℓ} : {S : Type 0} {A : Type ℓ} → Option A → Cmd S A
or_fault none = λ _. fault
or_fault (some a) = pure a

-- A list with a value takes another one at its tail.
pub insert_last-sound :
    (value : ℕ) (xs : List ℕ)
    → 1 ≤ length xs
    → insert_last value (sound xs) ≡ some (sound (xs ++ value ∷ []))
unfolding insert_last
insert_last-sound value [] h = absurd (omega (arith, h))
insert_last-sound value (x ∷ xs) h = refl

-- The head of a list goes by its address.
pub remove_by_address-head :
    (x : ℕ) (xs : List ℕ) → remove_by_address x (sound (x ∷ xs)) ≡ some (true, sound xs)
unfolding remove_by_address remove_first
remove_by_address-head x xs = ground arith

-- Without its last node a list has lost its tail.
pub remove_by_address-second :
    (x y : ℕ) → x ≢ y → remove_by_address y (sound (x ∷ y ∷ [])) ≡ some (true, stale (x ∷ []))
unfolding remove_by_address has_address unlink ends_at without_address
remove_by_address-second x y apart = rw (not_eq apart, same) refl
  where
    same : (y == y) ≡ true
    same = ground arith
