-- ===== src/Mutex/Exclusion.antt =====
-- Processes that share a mutex, each round of an acquisition and each release one step.
use dionys_os.Prelude.{
  ℕ, Bool, true, false, ◌≡◌, ◌≢◌, if◌then◌else◌, update, arith, sym, ◌∙◌, inl, inr, Bool-cases,
}
use dionys_os.Mutex.{Mutex, acquire_mutex_round, release_mutex, init_mutex, try_mutex}

-- The mutex, and which processes are between an acquisition and their release.
pub record System : Type 0 where
  pub mutex : Mutex
  pub inside : ℕ → Bool

abbrev pub round : (process cpu_id : ℕ) → System → System
round process cpu_id s =
    let r = acquire_mutex_round process cpu_id s.mutex in
    record { mutex = r.1; inside = if r.0 then update s.inside process true else s.inside }

-- Only a process inside leaves.
pub data Step : System → System → Type 0 where
  try_acquire : (process cpu_id : ℕ) (s : System) → Step s (round process cpu_id s)
  leave :
      (process : ℕ) (s : System)
      → s.inside process ≡ true
      → Step s (record { mutex = release_mutex s.mutex; inside = update s.inside process false })

pub data Reachable (name : ℕ) (m : Mutex) : System → Type 0 where
  start : Reachable name m (record { mutex = init_mutex name m; inside = λ _. false })
  more : (s s' : System) → Reachable name m s → Step s s' → Reachable name m s'

-- A process inside holds the mutex.
abbrev pub Held : System → Type 0
Held s = (p : ℕ) → s.inside p ≡ true → (s.mutex.locked ≡ 1) × (s.mutex.holder ≡ p)

Step-Held : (s s' : System) → Step s s' → Held s → Held s'
unfolding acquire_mutex_round release_mutex try_mutex
Step-Held s s' (try_acquire process cpu_id t) held = λ p i. ground (arith, i, held p)
Step-Held s s' (leave process t is_inside) held =
    λ p i. ground (arith, i, held p, held process is_inside)

Reachable-Held : (name : ℕ) (m : Mutex) (s : System) → Reachable name m s → Held s
Reachable-Held name m s start = λ p i. ground (arith, i)
Reachable-Held name m s (more t s' r step) = Step-Held t s step (Reachable-Held name m t r)

-- In every state that rounds of acquire_mutex and releases by a process inside lead to from a
-- fresh mutex, at most one process is between its acquisition and its release: while one is
-- inside, no other one is.
pub Reachable-exclusive :
    (name : ℕ) (m : Mutex) (s : System) (p q : ℕ)
    → Reachable name m s
    → s.inside p ≡ true
    → q ≢ p
    → s.inside q ≡ false
Reachable-exclusive name m s p q r i d =
    let held = Reachable-Held name m s r in
    elim (Bool-cases (s.inside q)) [
      | inl j ↦ absurd (d (sym ((held q j).1) ∙ (held p i).1))
      | inr j ↦ j
    ]
