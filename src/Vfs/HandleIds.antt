-- ===== src/Vfs/HandleIds.antt =====
-- Which identifier a new handle gets.
use dionys_os.Prelude.{
  first_clear, Scanned, first_clear-Scanned, ℕ, ◌<◌, ◌^◌, ◌≡◌, ◌≢◌, ◌⊎◌, inl, inr, ◌==◌,
  if◌then◌else◌, false, Option, some, none, ok, arith, refl, bit_or, word_bit, word_bit-bit_or,
  eq→==,
}
use dionys_os.Spinlock.Recursion.{Free, acquire-once, release-taken}
use dionys_os.Vfs.{value, kern_max_reached, Vfs, Env}
use dionys_os.Vfs.Handles.{get_new_file_handle}

-- The first clear identifier is given out and marked, or all 64 are in use.
abbrev pub Given : Env → Vfs → Type 0
Given env s =
    ((n : ℕ) × (n < 64)
      × (word_bit s.handle_id_bitmap n ≡ 0)
      × ((j : ℕ) → j < n → word_bit s.handle_id_bitmap j ≢ 0)
      × (t : Vfs) × (get_new_file_handle env s ≡ ok (value n) t)
      × ((j : ℕ)
          → word_bit t.handle_id_bitmap j ≡ (if n == j then 1 else word_bit s.handle_id_bitmap j)))
    ⊎ (((j : ℕ) → j < 64 → word_bit s.handle_id_bitmap j ≢ 0)
        × (get_new_file_handle env s ≡ ok kern_max_reached s))

module _ (env : Env) (s : Vfs) (bootstrapped : env.bsp ≡ false) (cpu : env.my_cpu ≢ 0)
    (unlocked : Free s.handle_lock) where
  given :
      (r : Option ℕ)
      → first_clear 64 0 s.handle_id_bitmap ≡ r
      → Scanned 64 0 s.handle_id_bitmap r
      → Given env s
  unfolding get_new_file_handle
  given none e h = inr (
    (λ j b. h j (omega arith) (omega arith)),
    rw
        (
          bootstrapped,
          acquire-once env.my_cpu env.current_process cpu s.handle_lock unlocked,
          e,
          release-taken env.my_cpu env.current_process cpu s.handle_lock unlocked,
        )
        refl,
  )
  given (some n) e h = inl (
    n,
    omega arith,
    h.2,
    (λ j b. h.3 j (omega arith) b),
    record s { handle_id_bitmap = bit_or s.handle_id_bitmap (2 ^ n) },
    rw
        (
          bootstrapped,
          acquire-once env.my_cpu env.current_process cpu s.handle_lock unlocked,
          e,
          release-taken env.my_cpu env.current_process cpu s.handle_lock unlocked,
          eq→== s.handle_lock.id s.handle_lock.id refl,
        )
        refl,
    λ j. word_bit-bit_or s.handle_id_bitmap n j,
  )

  -- After the bootstrap, on a CPU that is not null and with the lock of the handles free, either
  -- a new handle gets the number of the first clear bit of the bitmap, which is below 64, and the
  -- bitmap then has that bit set and every other one as before; or all 64 bits are set, and the
  -- call returns KERN_MAX_REACHED and changes nothing.
  pub get_new_file_handle-Given : Given env s
  get_new_file_handle-Given =
      given (first_clear 64 0 s.handle_id_bitmap) refl (first_clear-Scanned 64 0 s.handle_id_bitmap)
