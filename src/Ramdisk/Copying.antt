-- ===== src/Ramdisk/Copying.antt =====
-- What the two copy loops of the driver leave in memory.
use dionys_os.Prelude.{
  ℕ, zero, suc, ◌+◌, ◌-◌, ◌<◌, ◌≤◌, ◌≡◌, ◌⊎◌, inl, inr, ltb, ◌==◌, if◌then◌else◌, arith, update, ok,
  fun_ext, Bool-cases, refl, ap, ◌∙◌,
}
use dionys_os.Ramdisk.{Machine, copy_loop, repeat_loop}

-- The two ranges of `size` addresses do not meet.
abbrev pub Apart : (size a b : ℕ) → Type 0
Apart size a b = (a + size ≤ b) ⊎ (b + size ≤ a)

-- Memory after the cells `i` of `target` with `from ≤ i < from + size` are those of `source`.
abbrev pub copied : (from size target source : ℕ) → (ℕ → ℕ) → ℕ → ℕ
copied from size target source byte a =
    if ltb a (target + from)
    then byte a
    else if ltb a (target + from + size)
    then byte (source + (a - target))
    else byte a

copied-step :
    (from size target source : ℕ) (byte : ℕ → ℕ)
    → Apart (from + suc size) target source
    → copied (from + 1) size target source (update byte (target + from) (byte (source + from)))
      ≡ copied from (suc size) target source byte
copied-step from size target source byte apart = fun_ext λ a. ground arith

-- A transfer between ranges that do not meet copies them.
pub copy_loop-copied :
    (left target source index : ℕ) (s : Machine)
    → Apart (index + left) target source
    → copy_loop left target source index s
      ≡ ok tt (record s { byte = copied index left target source s.byte })
unfolding copy_loop
copy_loop-copied zero target source index s apart =
    ap (λ (b : ℕ → ℕ). ok tt (record s { byte = b })) (fun_ext λ a. ground arith)
copy_loop-copied (suc left) target source index s apart =
    copy_loop-copied left target source (index + 1)
      (record s { byte = update s.byte (target + index) (s.byte (source + index)) })
      (ground (arith, apart))
    ∙ ap (λ (b : ℕ → ℕ). ok tt (record s { byte = b }))
        (copied-step index left target source s.byte apart)

-- The whole transfer.
pub copy_loop-whole :
    (size target source : ℕ) (s : Machine)
    → Apart size target source
    → copy_loop size target source 0 s
      ≡ ok tt (record s { byte = copied 0 size target source s.byte })
copy_loop-whole size target source s apart =
    copy_loop-copied size target source 0 s (ground (arith, apart))

-- The repeated write ends, and it touches no byte beyond the first `buffer_size + 1`.
pub repeat_loop-confined :
    (fuel target source index transferred write_size buffer_size : ℕ) (s : Machine)
    → index ≤ buffer_size
    → 0 < buffer_size
    → write_size ≤ fuel + transferred
    → (s' : Machine) × (repeat_loop
          (suc fuel)
          target
          source
          index
          transferred
          write_size
          buffer_size
          s
        ≡ ok tt s')
      × ((a : ℕ) → target + buffer_size < a → s'.byte a ≡ s.byte a)
      × ((a : ℕ) → a < target → s'.byte a ≡ s.byte a)
unfolding repeat_loop
repeat_loop-confined zero target source index transferred w b s i z f =
    (s, ground (arith, f), λ a h. refl, λ a h. refl)
repeat_loop-confined (suc k) target source index transferred w b s i z f =
    let s₁ = record s { byte = update s.byte (target + index) (s.byte (source + index)) } in
    let r =
      repeat_loop-confined k target source ((if index == b then 0 else index) + 1) (transferred + 2)
        w b s₁ (ground arith) z (omega arith) in
    elim (Bool-cases (ltb transferred w)) [
      | inl more ↦ (
        r.0,
        ground (arith, more, r.1),
        λ a h. ground (arith, r.2 a h),
        λ a h. ground (arith, r.3 a h),
      )
      | inr done ↦ (s, ground (arith, done), λ a h. refl, λ a h. refl)
    ]
