-- ===== src/Pmm/Tiling.antt =====
-- Splitting and coalescing keep the blocks of a chain adjacent.
use dionys_os.Prelude.{
  update_same, update_other, ℕ, suc, ◌+◌, ◌-◌, ◌*◌, ◌%◌, ◌^◌, ◌≤◌, ◌<◌, ◌≡◌, ◌≢◌, Bool, true, false,
  ◌==◌, ◌||◌, arith, refl, sym, ap, ◌∙◌, subst, List, [], ◌∷◌, update,
}
use dionys_os.Pmm.Allocation.{joined}
use dionys_os.Pmm.{Blocks, page_size, halved}
use native.Mathlib.Numerals.{unary_clauses}

-- A block of the chain: its address and its order.
abbrev pub Cells : Type 0
Cells = List (ℕ × ℕ)

abbrev pub within : Cells → ℕ → Bool
within [] b = false
within (c ∷ cs) b = (b == c.0) || within cs b

-- The blocks `cells` of the chain from `p` up to `last` lie side by side from `address` to `stop`.
abbrev pub Tiles : (b : Blocks) (p address : ℕ) → Cells → (last stop : ℕ) → Type 0
Tiles b p address [] last stop = (p ≡ last) × (address ≡ stop)
Tiles b p address (c ∷ cs) last stop =
    (p ≡ c.0)
    × (b.live p ≡ true)
    × (b.start_address p ≡ address)
    × (b.order p ≡ c.1)
    × Tiles b (b.next p) (address + 2 ^ c.1 * page_size) cs last stop

-- A block is the same, as far as the chain goes.
pub record Same (b b' : Blocks) (p : ℕ) : Type 0 where
  pub live : b'.live p ≡ b.live p
  pub next : b'.next p ≡ b.next p
  pub start_address : b'.start_address p ≡ b.start_address p
  pub order : b'.order p ≡ b.order p

pub Tiles-frame :
    (b b' : Blocks) (cs : Cells) (p address last stop : ℕ)
    → ((q : ℕ) → within cs q ≡ true → Same b b' q)
    → Tiles b p address cs last stop
    → Tiles b' p address cs last stop
Tiles-frame b b' [] p address last stop same is = is
Tiles-frame b b' (c ∷ cs) p address last stop same is =
    let here = same p (ground (arith, is.0)) in
    (
      is.0,
      here.live ∙ is.1,
      here.start_address ∙ is.2,
      here.order ∙ is.3,
      subst (λ n. Tiles b' n (address + 2 ^ c.1 * page_size) cs last stop) (sym here.next)
          (Tiles-frame b b' cs (b.next p) (address + 2 ^ c.1 * page_size) last stop
            (λ q h. same q (ground (arith, h))) is.4),
    )

twice :
    (k address : ℕ)
    → address + 2 ^ suc k * page_size ≡ address + 2 ^ k * page_size + 2 ^ k * page_size
twice k address = simp unary_clauses (omega arith)

Tiles-le :
    (b : Blocks) (cs : Cells) (p address last stop : ℕ)
    → Tiles b p address cs last stop
    → address ≤ stop
Tiles-le b [] p address last stop is = omega (arith, is.1)
Tiles-le b (c ∷ cs) p address last stop is =
    omega (arith, Tiles-le b cs (b.next p) (address + 2 ^ c.1 * page_size) last stop is.4)

second_start :
    (start order address k stop : ℕ)
    → start ≡ address
    → order ≡ suc k
    → address + 2 ^ suc k * page_size ≤ stop
    → stop < 2 ^ 64
    → (start + 2 ^ (order - 1) * page_size) % 2 ^ 64 ≡ address + 2 ^ k * page_size
second_start start order address k stop at high room fits =
    let pages : 2 ^ (order - 1) ≡ 2 ^ k = ap (λ e. 2 ^ e) (omega (arith, high)) in
    let inside : address + 2 ^ k * page_size + 2 ^ k * page_size ≤ stop =
      subst (λ n. n ≤ stop) (twice k address) room in
    ap (λ n. (start + n * page_size) % 2 ^ 64) pages ∙ omega (arith, at, inside, fits)

module _ (b : Blocks) (p q k address last stop : ℕ) (cs : Cells)
    (is : Tiles b p address ((p, suc k) ∷ cs) last stop) (live_q : b.live q ≡ true) (apart : q ≢ p)
    (p_out : within cs p ≡ false) (q_out : within cs q ≡ false) (fits : stop < 2 ^ 64) where
  others_halved : (r : ℕ) → within cs r ≡ true → Same b (halved p q b) r
  others_halved r hit =
      let off_p : r ≢ p = λ e. ground (arith, e, hit, p_out) in
      let off_q : r ≢ q = λ e. ground (arith, e, hit, q_out) in
      record {
        live = refl;
        next = ground (arith, off_p, off_q);
        start_address = ground (arith, off_q);
        order = ground (arith, off_p, off_q);
      }

  -- The links of the two halves.
  next-first : (halved p q b).next p ≡ q
  next-first = update_same (update b.next q (b.next p)) p q

  next-second : (halved p q b).next q ≡ b.next p
  next-second =
      update_other (update b.next q (b.next p)) p q q apart ∙ update_same b.next q (b.next p)

  pub Tiles-halved : Tiles (halved p q b) p address ((p, k) ∷ (q, k) ∷ cs) last stop
  Tiles-halved =
      let m = halved p q b in
      let room = Tiles-le b cs (b.next p) (address + 2 ^ suc k * page_size) last stop is.4 in
      let tail = subst (λ a. Tiles b (b.next p) a cs last stop) (twice k address) is.4 in
      (
        refl,
        is.1,
        ground (arith, apart, is.2),
        ground (arith, apart, is.3),
        subst (λ n. Tiles m n (address + 2 ^ k * page_size) ((q, k) ∷ cs) last stop)
            (sym next-first)
            (
              refl,
              live_q,
              update_same b.start_address q _
                  ∙ second_start (b.start_address p) (b.order p) address k stop is.2 is.3 room fits,
              update_same (update b.order p (b.order p - 1)) q (b.order p - 1)
                  ∙ omega (arith, is.3),
              subst (λ n. Tiles m n (address + 2 ^ k * page_size + 2 ^ k * page_size) cs last stop)
                  (sym next-second)
                  (Tiles-frame b m cs (b.next p) (address + 2 ^ k * page_size + 2 ^ k * page_size)
                    last stop others_halved tail),
            ),
      )

module _ (b : Blocks) (p n k address last stop : ℕ) (cs : Cells)
    (is : Tiles b p address ((p, k) ∷ (n, k) ∷ cs) last stop) (apart : n ≢ p)
    (p_out : within cs p ≡ false) where
  pub Tiles-joined : Tiles (joined p n b) p address ((p, suc k) ∷ cs) last stop
  Tiles-joined =
      let m = joined p n b in
      let second = is.4 in
      let tail =
        subst (λ a. Tiles b (b.next n) a cs last stop) (sym (twice k address))
          (subst
            (λ c. Tiles b (b.next c) (address + 2 ^ k * page_size + 2 ^ k * page_size) cs last stop)
            second.0 second.4) in
      (
        refl,
        is.1,
        is.2,
        update_same b.order p (b.order p + 1) ∙ omega (arith, is.3),
        subst (λ c. Tiles m c (address + 2 ^ suc k * page_size) cs last stop)
            (sym (update_same b.next p (b.next n)))
            (Tiles-frame b m cs (b.next n) (address + 2 ^ suc k * page_size) last stop
              (λ r hit.
                (let off : r ≢ p = λ e. ground (arith, e, hit, p_out) in
                  record {
                    live = refl;
                    next = update_other b.next p r (b.next n) off;
                    start_address = refl;
                    order = update_other b.order p r (b.order p + 1) off;
                  }))
              tail),
      )
