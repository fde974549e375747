-- ===== src/CString/Copying.antt =====
-- Copying strings.
use dionys_os.Prelude.{
  ℕ, zero, suc, ◌+◌, ◌-◌, ◌<◌, ◌≤◌, ◌≡◌, ◌≢◌, ◌⊎◌, if◌then◌else◌, ltb, arith, ap, ◌∙◌, fun_ext,
  update, ok,
}
use dionys_os.CString.{Memory, strcpy, strcat, strcat_end, strcat_copy}
use dionys_os.CString.Measuring.{IsString, IsString-tail}

-- Memory with `size` bytes at `dest` replaced by those at `src`.
abbrev pub copied : (size dest src : ℕ) → Memory → Memory
copied size dest src m a =
    if ltb a dest then m a else if ltb a (dest + size) then m (src + (a - dest)) else m a

-- The two ranges do not meet.
abbrev pub Apart : (size a b : ℕ) → Type 0
Apart size a b = (a + size ≤ b) ⊎ (b + size ≤ a)

IsString-update :
    (m : Memory) (p n a c : ℕ)
    → IsString m p n
    → (a < p) ⊎ (p + n < a)
    → IsString (update m a c) p n
IsString-update m p n a c str out = record {
  inner = λ i h. ground (arith, out, str.inner i h);
  terminator = ground (arith, out, str.terminator);
}

copied-step :
    (size dest src : ℕ) (m : Memory)
    → Apart (suc (suc size)) dest src
    → copied (suc size) (dest + 1) (src + 1) (update m dest (m src))
      ≡ copied (suc (suc size)) dest src m
copied-step size dest src m apart = fun_ext λ a. ground (arith, apart)

copied-one : (dest src : ℕ) (m : Memory) → update m dest (m src) ≡ copied 1 dest src m
copied-one dest src m = fun_ext λ a. ground arith

strcpy-stop :
    (k dest src : ℕ) (m : Memory)
    → m src ≡ 0
    → strcpy (suc k) dest src m ≡ ok tt (update m dest (m src))
unfolding strcpy
strcpy-stop k dest src m e = ground (arith, e)

strcpy-go :
    (k dest src : ℕ) (m : Memory)
    → m src ≢ 0
    → strcpy (suc k) dest src m ≡ strcpy k (dest + 1) (src + 1) (update m dest (m src))
unfolding strcpy
strcpy-go k dest src m e = ground (arith, e)

-- For a string of n bytes and a destination of n + 1 bytes apart from it, with fuel above n,
-- strcpy ends and copies the bytes and the terminator, and changes no other byte.
strcpy-copied :
    (fuel dest src n : ℕ) (m : Memory)
    → IsString m src n
    → Apart (suc n) dest src
    → n < fuel
    → strcpy fuel dest src m ≡ ok tt (copied (suc n) dest src m)
strcpy-copied zero dest src n m str apart f = absurd (omega arith)
strcpy-copied (suc k) dest src zero m str apart f =
    strcpy-stop k dest src m (ground (arith, str.terminator))
    ∙ ap (λ (x : Memory). ok tt x) (copied-one dest src m)
strcpy-copied (suc k) dest src (suc n) m str apart f =
    strcpy-go k dest src m (ground (arith, str.inner 0))
    ∙ strcpy-copied k (dest + 1) (src + 1) n (update m dest (m src))
        (IsString-update m (src + 1) n dest (m src) (IsString-tail m src n str)
          (ground (arith, apart)))
        (ground (arith, apart)) (omega arith)
    ∙ ap (λ (x : Memory). ok tt x) (copied-step n dest src m apart)

strcat_end-ok :
    (fuel p n : ℕ) (m : Memory) → IsString m p n → n < fuel → strcat_end fuel p m ≡ ok (p + n) m
unfolding strcat_end
strcat_end-ok zero p n m str f = absurd (omega arith)
strcat_end-ok (suc k) p zero m str f = ground (arith, str.terminator)
strcat_end-ok (suc k) p (suc n) m str f =
    ground (arith, str.inner 0, strcat_end-ok k (p + 1) n m (IsString-tail m p n str) (omega arith))

strcat_copy-stop :
    (k dest src : ℕ) (m : Memory) → m src ≡ 0 → strcat_copy (suc k) dest src m ≡ ok tt m
unfolding strcat_copy
strcat_copy-stop k dest src m e = ground (arith, e)

strcat_copy-go :
    (k dest src : ℕ) (m : Memory)
    → m src ≢ 0
    → strcat_copy (suc k) dest src m ≡ strcat_copy k (dest + 1) (src + 1) (update m dest (m src))
unfolding strcat_copy
strcat_copy-go k dest src m e = ground (arith, e)

strcat_copy-copied :
    (fuel dest src n : ℕ) (m : Memory)
    → IsString m src n
    → Apart (suc n) dest src
    → n < fuel
    → strcat_copy fuel dest src m ≡ ok tt (copied n dest src m)
strcat_copy-copied zero dest src n m str apart f = absurd (omega arith)
strcat_copy-copied (suc k) dest src zero m str apart f =
    strcat_copy-stop k dest src m (ground (arith, str.terminator))
    ∙ ap (λ (x : Memory). ok tt x) (fun_ext λ a. ground arith)
strcat_copy-copied (suc k) dest src (suc n) m str apart f =
    strcat_copy-go k dest src m (ground (arith, str.inner 0))
    ∙ strcat_copy-copied k (dest + 1) (src + 1) n (update m dest (m src))
        (IsString-update m (src + 1) n dest (m src) (IsString-tail m src n str)
          (ground (arith, apart)))
        (ground (arith, apart)) (omega arith)
    ∙ ap (λ (x : Memory). ok tt x) (fun_ext λ a. ground (arith, apart))

-- For two strings, the second one apart from the room behind the first, with fuel above both
-- lengths, strcat ends and copies the bytes of the second string to the end of the first, changes
-- no other byte, and leaves the byte behind them as it was: no terminator is written.
pub strcat-copied :
    (fuel p q a b : ℕ) (m : Memory)
    → IsString m p a
    → IsString m q b
    → Apart (suc b) (p + a) q
    → a < fuel
    → b < fuel
    → (strcat fuel p q m ≡ ok tt (copied b (p + a) q m))
      × (copied b (p + a) q m (p + a + b) ≡ m (p + a + b))
unfolding strcat
strcat-copied fuel p q a b m sp sq apart fa fb = (
  rw (strcat_end-ok fuel p a m sp fa) (strcat_copy-copied fuel (p + a) q b m sq apart fb),
  ground arith,
)
