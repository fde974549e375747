-- ===== src/Examples/Strings.antt =====
-- Strings at concrete addresses.
use dionys_os.Prelude.{◌≡◌, ◌==◌, if◌then◌else◌, arith, refl, ok, inl}
use dionys_os.CString.{Memory, strcat}
use dionys_os.Memory.{memmove}
use dionys_os.Memory.Moving.{moved, memmove-moved}
use dionys_os.CString.Measuring.{IsString}
use dionys_os.CString.Copying.{copied, strcat-copied}

-- "ab" at 100, "abc" at 200 and "ax" at 300.
abbrev memory : Memory
memory i =
    if i == 100
    then 97
    else if i == 101
    then 98
    else if i == 200
    then 97
    else if i == 201
    then 98
    else if i == 202
    then 99
    else if i == 300
    then 97
    else if i == 301
    then 120
    else 0

ab : IsString memory 100 2
ab = record { inner = λ i h. ground arith; terminator = refl }

ax : IsString memory 300 2
ax = record { inner = λ i h. ground arith; terminator = refl }

-- Two ranges that overlap.
memmove-moved_example : memmove 201 200 3 memory ≡ moved 0 3 201 200 memory
memmove-moved_example = memmove-moved 201 200 3 memory

strcat-copied_example :
    (strcat 8 100 300 memory ≡ ok tt (copied 2 102 300 memory))
    × (copied 2 102 300 memory 104 ≡ memory 104)
strcat-copied_example =
    strcat-copied 8 100 300 2 2 memory ab ax (inl (omega arith)) (omega arith) (omega arith)
