-- ===== src/CString.antt =====
-- kernel/src/definitions/string.c: C strings. Memory is one array of bytes; a loop that has no bound
-- of its own runs on fuel, and hangs without it.
pub mod Measuring
pub mod Comparing
pub mod Copying
use dionys_os.Prelude.{
  ℕ, zero, suc, ◌+◌, ◌-◌, ◌%◌, ◌^◌, Bool, true, false, ◌&&◌, ◌||◌, not, ltb, leb, ◌==◌,
  if◌then◌else◌, Option, none, some, update, Run, ok, panic, hang, Cmd, ◌>>=◌, ◌>>◌, pure,
}

abbrev pub Memory : Type 0
Memory = ℕ → ℕ

abbrev pub load : ℕ → Cmd Memory ℕ
load p m = ok (m p) m

abbrev pub store : ℕ → ℕ → Cmd Memory (Unit {0})
store p c m = ok tt (update m p c)

-- `LAST_TOKEN` and `NEXT_TOKEN`
abbrev pub last_token : ℕ
last_token = 0

abbrev pub next_token : ℕ
next_token = 1

unfoldable pub strcpy : (fuel dest src : ℕ) → Cmd Memory (Unit {0})
strcpy zero dest src = λ _. hang
strcpy (suc k) dest src = do
  c ← load src
  store dest c
  if c == 0 then pure tt else strcpy k (dest + 1) (src + 1)

-- The loop of `safe_strcpy` returns the pointers as it leaves them: `dest` and `pointer`.
unfoldable pub safe_strcpy_loop : (fuel dest src pointer dest_size : ℕ) → Cmd Memory (ℕ × ℕ)
safe_strcpy_loop zero dest src pointer dest_size = λ _. hang
safe_strcpy_loop (suc k) dest src pointer dest_size = do
  c ← load src
  store dest c
  if c == 0
      then pure (dest + 1, pointer)
      else if ltb pointer dest_size
      then safe_strcpy_loop k (dest + 1) (src + 1) (pointer + 1) dest_size
      else pure (dest + 1, pointer + 1)

unfoldable pub safe_strcpy : (dest src dest_size : ℕ) → Cmd Memory (Unit {0})
safe_strcpy dest src dest_size = do
  left ← safe_strcpy_loop (dest_size + 2) dest src 0 dest_size
  if left.1 == dest_size then store (left.0 + dest_size - 1) 0 else pure tt

-- The first loop of `strcat`: the end of the first string.
unfoldable pub strcat_end : (fuel str1 : ℕ) → Cmd Memory ℕ
strcat_end zero str1 = λ _. hang
strcat_end (suc k) str1 = do c ← load str1; if c == 0 then pure str1 else strcat_end k (str1 + 1)

-- The second loop: the terminator is not copied.
unfoldable pub strcat_copy : (fuel str1 str2 : ℕ) → Cmd Memory (Unit {0})
strcat_copy zero str1 str2 = λ _. hang
strcat_copy (suc k) str1 str2 = do
  c ← load str2
  if c == 0 then pure tt else (do store str1 c; strcat_copy k (str1 + 1) (str2 + 1))

unfoldable pub strcat : (fuel str1 str2 : ℕ) → Cmd Memory (Unit {0})
strcat fuel str1 str2 = do end ← strcat_end fuel str1; strcat_copy fuel end str2

unfoldable pub strcmp : (fuel str1 str2 : ℕ) → Memory → Option ℕ
strcmp zero str1 str2 m = none
strcmp (suc k) str1 str2 m =
    let rest = strcmp k (str1 + 1) (str2 + 1) m in
    if not (m str1 == 0) && not (m str2 == 0)
    then (if m str1 == m str2 then rest else some 0)
    else some 1

-- `max_len` bounds the loop.
unfoldable pub safe_strcmp : (str1 str2 max_len : ℕ) → Memory → ℕ
safe_strcmp str1 str2 zero m = 1
safe_strcmp str1 str2 (suc max_len) m =
    let rest = safe_strcmp (str1 + 1) (str2 + 1) max_len m in
    if not (m str1 == 0) && not (m str2 == 0) then (if m str1 == m str2 then rest else 0) else 1

unfoldable pub strlen_loop : (fuel src length : ℕ) → Memory → Option ℕ
strlen_loop zero src length m = none
strlen_loop (suc k) src length m =
    let rest = strlen_loop k src (length + 1) m in
    if m (src + length) == 0 then some length else rest

unfoldable pub strlen : (fuel src : ℕ) → Memory → Option ℕ
strlen fuel src m = strlen_loop fuel src 0 m

-- The length, or `KERN_OVERFLOW` as `none`. The loop runs at most `max + 1` times.
unfoldable pub safe_strlen_loop : (fuel src length max : ℕ) → Memory → ℕ
safe_strlen_loop zero src length max m = length
safe_strlen_loop (suc k) src length max m =
    let rest = safe_strlen_loop k src (length + 1) max m in
    if not (m (src + length) == 0) && leb length max then rest else length

unfoldable pub safe_strlen : (src max : ℕ) → Memory → Option ℕ
safe_strlen src max m =
    let length = safe_strlen_loop (max + 2) src 0 max m in
    if ltb max length then none else some length

-- The loop of `strtok` returns `str` and `token` as it leaves them.
unfoldable pub strtok_loop :
    (fuel str delimiter token token_number current_token : ℕ) → Cmd Memory (ℕ × ℕ)
strtok_loop zero str delimiter token token_number current_token = λ _. hang
strtok_loop (suc k) str delimiter token token_number current_token = do
  c ← load str
  if c == 0
      then pure (str, token)
      else if (current_token == token_number) && (c == delimiter)
      then pure (str, token)
      else (do
        let skip = (c == delimiter) && not (token_number == current_token)
        let here = if skip then str + 1 else str
        let current = if skip then (current_token + 1) % 2 ^ 64 else current_token
        if token_number == current
            then (do
              d ← load here
              store token d
              strtok_loop k (here + 1) delimiter (token + 1) token_number current)
            else strtok_loop k (here + 1) delimiter token token_number current)

unfoldable pub strtok : (fuel str delimiter token token_number : ℕ) → Cmd Memory ℕ
strtok fuel str delimiter token token_number = do
  first ← load str
  left ←
      strtok_loop fuel (if first == delimiter then str + 1 else str) delimiter token token_number 1
  store left.1 0
  c ← load left.0
  pure (if c == 0 then last_token else next_token)

-- `temp` is the address of `temp_string`.
unfoldable pub strtok_count_loop : (fuel str delimiter temp count : ℕ) → Cmd Memory ℕ
strtok_count_loop zero str delimiter temp count = λ _. hang
strtok_count_loop (suc k) str delimiter temp count = do
  last ← strtok (suc k) str delimiter temp (2 ^ 64 - 1)
  if last == last_token
      then pure (count + 1)
      else strtok_count_loop k str delimiter temp (count + 1)

unfoldable pub strtok_count : (fuel str delimiter temp : ℕ) → Cmd Memory ℕ
strtok_count fuel str delimiter temp = strtok_count_loop fuel str delimiter temp 0
