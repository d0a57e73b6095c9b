-- ===== src/Str.antt =====
-- lib/string.c over a byte memory. A pointer is an address. A loop that runs until it meets a NUL
-- takes fuel, and `none` says that the fuel ran out; a loop over a count recurs on the count.
pub mod Strings
pub mod Compare
pub mod Blocks
pub mod Search
pub mod Substrings
pub mod Match
pub mod Glob
pub mod Atol
use hyper_bench.Base.{
  ℕ, zero, suc, ◌+◌, ◌-◌, ◌*◌, ◌%◌, ◌^◌, Bool, true, false, ◌&&◌, ◌||◌, not, Option, none, some,
  ◌==◌, leb, ltb, if◌then◌else◌, ◌>>=◌,
}
use hyper_bench.Base.Int.{ℤ, pos, ◌-ℤ◌, signed}
use hyper_bench.Base.Memory.{Memory, poke}

abbrev pub null : ℕ
null = 0

abbrev pub size_max : ℕ
size_max = 2 ^ 64 - 1

strlen_loop : ℕ → Memory → ℕ → ℕ → Option ℕ
strlen_loop zero m buf len = none
strlen_loop (suc f) m buf len = elim (m buf == 0) [
  | true ↦ some len
  | false ↦ strlen_loop f m (buf + 1) (len + 1)
]

unfoldable pub strlen : ℕ → Memory → ℕ → Option ℕ
unfolding strlen_loop
strlen f m buf = strlen_loop f m buf 0

-- `while (*p) ++p;`
find_end : ℕ → Memory → ℕ → Option ℕ
find_end zero m p = none
find_end (suc f) m p = elim (m p == 0) [ true ↦ some p | false ↦ find_end f m (p + 1) ]

-- `while ((*p++ = *src++) != 0);`
copy_loop : ℕ → Memory → ℕ → ℕ → Option Memory
copy_loop zero m p src = none
copy_loop (suc f) m p src = elim (m src == 0) [
  | true ↦ some (poke m p (m src))
  | false ↦ copy_loop f (poke m p (m src)) (p + 1) (src + 1)
]

unfoldable pub strcat : ℕ → Memory → ℕ → ℕ → Option Memory
unfolding find_end copy_loop
strcat f m dest src = do p ← find_end f m dest; copy_loop f m p src

unfoldable pub strcpy : ℕ → Memory → ℕ → ℕ → Option Memory
unfolding strcat
strcpy f m dest src = strcat f (poke m dest 0) dest src

-- A `char` is signed: the difference is that of the signed values.
unfoldable pub strncmp : Memory → ℕ → ℕ → ℕ → ℤ
strncmp m zero a b = pos 0
strncmp m (suc n) a b = elim (not (m a == m b) || (m a == 0)) [
  | true ↦ signed 8 (m a) -ℤ signed 8 (m b)
  | false ↦ strncmp m n (a + 1) (b + 1)
]

unfoldable pub strcmp : Memory → ℕ → ℕ → ℤ
unfolding strncmp
strcmp m a b = strncmp m size_max a b

strchr_loop : ℕ → Memory → ℕ → ℕ → Option ℕ
strchr_loop zero m s c = none
strchr_loop (suc f) m s c = elim (m s == c) [
  | true ↦ some s
  | false ↦ elim (m s == 0) [ true ↦ some null | false ↦ strchr_loop f m (s + 1) c ]
]

unfoldable pub strchr : ℕ → Memory → ℕ → ℕ → Option ℕ
unfolding strchr_loop
strchr f m s c = strchr_loop f m s (c % 2 ^ 8)

unfoldable pub memcmp : Memory → ℕ → ℕ → ℕ → ℤ
memcmp m a b zero = pos 0
memcmp m a b (suc n) = elim (m a == m b) [
  | true ↦ memcmp m (a + 1) (b + 1) n
  | false ↦ pos (m a) -ℤ pos (m b)
]

pub is_zero : ℤ → Bool
is_zero (pos n) = n == 0
is_zero _ = false

-- `while (l1 >= l2) { l1--; if (!memcmp(s1, s2, l2)) return s1; s1++; }`, where `l2` is not 0, so
-- that the loop ends before `l1` can wrap.
strstr_loop : ℕ → Memory → ℕ → ℕ → ℕ → ℕ
strstr_loop zero m s1 s2 l2 = null
strstr_loop (suc l1) m s1 s2 l2 = elim (leb l2 (suc l1)) [
  | true ↦ elim (is_zero (memcmp m s1 s2 l2)) [
    | true ↦ s1
    | false ↦ strstr_loop l1 m (s1 + 1) s2 l2
  ]
  | false ↦ null
]

unfoldable pub strstr : ℕ → Memory → ℕ → ℕ → Option ℕ
unfolding strlen memcmp is_zero strstr_loop
strstr f m s1 s2 = do
  l2 ← strlen f m s2
  (if l2 == 0 then some s1 else do l1 ← strlen f m s1; some (strstr_loop l1 m s1 s2 l2))

-- `for (i = 0; i < n; ++i) a[i] = c;` with `left` rounds to go
memset_loop : ℕ → Memory → ℕ → ℕ → ℕ → Memory
memset_loop zero m s c i = m
memset_loop (suc left) m s c i = memset_loop left (poke m (s + i) (c % 2 ^ 8)) s c (i + 1)

unfoldable pub memset : Memory → ℕ → ℕ → ℕ → Memory
unfolding memset_loop
memset m s c n = memset_loop n m s c 0

memcpy_loop : ℕ → Memory → ℕ → ℕ → ℕ → Memory
memcpy_loop zero m dest src i = m
memcpy_loop (suc left) m dest src i =
    memcpy_loop left (poke m (dest + i) (m (src + i))) dest src (i + 1)

unfoldable pub memcpy : Memory → ℕ → ℕ → ℕ → Memory
unfolding memcpy_loop
memcpy m dest src n = memcpy_loop n m dest src 0

-- `while (n--) *d++ = *s++;`
move_up : ℕ → Memory → ℕ → ℕ → Memory
move_up zero m d s = m
move_up (suc n) m d s = move_up n (poke m d (m s)) (d + 1) (s + 1)

-- `while (n--) *--d = *--s;`
move_down : ℕ → Memory → ℕ → ℕ → Memory
move_down zero m d s = m
move_down (suc n) m d s = move_down n (poke m (d - 1) (m (s - 1))) (d - 1) (s - 1)

unfoldable pub memmove : Memory → ℕ → ℕ → ℕ → Memory
unfolding move_up move_down
memmove m dest src n =
    if leb dest src then move_up n m dest src else move_down n m (dest + n) (src + n)

memchr_loop : ℕ → Memory → ℕ → ℕ → ℕ
memchr_loop zero m str chr = null
memchr_loop (suc n) m str chr = elim (m str == chr) [
  | true ↦ str
  | false ↦ memchr_loop n m (str + 1) chr
]

unfoldable pub memchr : Memory → ℕ → ℕ → ℕ → ℕ
unfolding memchr_loop
memchr m s c n = memchr_loop n m s (c % 2 ^ 8)

-- `while (*s == ' ' || *s == '\t') s++;`
skip_blanks : ℕ → Memory → ℕ → Option ℕ
skip_blanks zero m s = none
skip_blanks (suc f) m s = elim ((m s == b' ') || (m s == 9)) [
  | true ↦ skip_blanks f m (s + 1)
  | false ↦ some s
]

-- The digit loop. `acc` is a `long`, kept as its 64-bit pattern.
digit_loop : ℕ → Memory → ℕ → ℕ → Option ℕ
digit_loop zero m s acc = none
digit_loop (suc f) m s acc = elim ((m s == 0) || (ltb (m s) b'0' || ltb b'9' (m s))) [
  | true ↦ some acc
  | false ↦ digit_loop f m (s + 1) ((acc * 10 + (m s - b'0')) % 2 ^ 64)
]

unfoldable pub atol : ℕ → Memory → ℕ → Option ℤ
unfolding skip_blanks digit_loop
atol f m ptr = do
  s ← skip_blanks f m ptr
  let neg = m s == b'-'
  acc ← digit_loop f m (if neg then s + 1 else if m s == b'+' then s + 1 else s) 0
  some (signed 64 (if neg then (2 ^ 64 - acc) % 2 ^ 64 else acc))

-- Where the pattern starts when a leading '*' is dropped.
abbrev pub after_star : Memory → ℕ → ℕ
after_star m pattern = if m pattern == b'*' then pattern + 1 else pattern

-- The three comparisons of `simple_glob`, on the copy of the pattern without its stars.
unfoldable pub glob_match : ℕ → Memory → ℕ → ℕ → ℕ → Bool → Bool → Option Bool
unfolding strlen strstr strcmp is_zero
glob_match f m text copy n true true = do r ← strstr f m text copy; some (not (r == null))
glob_match f m text copy n false true = do r ← strstr f m text copy; some (r == text)
glob_match f m text copy n true false = do
  text_len ← strlen f m text
  some (if ltb text_len n then false else is_zero (strcmp m (text + text_len - n) copy))
glob_match f m text copy n false false = some (is_zero (strcmp m text copy))

-- `copy` is where the local array `char copy[n + 1]` stands.
unfoldable pub simple_glob : ℕ → Memory → ℕ → ℕ → ℕ → Option Bool
unfolding strlen strcpy glob_match
simple_glob f m copy text pattern = do
  n ← strlen f m pattern
  let star_start = m pattern == b'*'
  let start = after_star m pattern
  let n' = if star_start then n - 1 else n
  m' ← strcpy f m copy start
  let star_end = ltb 0 n' && (m' (start + n' - 1) == b'*')
  let n'' = if star_end then n' - 1 else n'
  let m'' = if star_end then poke m' (copy + n'') 0 else m'
  glob_match f m'' text copy n'' star_start star_end
