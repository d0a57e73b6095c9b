-- ===== src/Printf.antt =====
-- lib/printf.c. The format and the strings that `%s` prints stand in a byte memory; the output
-- buffer is the list of the bytes stored so far. A `va_list` is the list of its 64-bit slots. `none`
-- is a fault: a read outside `digits`, a missing argument, or fuel that ran out.
pub mod Reverse
pub mod Digits
pub mod Stream
pub mod Streams
pub mod Rounds
pub mod Truncate
pub mod Literal
pub mod Items
pub mod Widths
pub mod Unsigned
pub mod Convert
pub mod Words
pub mod Binary
pub mod Conversion
pub mod Formats
use hyper_bench.Base.{
  ℕ, zero, suc, ◌+◌, ◌-◌, ◌*◌, ◌/◌, ◌%◌, ◌^◌, ◌≡◌, Bool, true, false, ◌&&◌, ◌||◌, not, Option, none,
  some, List, [], ◌∷◌, ◌++◌, ◌==◌, leb, ltb, if◌then◌else◌, ◌>>=◌, length, get_elem?, get_or, set,
}
use hyper_bench.Base.Int.{
  ℤ, pos, negsuc, pos_part, neg_part, ◌+ℤ◌, ◌-ℤ◌, ltb_ℤ, signed, pattern_of, neg_ℤ,
}
use hyper_bench.Base.Memory.{Memory}
use hyper_bench.Str.{strlen, atol}

abbrev pub bufsz : ℕ
bufsz = 2000

-- `struct pstream`: `written` is what stands before `buffer`. `added` is an int, which the model does not
-- bound: its overflow has no defined result.
pub record PStream : Type 0 where
  pub written : List ℕ
  pub remain : ℤ
  pub added : ℕ

-- `struct strprops`
pub record StrProps : Type 0 where
  pub pad : ℕ
  pub npad : ℤ
  pub alternate : Bool

pub is_zero : ℤ → Bool
is_zero (pos n) = n == 0
is_zero _ = false

unfoldable pub addchar : PStream → ℕ → PStream
unfolding is_zero
addchar p c =
    if is_zero p.remain
    then record p { added = p.added + 1 }
    else record { written = p.written ++ (c ∷ []); remain = p.remain -ℤ pos 1; added = p.added + 1 }

-- The rounds of `while (npad > 0)` and `while (npad < 0)`.
pub add_pad : ℕ → PStream → ℕ → PStream
add_pad zero p c = p
add_pad (suc n) p c = add_pad n (addchar p c) c

-- `while (*s) addchar(p, *s++);`
pub add_str : PStream → List ℕ → PStream
add_str p [] = p
add_str p (c ∷ s) = add_str (addchar p c) s

-- What `npad` is behind `while (npad > 0) { …; --npad; }`.
pub after_pad : ℤ → ℤ
after_pad n = if ltb_ℤ (pos 0) n then pos 0 else n

pub print_str : PStream → List ℕ → StrProps → PStream
unfolding add_pad add_str after_pad
print_str p s props =
    let len = pos (length s) in
    let left = ltb_ℤ (pos 0) props.npad in
    let n1 = if left then props.npad -ℤ len else props.npad in
    let p1 = if left then add_pad (pos_part n1) p props.pad else p in
    let n2 = if left then after_pad n1 else n1 in
    let p2 = add_str p1 s in if ltb_ℤ n2 (pos 0) then add_pad (neg_part (n2 +ℤ len)) p2 b' ' else p2

abbrev pub digits : List ℕ
digits =
    b'0' ∷ b'1' ∷ b'2' ∷ b'3' ∷ b'4' ∷ b'5' ∷ b'6' ∷ b'7' ∷ b'8' ∷ b'9' ∷ b'a' ∷ b'b' ∷ b'c' ∷ b'd'
    ∷ b'e' ∷ b'f' ∷ []

-- `while (n) { *p++ = digits[n % base]; n /= base; }` of `print_unsigned`, lowest digit first
pub put_digits : ℕ → ℕ → ℕ → Option (List ℕ)
put_digits zero n base = none
put_digits (suc f) n base = elim (n == 0) [
  | true ↦ some []
  | false ↦ do c ← get_elem? digits (n % base); rest ← put_digits f (n / base) base; some (c ∷ rest)
]

-- The loop that reverses `buf`, whose length is `len`, from index `i` on.
pub swap_loop : ℕ → ℕ → ℕ → List ℕ → List ℕ
swap_loop zero i len buf = buf
swap_loop (suc left) i len buf =
    swap_loop left (i + 1) len
      (set (set buf i (get_or buf (len - 1 - i) 0)) (len - 1 - i) (get_or buf i 0))

pub reverse_buf : List ℕ → List ℕ
unfolding swap_loop
reverse_buf buf = swap_loop (length buf / 2) 0 (length buf) buf

-- A 64-bit number has at most 64 digits.
abbrev pub digit_fuel : ℕ
digit_fuel = 65

-- `n < 0 ? -n : n` on 64 bits, which wraps at the least `long long`.
pub magnitude : ℤ → ℤ
magnitude (pos n) = pos n
magnitude (negsuc n) = signed 64 ((n + 1) % 2 ^ 64)

-- `digits[n % base]` and `n / base`, where `/` rounds to zero and `%` has the sign of `n`; an index below
-- the start of `digits` is a fault.
pub digit_at : ℤ → ℕ → Option ℕ
digit_at (pos n) base = get_elem? digits (n % base)
digit_at (negsuc n) base = if (n + 1) % base == 0 then get_elem? digits 0 else none

pub quotient : ℤ → ℕ → ℤ
quotient (pos n) base = pos (n / base)
quotient (negsuc n) base = neg_ℤ (pos ((n + 1) / base))

-- The digit loop of `print_int`, on a `long long`.
pub put_signed : ℕ → ℤ → ℕ → Option (List ℕ)
unfolding digit_at quotient is_zero
put_signed zero n base = none
put_signed (suc f) n base = elim (is_zero n) [
  | true ↦ some []
  | false ↦ do c ← digit_at n base; rest ← put_signed f (quotient n base) base; some (c ∷ rest)
]

pub int_buf : ℤ → ℕ → Option (List ℕ)
unfolding put_signed reverse_buf magnitude
int_buf n base = do
  ds ← put_signed digit_fuel (magnitude n) base
  let signs = if ltb_ℤ n (pos 0) then ds ++ (b'-' ∷ []) else ds
  some (reverse_buf (if length signs == 0 then b'0' ∷ [] else signs))

pub print_int : PStream → ℤ → ℕ → StrProps → Option PStream
unfolding int_buf print_str
print_int ps n base props = do buf ← int_buf n base; some (print_str ps buf props)

-- `MAX(props.npad - 2, 0)`, when `npad` is positive
pub shrink_pad : StrProps → StrProps
shrink_pad props =
    if ltb_ℤ (pos 0) props.npad
    then record props { npad = pos (pos_part (props.npad -ℤ pos 2)) }
    else props

pub print_unsigned : PStream → ℕ → ℕ → StrProps → Option PStream
unfolding put_digits reverse_buf print_str shrink_pad
print_unsigned ps n base props = do
  ds ← put_digits digit_fuel n base
  let prefix = not (length ds == 0) && (props.alternate && (base == 16))
  let early = prefix && (props.pad == b'0')
  let buf =
      if length ds == 0
      then b'0' ∷ []
      else if prefix && not early
      then ds ++ (b'x' ∷ b'0' ∷ [])
      else ds
  let ps' = if early then addchar (addchar ps b'0') b'x' else ps
  some (print_str ps' (reverse_buf buf) (if early then shrink_pad props else props))

-- `while (*f >= '0' && *f <= '9') ++f, ++len;`
pub digit_run : ℕ → Memory → ℕ → Option ℕ
digit_run zero m f = none
digit_run (suc k) m f = elim (leb b'0' (m f) && leb (m f) b'9') [
  | true ↦ do len ← digit_run k m (f + 1); some (len + 1)
  | false ↦ some 0
]

-- The number, and where the format goes on.
pub fmtnum : ℕ → Memory → ℕ → Option (ℤ × ℕ)
unfolding digit_run
fmtnum k m fmt = do
  let sign = if m fmt == b'-' then 1 else 0
  len ← digit_run k m (fmt + sign)
  num ← atol k m fmt
  some (signed 32 (pattern_of 32 num), fmt + sign + len)

-- The variables of `vsnprintf` at the label `morefmt`.
pub record Conv : Type 0 where
  pub fmt : ℕ
  pub nlong : ℕ
  pub props : StrProps
  pub va : List ℕ
  pub ps : PStream

pub data Next : Type 0 where
  again done : Conv → Next
  fault : Next

-- `va_arg`
pub with_arg : Conv → (Conv → ℕ → Next) → Next
with_arg c k = elim c.va [ [] ↦ fault | a ∷ rest ↦ k (record c { va = rest }) a ]

pub printed : Conv → Option PStream → Next
printed c none = fault
printed c (some p) = done (record c { ps = p })

pub numbered : Conv → Option (ℤ × ℕ) → Next
numbered c none = fault
numbered c (some (n, fmt)) = again (record c { fmt = fmt; props = record c.props { npad = n } })

-- The bytes of the string at `s`.
pub str_bytes : Memory → ℕ → ℕ → List ℕ
str_bytes m s zero = []
str_bytes m s (suc n) = m s ∷ str_bytes m (s + 1) n

pub print_mem : ℕ → Memory → PStream → ℕ → StrProps → Option PStream
unfolding str_bytes print_str
print_mem k m ps s props = do len ← strlen k m s; some (print_str ps (str_bytes m s len) props)

-- The last cases of the `switch`: those that print a number or a string, and `default`.
pub conv_number : ℕ → Memory → ℕ → Conv → Next
conv_number k m f c =
    if f == b'd'
    then with_arg c (λ d a. printed d (
        print_int d.ps (if d.nlong == 0 then signed 32 (a % 2 ^ 32) else signed 64 (a % 2 ^ 64)) 10
          d.props))
    else if (f == b'u') || (f == b'x')
    then with_arg c (λ d a. printed d (
        print_unsigned d.ps (if d.nlong == 0 then a % 2 ^ 32 else a % 2 ^ 64)
          (if f == b'u' then 10 else 16) d.props))
    else if f == b'p'
    then with_arg c (λ d a.
      printed d (print_unsigned d.ps (a % 2 ^ 64) 16 (record d.props { alternate = true })))
    else if f == b's'
    then with_arg c (λ d a. printed d (print_mem k m d.ps a d.props))
    else done (record c { ps = addchar c.ps f })

-- The `switch`, with `c.fmt` behind the character `f`.
pub conv_char : ℕ → Memory → ℕ → Conv → Next
conv_char k m f c =
    if f == b'%'
    then done (record c { ps = addchar c.ps b'%' })
    else if f == b'c'
    then with_arg c (λ d a. done (record d { ps = addchar d.ps (a % 2 ^ 8) }))
    else if f == 0
    then done (record c { fmt = c.fmt - 1 })
    else if f == b'#'
    then again (record c { props = record c.props { alternate = true } })
    else if f == b'0'
    then numbered (record c { props = record c.props { pad = b'0' } }) (fmtnum k m c.fmt)
    else if (leb b'1' f && leb f b'9') || (f == b'-')
    then numbered c (fmtnum k m (c.fmt - 1))
    else if f == b'l'
    then again (record c { nlong = c.nlong + 1 })
    else if (f == b't') || (f == b'z')
    then again (record c { nlong = 1 })
    else conv_number k m f c

-- From `morefmt` to the end of the conversion.
pub convert : ℕ → ℕ → Memory → Conv → Option Conv
unfolding conv_char conv_number fmtnum with_arg printed numbered print_int print_unsigned print_mem
convert zero k m c = none
convert (suc f) k m c = elim (conv_char k m (m c.fmt) (record c { fmt = c.fmt + 1 })) [
  | again d ↦ convert f k m d
  | done d ↦ some d
  | fault ↦ none
]

abbrev pub plain : StrProps
plain = record { pad = b' '; npad = pos 0; alternate = false }

-- `while (*fmt)`. `k` is the fuel of each inner loop.
pub format_loop : ℕ → ℕ → Memory → ℕ → List ℕ → PStream → Option PStream
unfolding convert
format_loop zero k m fmt va ps = none
format_loop (suc f) k m fmt va ps = elim (m fmt == 0) [
  | true ↦ some ps
  | false ↦ elim (m fmt == b'%') [
    | true ↦ do
      c ← convert k k m (record { fmt = fmt + 1; nlong = 0; props = plain; va = va; ps = ps })
      format_loop f k m c.fmt c.va c.ps
    | false ↦ format_loop f k m (fmt + 1) va (addchar ps (m fmt))
  ]
]

-- The bytes stored from `buf` on, with the last NUL, and the result `s.added`.
unfoldable pub vsnprintf : ℕ → Memory → ℤ → ℕ → List ℕ → Option (List ℕ × ℕ)
unfolding format_loop
vsnprintf k m size fmt va = do
  s ← format_loop k k m fmt va (record { written = []; remain = size -ℤ pos 1; added = 0 })
  some (s.written ++ (0 ∷ []), s.added)

unfoldable pub snprintf : ℕ → Memory → ℤ → ℕ → List ℕ → Option (List ℕ × ℕ)
unfolding vsnprintf
snprintf k m size fmt va = vsnprintf k m size fmt va

-- The bytes up to the first NUL, which is what `puts` sends.
pub until_nul : List ℕ → List ℕ
until_nul [] = []
until_nul (c ∷ s) = if c == 0 then [] else c ∷ until_nul s

-- The bytes sent to the output device, and the result.
unfoldable pub printf : ℕ → Memory → ℕ → List ℕ → Option (List ℕ × ℕ)
unfolding vsnprintf until_nul
printf k m fmt va = do (buf, r) ← vsnprintf k m (pos bufsz) fmt va; some (until_nul buf, r)

-- One round of the loop of `binstr`: the bit `n - i - 1` of `x`, and a quote behind each fourth.
pub binstr_loop : ℕ → ℕ → ℕ → List ℕ
binstr_loop zero i x = 0 ∷ []
binstr_loop (suc left) i x =
    (if (x / 2 ^ left) % 2 == 1 then b'1' else b'0')
    ∷ (let rest = binstr_loop left (i + 1) x in
        if left == 0 then rest else if (i + 1) % 4 == 0 then b'\'' ∷ rest else rest)

-- `out` behind `binstr(x, out)`
unfoldable pub binstr : ℕ → List ℕ
unfolding binstr_loop
binstr x = binstr_loop 64 0 x
