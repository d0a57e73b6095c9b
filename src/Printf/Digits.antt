-- ===== src/Printf/Digits.antt =====
-- The digits that `print_int` and `print_unsigned` of lib/printf.c make, read back.
use native.Mathlib.Nat.{pow-suc, pow-zero}
use mathlib.Core.List.{reverse-append}
use hyper_bench.Base.{
  ℕ, zero, suc, ◌+◌, ◌-◌, ◌*◌, ◌/◌, ◌%◌, ◌^◌, ◌≤◌, ◌<◌, ◌≡◌, ◌⊎◌, inl, inr, refl, Option, some,
  List, [], ◌∷◌, ◌++◌, reverse, arith, ◌==◌, leb, if◌then◌else◌, length, get_elem?, ◌∙◌, ap,
  Bool-cases, true, false, ==_of_ne, ltb_of_lt,
}
use hyper_bench.Base.Int.{ℤ, pos, negsuc, pos_part, neg_part, ltb_ℤ}
use hyper_bench.Printf.{digits, put_digits, put_signed, int_buf, magnitude, digit_fuel}
use hyper_bench.Printf.Reverse.{reverse_buf-reverse, reverse-cons, length-reverse}

-- The value of a digit character.
abbrev pub digit_value : ℕ → ℕ
digit_value c = if leb b'a' c then c - b'a' + 10 else c - b'0'

-- A numeral read from its highest digit on.
abbrev pub read : ℕ → ℕ → List ℕ → ℕ
read base acc [] = acc
read base acc (c ∷ cs) = read base (acc * base + digit_value c) cs

-- A digit list read from its lowest digit on.
abbrev pub read_low : ℕ → List ℕ → ℕ
read_low base [] = 0
read_low base (c ∷ cs) = digit_value c + read_low base cs * base

-- The bases that the conversions use.
abbrev pub IsBase : ℕ → Type 0
IsBase base = (base ≡ 10) ⊎ (base ≡ 16)

read-append :
    (base acc : ℕ) (cs : List ℕ) (c : ℕ)
    → read base acc (cs ++ (c ∷ [])) ≡ read base acc cs * base + digit_value c
read-append base acc [] c = refl
read-append base acc (d ∷ cs) c = read-append base (acc * base + digit_value d) cs c

pub read-reverse : (base : ℕ) (cs : List ℕ) → read base 0 (reverse cs) ≡ read_low base cs
read-reverse base [] = refl
read-reverse base (c ∷ cs) = rw (reverse-cons c cs) (
    read-append base 0 (reverse cs) c
    ∙ omega (arith, ap (λ (t : ℕ). t * base) (read-reverse base cs)))

div-lt_of_lt : (base n t : ℕ) → IsBase base → n < t * base → n / base < t
div-lt_of_lt base n t (inl e) h = rw e (let h' : n < t * 10 = rw e at h in omega arith)
div-lt_of_lt base n t (inr e) h = rw e (let h' : n < t * 16 = rw e at h in omega arith)

div-mod : (base n : ℕ) → IsBase base → n % base + n / base * base ≡ n
div-mod base n (inl e) = rw e (omega arith)
div-mod base n (inr e) = rw e (omega arith)

mod-lt_base : (base n : ℕ) → IsBase base → n % base < 16
mod-lt_base base n (inl e) = rw e (omega arith)
mod-lt_base base n (inr e) = rw e (omega arith)

-- `digits` has the character of each value below 16.
digits-get : (v : ℕ) → v < 16 → (c : ℕ) × (get_elem? digits v ≡ some c) × (digit_value c ≡ v)
digits-get zero h = (b'0', refl, refl)
digits-get (suc zero) h = (b'1', refl, refl)
digits-get (suc (suc zero)) h = (b'2', refl, refl)
digits-get (suc (suc (suc zero))) h = (b'3', refl, refl)
digits-get (suc (suc (suc (suc zero)))) h = (b'4', refl, refl)
digits-get (suc (suc (suc (suc (suc zero))))) h = (b'5', refl, refl)
digits-get (suc (suc (suc (suc (suc (suc zero)))))) h = (b'6', refl, refl)
digits-get (suc (suc (suc (suc (suc (suc (suc zero))))))) h = (b'7', refl, refl)
digits-get (suc (suc (suc (suc (suc (suc (suc (suc v)))))))) h = high v (omega arith)
  where
    high :
        (v : ℕ)
        → v < 8
        → (c : ℕ) × (get_elem? digits (suc (suc (suc (suc (suc (suc (suc (suc v)))))))) ≡ some c)
          × (digit_value c ≡ suc (suc (suc (suc (suc (suc (suc (suc v))))))))
    high zero h = (b'8', refl, refl)
    high (suc zero) h = (b'9', refl, refl)
    high (suc (suc zero)) h = (b'a', refl, refl)
    high (suc (suc (suc zero))) h = (b'b', refl, refl)
    high (suc (suc (suc (suc zero)))) h = (b'c', refl, refl)
    high (suc (suc (suc (suc (suc zero))))) h = (b'd', refl, refl)
    high (suc (suc (suc (suc (suc (suc zero)))))) h = (b'e', refl, refl)
    high (suc (suc (suc (suc (suc (suc (suc zero))))))) h = (b'f', refl, refl)
    high (suc (suc (suc (suc (suc (suc (suc (suc v)))))))) h = absurd (omega arith)

-- What the digit loop returns for `n`, in at most `g` digits.
pub record IsDigits (base n g : ℕ) (r : Option (List ℕ)) : Type 0 where
  pub out : List ℕ
  pub returns : r ≡ some out
  pub value : read_low base out ≡ n
  pub short : length out ≤ g
  pub empty : out ≡ [] → n ≡ 0

pub put_digits-IsDigits :
    (g f base n : ℕ) → IsBase base → n < base ^ g → g < f → IsDigits base n g (put_digits f n base)
unfolding put_digits
put_digits-IsDigits g zero base n b h lt = absurd (omega arith)
put_digits-IsDigits zero (suc f) base n b h lt =
    let z : n ≡ 0 = omega (arith, pow-zero base) in
    record { out = []; returns = rw z; value = rw z; short = omega arith; empty = λ _. z }
put_digits-IsDigits (suc g) (suc f) base n b h lt = elim (Bool-cases (n == 0)) [
  | inl e ↦
      let z : n ≡ 0 = ground arith in
      record { out = []; returns = rw z; value = rw z; short = omega arith; empty = λ _. z }
  | inr e ↦
      let (c, got, val) = digits-get (n % base) (mod-lt_base base n b) in
      let rest =
        put_digits-IsDigits g f base (n / base) b
          (div-lt_of_lt base n (base ^ g) b (rw pow-suc at h)) (omega arith) in
      record {
        out = c ∷ rest.out;
        returns = rw (e, put_digits) (rw (got, rest.returns));
        value = rw (val, rest.value) (div-mod base n b);
        short = omega (arith, rest.short);
        empty = λ q. cc;
      }
]

abbrev pub non_empty : List ℕ → List ℕ
non_empty [] = b'0' ∷ []
non_empty (c ∷ cs) = c ∷ cs

pos_sign : (n : ℕ) → ltb_ℤ (pos n) (pos 0) ≡ false
pos_sign n = ground arith

negsuc_sign : (n : ℕ) → ltb_ℤ (negsuc n) (pos 0) ≡ true
negsuc_sign n = ground arith

length-snoc : (ds : List ℕ) (c : ℕ) → (length (ds ++ (c ∷ [])) == 0) ≡ false
length-snoc [] c = refl
length-snoc (d ∷ ds) c = ground arith

-- On a number that is not negative the two digit loops are one.
put_signed-put_digits : (f n base : ℕ) → put_signed f (pos n) base ≡ put_digits f n base
unfolding put_signed put_digits
put_signed-put_digits zero n base = refl
put_signed-put_digits (suc f) n base = elim (Bool-cases (n == 0)) [
  | inl e ↦ rw (e, put_signed, put_digits) refl
  | inr e ↦ rw (e, put_signed, put_digits, put_signed-put_digits f (n / base) base) refl
]

magnitude_negsuc : (n : ℕ) → n + 1 < 2 ^ 63 → magnitude (negsuc n) ≡ pos (n + 1)
unfolding magnitude
magnitude_negsuc n small =
    let e : (n + 1) % 2 ^ 64 ≡ n + 1 = omega arith in
    rw e (rw (ltb_of_lt (n + 1) (2 ^ 63) small) refl)

int_buf_pos :
    (n : ℕ) (ds : List ℕ)
    → put_digits digit_fuel n 10 ≡ some ds
    → int_buf (pos n) 10 ≡ some (reverse (non_empty ds))
unfolding int_buf magnitude
int_buf_pos n [] e =
    rw (put_signed-put_digits digit_fuel n 10, e, pos_sign n)
      (ap some (reverse_buf-reverse (b'0' ∷ [])))
int_buf_pos n (d ∷ ds) e =
    rw (put_signed-put_digits digit_fuel n 10, e, pos_sign n)
      (rw (==_of_ne (suc (length ds)) 0 (omega arith)) (ap some (reverse_buf-reverse (d ∷ ds))))

int_buf_negsuc :
    (n : ℕ) (ds : List ℕ)
    → n + 1 < 2 ^ 63
    → put_digits digit_fuel (n + 1) 10 ≡ some ds
    → int_buf (negsuc n) 10 ≡ some (b'-' ∷ reverse ds)
unfolding int_buf
int_buf_negsuc n ds small e =
    rw (magnitude_negsuc n small, put_signed-put_digits digit_fuel (n + 1) 10, e, negsuc_sign n)
      (rw (length-snoc ds b'-')
        (ap some (reverse_buf-reverse (ds ++ (b'-' ∷ [])) ∙ reverse-append ds (b'-' ∷ []))))

-- What `buf` shows is `n`: a minus sign exactly on negative numbers, and decimal digits that read
-- back as the magnitude.
abbrev pub Shows : ℤ → List ℕ → Type 0
Shows (pos n) buf = (0 < length buf) × (read 10 0 buf ≡ n)
Shows (negsuc n) buf = (cs : List ℕ) × (buf ≡ b'-' ∷ cs) × (0 < length cs) × (read 10 0 cs ≡ n + 1)

-- Every number above the least `long long` is printed as its decimal numeral, and the numeral takes
-- 20 bytes at most: with the NUL it fits the array `buf` of `print_int`, which has 26.
pub int_buf-Shows :
    (n : ℤ)
    → pos_part n < 2 ^ 63
    → neg_part n < 2 ^ 63
    → (buf : List ℕ) × (int_buf n 10 ≡ some buf) × Shows n buf × (length buf ≤ 20)
int_buf-Shows (pos n) hp hn =
    let d = put_digits-IsDigits 20 digit_fuel 10 n (inl refl) (omega arith) (omega arith) in
    go d.out (int_buf_pos n d.out d.returns) d.value d.short
  where
    go :
        (ds : List ℕ)
        → int_buf (pos n) 10 ≡ some (reverse (non_empty ds))
        → read_low 10 ds ≡ n
        → length ds ≤ 20
        → (buf : List ℕ) × (int_buf (pos n) 10 ≡ some buf) × Shows (pos n) buf × (length buf ≤ 20)
    go [] e v short = (b'0' ∷ [], e, (omega arith, v), omega arith)
    go (c ∷ ds) e v short = (
      reverse (c ∷ ds),
      e,
      (omega (arith, length-reverse (c ∷ ds)), read-reverse 10 (c ∷ ds) ∙ v),
      omega (arith, length-reverse (c ∷ ds)),
    )
int_buf-Shows (negsuc n) hp hn =
    let d = put_digits-IsDigits 19 digit_fuel 10 (n + 1) (inl refl) (omega arith) (omega arith) in
    (
      b'-' ∷ reverse d.out,
      int_buf_negsuc n d.out (omega arith) d.returns,
      (reverse d.out, refl, pos_length d.out d.value, read-reverse 10 d.out ∙ d.value),
      omega (arith, length-reverse d.out, d.short),
    )
  where
    pos_length : (ds : List ℕ) → read_low 10 ds ≡ n + 1 → 0 < length (reverse ds)
    pos_length [] v = absurd (omega arith)
    pos_length (c ∷ ds) v = omega (arith, length-reverse (c ∷ ds))
