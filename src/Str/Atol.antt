-- ===== src/Str/Atol.antt =====
-- `atol` of lib/string.c on decimal numerals.
use hyper_bench.Base.{
  ℕ, zero, suc, ◌+◌, ◌-◌, ◌*◌, ◌%◌, ◌^◌, ◌≤◌, ◌<◌, ◌≡◌, ◌⊎◌, List, [], ◌∷◌, arith, length, some,
}
use hyper_bench.Base.Int.{pos, neg_ℤ}
use hyper_bench.Base.Memory.{Memory}
use hyper_bench.Str.{atol, skip_blanks, digit_loop}

-- The decimal digits `ds` stand at `p`.
abbrev pub HasDigits : Memory → ℕ → List ℕ → Type 0
HasDigits m p [] = Unit {0}
HasDigits m p (d ∷ ds) = (m p ≡ b'0' + d) × (d < 10) × HasDigits m (p + 1) ds

-- The value of decimal digits behind the value `acc`.
abbrev pub value_from : ℕ → List ℕ → ℕ
value_from acc [] = acc
value_from acc (d ∷ ds) = value_from (acc * 10 + d) ds

-- Not a digit.
abbrev pub Stops : ℕ → Type 0
Stops c = (c < b'0') ⊎ (b'9' < c)

value_from-ge : (acc : ℕ) (ds : List ℕ) → acc ≤ value_from acc ds
value_from-ge acc [] = omega arith
value_from-ge acc (d ∷ ds) = omega (arith, value_from-ge (acc * 10 + d) ds)

digit_loop-value_from :
    (f : ℕ) (m : Memory) (p : ℕ) (ds : List ℕ) (acc : ℕ)
    → HasDigits m p ds
    → Stops (m (p + length ds))
    → value_from acc ds < 2 ^ 64
    → length ds < f
    → digit_loop f m p acc ≡ some (value_from acc ds)
unfolding digit_loop
digit_loop-value_from zero m p ds acc h stop small lt = absurd (omega arith)
digit_loop-value_from (suc f) m p [] acc h stop small lt =
    let e : p + 0 ≡ p = omega arith in let s : Stops (m p) = rw e at stop in ground arith
digit_loop-value_from (suc f) m p (d ∷ ds) acc h stop small lt =
    let e : p + suc (length ds) ≡ p + 1 + length ds = omega arith in
    let next : (acc * 10 + (m p - b'0')) % 2 ^ 64 ≡ acc * 10 + d =
      omega (arith, value_from-ge (acc * 10 + d) ds) in
    let rest =
      digit_loop-value_from f m (p + 1) ds (acc * 10 + d) h.2 (rw e at stop) small (omega arith) in
    ground arith

-- `atol` ends on a numeral of one or more decimal digits with anything but a digit behind it, with
-- fuel above the number of digits, and returns its value when that fits a `long`.
pub atol-value_from :
    (f : ℕ) (m : Memory) (p d : ℕ) (ds : List ℕ)
    → HasDigits m p (d ∷ ds)
    → Stops (m (p + length (d ∷ ds)))
    → value_from 0 (d ∷ ds) < 2 ^ 63
    → length (d ∷ ds) < f
    → atol f m p ≡ some (pos (value_from 0 (d ∷ ds)))
unfolding atol skip_blanks
atol-value_from zero m p d ds h stop small lt = absurd (omega arith)
atol-value_from (suc f) m p d ds h stop small lt =
    ground (arith, digit_loop-value_from (suc f) m p (d ∷ ds) 0 h stop (omega arith) lt)

-- A minus sign negates the value.
pub atol_minus :
    (f : ℕ) (m : Memory) (p d : ℕ) (ds : List ℕ)
    → m p ≡ b'-'
    → HasDigits m (p + 1) (d ∷ ds)
    → Stops (m (p + 1 + length (d ∷ ds)))
    → value_from 0 (d ∷ ds) < 2 ^ 63
    → length (d ∷ ds) < f
    → atol f m p ≡ some (neg_ℤ (pos (value_from 0 (d ∷ ds))))
unfolding atol skip_blanks
atol_minus zero m p d ds minus h stop small lt = absurd (omega arith)
atol_minus (suc f) m p d ds minus h stop small lt =
    let run = digit_loop-value_from (suc f) m (p + 1) (d ∷ ds) 0 h stop (omega arith) lt in
    ground (arith, run)
