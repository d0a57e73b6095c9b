-- ===== src/Printf/Widths.antt =====
-- Field widths: `fmtnum` of lib/printf.c, and the cases of `vsnprintf` that call it on a width without
-- the flag '0'.
use hyper_bench.Base.{
  ℕ, zero, suc, ◌+◌, ◌^◌, ◌<◌, ◌≡◌, refl, List, [], ◌∷◌, length, arith, some, true, false, ◌==◌,
  leb, ◌&&◌, ap, ◌-◌, sym, ◌++◌, ◌||◌,
}
use hyper_bench.Base.Int.{pos, neg_ℤ, ℤ}
use hyper_bench.Base.Memory.{Memory}
use hyper_bench.Str.Atol.{HasDigits, Stops, value_from, atol-value_from, atol_minus}
use hyper_bench.Printf.{digit_run, fmtnum, Conv, again, conv_char, convert, numbered, plain}
use hyper_bench.Printf.Items.{
  digit_bytes, AreDigits, At, Width, natural, right, left, width_bytes, props_of, take_width, zeros,
  IsWidth, At-append,
}
use hyper_bench.Printf.Convert.{convert-again, behind}

pub At-HasDigits :
    (m : Memory) (p : ℕ) (ds : List ℕ) → AreDigits ds → At m p (digit_bytes ds) → HasDigits m p ds
At-HasDigits m p [] d h = tt
At-HasDigits m p (x ∷ ds) d h = (h.0, d.0, At-HasDigits m (p + 1) ds d.1 h.1)

pub length-digit_bytes : (ds : List ℕ) → length (digit_bytes ds) ≡ length ds
length-digit_bytes [] = refl
length-digit_bytes (d ∷ ds) = omega (arith, length-digit_bytes ds)

digit_run-HasDigits :
    (k : ℕ) (m : Memory) (p : ℕ) (ds : List ℕ)
    → HasDigits m p ds
    → Stops (m (p + length ds))
    → length ds < k
    → digit_run k m p ≡ some (length ds)
unfolding digit_run
digit_run-HasDigits zero m p ds h stop lt = absurd (omega arith)
digit_run-HasDigits (suc k) m p [] h stop lt =
    let e : p + 0 ≡ p = omega arith in let s : Stops (m p) = rw e at stop in ground arith
digit_run-HasDigits (suc k) m p (d ∷ ds) h stop lt =
    let e : p + suc (length ds) ≡ p + 1 + length ds = omega arith in
    let rest = digit_run-HasDigits k m (p + 1) ds h.2 (rw e at stop) (omega arith) in
    let t : (leb b'0' (m p) && leb (m p) b'9') ≡ true = ground arith in
    rw (t, digit_run, rest) (ap some (omega arith))

pub fmtnum_right :
    (k : ℕ) (m : Memory) (p d : ℕ) (ds : List ℕ)
    → HasDigits m p (d ∷ ds)
    → Stops (m (p + length (d ∷ ds)))
    → value_from 0 (d ∷ ds) < 2 ^ 31
    → length (d ∷ ds) < k
    → fmtnum k m p ≡ some (pos (value_from 0 (d ∷ ds)), p + length (d ∷ ds))
unfolding fmtnum
fmtnum_right k m p d ds h stop small lt =
    let t : (m p == b'-') ≡ false = ground arith in
    let z : p + 0 ≡ p = omega arith in
    let run = digit_run-HasDigits k m p (d ∷ ds) h stop lt in
    let num = atol-value_from k m p d ds h stop (omega arith) lt in
    rw (t, z, run, num) (ground arith)

pub fmtnum_left :
    (k : ℕ) (m : Memory) (p d : ℕ) (ds : List ℕ)
    → m p ≡ b'-'
    → HasDigits m (p + 1) (d ∷ ds)
    → Stops (m (p + 1 + length (d ∷ ds)))
    → value_from 0 (d ∷ ds) < 2 ^ 31
    → length (d ∷ ds) < k
    → fmtnum k m p ≡ some (neg_ℤ (pos (value_from 0 (d ∷ ds))), p + 1 + length (d ∷ ds))
unfolding fmtnum
fmtnum_left k m p d ds minus h stop small lt =
    let t : (m p == b'-') ≡ true = ground arith in
    let run = digit_run-HasDigits k m (p + 1) (d ∷ ds) h stop lt in
    let num = atol_minus k m p d ds minus h stop (omega arith) lt in rw (t, run, num) (ground arith)

-- `c` behind the width `w`.
abbrev pub sized : Conv → Width → Conv
sized c w = record c { fmt = c.fmt + length (width_bytes w); props = take_width c.props w }

conv_char-number :
    (k : ℕ) (m : Memory) (c : Conv) (b : ℕ) (n : ℤ) (q : ℕ)
    → (leb b'1' b && leb b b'9') || (b == b'-') ≡ true
    → fmtnum k m (c.fmt - 1) ≡ some (n, q)
    → conv_char k m b c ≡ again (record c { fmt = q; props = record c.props { npad = n } })
unfolding conv_char
conv_char-number k m c b n q t e =
    let t1 : (b == b'%') ≡ false = ground arith in
    let t2 : (b == b'c') ≡ false = ground arith in
    let t3 : (b == 0) ≡ false = ground arith in
    let t4 : (b == b'#') ≡ false = ground arith in
    let t5 : (b == b'0') ≡ false = ground arith in
    rw (t1, t2, t3, t4, t5, t, e) (unfold numbered in refl)

convert_number :
    (f k : ℕ) (m : Memory) (c : Conv) (b : ℕ) (n : ℤ) (q : ℕ)
    → m c.fmt ≡ b
    → (leb b'1' b && leb b b'9') || (b == b'-') ≡ true
    → fmtnum k m (c.fmt + 1 - 1) ≡ some (n, q)
    → convert (suc f) k m c
      ≡ convert f k m (record c { fmt = q; props = record c.props { npad = n } })
convert_number f k m c b n q at t e =
    convert-again f k m c (record c { fmt = q; props = record c.props { npad = n } })
      (rw at (conv_char-number k m (behind c) b n q t e))

convert_zeros :
    (f k : ℕ) (m : Memory) (c : Conv) (n : ℤ) (q : ℕ)
    → m c.fmt ≡ b'0'
    → fmtnum k m (c.fmt + 1) ≡ some (n, q)
    → convert (suc f) k m c
      ≡ convert f k m (record c { fmt = q; props = record c.props { pad = b'0'; npad = n } })
convert_zeros f k m c n q at e =
    convert-again f k m c (record c { fmt = q; props = record c.props { pad = b'0'; npad = n } })
      (rw at (unfold conv_char in rw e (unfold numbered in refl)))

is_first_digit :
    (d : ℕ)
    → 0 < d
    → d < 10
    → (leb b'1' (b'0' + d) && leb (b'0' + d) b'9') || (b'0' + d == b'-') ≡ true
is_first_digit d lo hi = ground arith

-- Behind a width the conversion goes on, with the width taken and two rounds left.
pub convert_width :
    (f k : ℕ) (m : Memory) (c : Conv) (w : Width) (b : ℕ) (bs : List ℕ)
    → At m c.fmt (width_bytes w ++ (b ∷ bs))
    → Stops b
    → IsWidth k w
    → c.props ≡ plain
    → (g : ℕ) × (convert (suc (suc (suc f))) k m c ≡ convert (suc (suc g)) k m (sized c w))
      × At m (sized c w).fmt (b ∷ bs)
      × ((sized c w).props ≡ props_of w)
convert_width f k m c natural b bs h stop ok pl =
    let e : c.fmt + 0 ≡ c.fmt = omega arith in (suc f, rw e refl, rw e h, pl)
convert_width f k m c (right d ds) b bs h stop ok pl =
    let z : c.fmt + 1 - 1 ≡ c.fmt = omega arith in
    let (l, r) = At-append m c.fmt (width_bytes (right d ds)) (b ∷ bs) h in
    let len = length-digit_bytes ds in
    let q : c.fmt + suc (length (digit_bytes ds)) ≡ c.fmt + suc (length ds) =
      ap (λ n. c.fmt + suc n) len in
    let num =
      fmtnum_right k m c.fmt d ds (At-HasDigits m c.fmt (d ∷ ds) ok.1 l) (rw (sym q, r.0) stop) ok.2
        (omega arith) in
    let t = is_first_digit d ok.0 ok.1.0 in
    let step =
      convert_number (suc (suc f)) k m c (b'0' + d) (pos (value_from 0 (d ∷ ds)))
        (c.fmt + suc (length ds)) l.0 t (rw z num) in
    (f, rw q step, r, ap (λ p. take_width p (right d ds)) pl)
convert_width f k m c (left d ds) b bs h stop ok pl =
    let z : c.fmt + 1 - 1 ≡ c.fmt = omega arith in
    let (l, r) = At-append m c.fmt (width_bytes (left d ds)) (b ∷ bs) h in
    let len = length-digit_bytes ds in
    let q : c.fmt + suc (suc (length (digit_bytes ds))) ≡ c.fmt + 1 + suc (length ds) =
      omega (arith, len) in
    let num =
      fmtnum_left k m c.fmt d ds l.0 (At-HasDigits m (c.fmt + 1) (d ∷ ds) ok.0 l.1)
        (rw (sym q, r.0) stop) ok.1 (omega arith) in
    let step =
      convert_number (suc (suc f)) k m c b'-' (neg_ℤ (pos (value_from 0 (d ∷ ds))))
        (c.fmt + 1 + suc (length ds)) l.0 refl (rw z num) in
    (f, rw q step, r, ap (λ p. take_width p (left d ds)) pl)
convert_width f k m c (zeros d ds) b bs h stop ok pl =
    let (l, r) = At-append m c.fmt (width_bytes (zeros d ds)) (b ∷ bs) h in
    let len = length-digit_bytes ds in
    let q : c.fmt + suc (suc (length (digit_bytes ds))) ≡ c.fmt + 1 + suc (length ds) =
      omega (arith, len) in
    let num =
      fmtnum_right k m (c.fmt + 1) d ds (At-HasDigits m (c.fmt + 1) (d ∷ ds) ok.0 l.1)
        (rw (sym q, r.0) stop) ok.1 (omega arith) in
    let step =
      convert_zeros (suc (suc f)) k m c (pos (value_from 0 (d ∷ ds))) (c.fmt + 1 + suc (length ds))
        l.0 num in
    (f, rw q step, r, ap (λ p. take_width p (zeros d ds)) pl)
