-- ===== src/Host/Header.antt =====
-- The line that harness/harness.c prints before the markers, read by `read_benchmark` of host/host.c.
use mathlib.Core.List.{append_assoc}
use hyper_bench.Base.{
  ℕ, zero, suc, ◌+◌, ◌-◌, ◌*◌, ◌^◌, ◌≤◌, ◌<◌, ◌≡◌, refl, List, [], ◌∷◌, ◌++◌, replicate, length,
  arith, true, false, ◌==◌, ltb, ap, ◌∙◌,
}
use hyper_bench.Host.{
  Stream, is_space, is_digit, skip_space, scan_word, scan_digits, scan_number, scanned,
  read_benchmark,
}
use hyper_bench.Harness.{left_field}
use hyper_bench.Printf.Items.{digit_bytes, AreDigits}
use hyper_bench.Str.Atol.{value_from}

-- The bytes on the stream from the place `i` on; the byte at place `j` is read at time `t j`.
abbrev pub timed : (ℕ → ℕ) → ℕ → List ℕ → Stream
timed t i [] = []
timed t i (c ∷ cs) = (c, t i) ∷ timed t (i + 1) cs

timed-append :
    (t : ℕ → ℕ) (i : ℕ) (a b : List ℕ)
    → timed t i (a ++ b) ≡ timed t i a ++ timed t (i + length a) b
timed-append t i [] b = let e : i + 0 ≡ i = omega arith in rw e refl
timed-append t i (c ∷ a) b =
    let e : i + suc (length a) ≡ i + 1 + length a = omega arith in
    rw e (ap (λ s. (c, t i) ∷ s) (timed-append t (i + 1) a b))

peel :
    (t : ℕ → ℕ) (i : ℕ) (a b : List ℕ) (r : Stream)
    → timed t i (a ++ b) ++ r ≡ timed t i a ++ (timed t (i + length a) b ++ r)
peel t i a b r = rw (timed-append t i a b) (append_assoc (timed t i a) (timed t (i + length a) b) r)

-- A word that `%s` reads whole.
abbrev pub IsWord : List ℕ → Type 0
IsWord [] = Unit {0}
IsWord (c ∷ cs) = (is_space c ≡ false) × IsWord cs

scan_word-timed :
    (t : ℕ → ℕ) (i : ℕ) (w : List ℕ) (r : Stream)
    → IsWord w
    → scan_word r ≡ ([], r)
    → scan_word (timed t i w ++ r) ≡ (w, r)
unfolding scan_word
scan_word-timed t i [] r h e = e
scan_word-timed t i (c ∷ w) r h e = rw (scan_word-timed t (i + 1) w r h.1 e, h.0) refl

scan_word-blanks :
    (t : ℕ → ℕ) (i n : ℕ) (r : Stream)
    → 0 < n
    → scan_word (timed t i (replicate n b' ') ++ r) ≡ ([], timed t i (replicate n b' ') ++ r)
unfolding scan_word
scan_word-blanks t i zero r lt = absurd (omega arith)
scan_word-blanks t i (suc n) r lt = refl

skip_space-blanks :
    (t : ℕ → ℕ) (i n : ℕ) (r : Stream)
    → skip_space (timed t i (replicate n b' ') ++ r) ≡ skip_space r
unfolding skip_space
skip_space-blanks t i zero r = refl
skip_space-blanks t i (suc n) r = skip_space-blanks t (i + 1) n r

skip_space-word :
    (t : ℕ → ℕ) (i c : ℕ) (w : List ℕ) (r : Stream)
    → is_space c ≡ false
    → skip_space (timed t i (c ∷ w) ++ r) ≡ timed t i (c ∷ w) ++ r
unfolding skip_space
skip_space-word t i c w r h = rw h refl

-- No digit comes first.
abbrev Stops : Stream → Type 0
Stops r = (acc : ℕ) → scan_digits acc r ≡ (acc, r)

Stops-blanks :
    (t : ℕ → ℕ) (i n : ℕ) (r : Stream) → Stops r → Stops (timed t i (replicate n b' ') ++ r)
unfolding scan_digits
Stops-blanks t i zero r h acc = h acc
Stops-blanks t i (suc n) r h acc = refl

is_digit-value : (d : ℕ) → d < 10 → is_digit (b'0' + d) ≡ true
is_digit-value d lt = ground arith

scan_digits-timed :
    (t : ℕ → ℕ) (i acc : ℕ) (ds : List ℕ) (r : Stream)
    → AreDigits ds
    → Stops r
    → scan_digits acc (timed t i (digit_bytes ds) ++ r) ≡ (value_from acc ds, r)
unfolding scan_digits
scan_digits-timed t i acc [] r h stop = stop acc
scan_digits-timed t i acc (d ∷ ds) r h stop =
    let e : b'0' + d - b'0' ≡ d = omega arith in
    rw (is_digit-value d h.0, e) (scan_digits-timed t (i + 1) (acc * 10 + d) ds r h.1 stop)

-- `s` in a field to the left.
left_field-eq : (w : ℕ) (s : List ℕ) → 0 < w → left_field w s ≡ s ++ replicate (w - length s) b' '
left_field-eq w s lt =
    let z : 0 - length s ≡ 0 = omega arith in
    let e : suc (w - 1) ≡ w = omega arith in rw (z, e) refl

scan_number-timed :
    (t : ℕ → ℕ) (i d : ℕ) (ds category benchmark : List ℕ) (r : Stream)
    → AreDigits (d ∷ ds)
    → value_from 0 (d ∷ ds) < 2 ^ 63
    → Stops r
    → scan_number category benchmark (timed t i (digit_bytes (d ∷ ds)) ++ r)
      ≡ scanned category benchmark (value_from 0 (d ∷ ds)) (skip_space r)
unfolding scan_number
scan_number-timed t i d ds category benchmark r h small stop =
    let m : (b'0' + d == b'-') ≡ false = ground arith in
    let p : (b'0' + d == b'+') ≡ false = ground arith in
    let all = scan_digits-timed t i 0 (d ∷ ds) r h stop in
    let fits : ltb (value_from 0 (d ∷ ds)) (2 ^ 63) ≡ true = ground arith in
    rw (scan_number, m, p, all, is_digit-value d h.0, fits) (rw m refl)

read_benchmark-parts :
    (t : ℕ → ℕ) (i1 i2 i3 i4 i5 n1 n2 c e d : ℕ) (cs es ds : List ℕ) (r : Stream)
    → IsWord (c ∷ cs)
    → IsWord (e ∷ es)
    → AreDigits (d ∷ ds)
    → length (c ∷ cs) ≤ 127
    → length (e ∷ es) ≤ 127
    → value_from 0 (d ∷ ds) < 2 ^ 63
    → 0 < n1
    → 0 < n2
    → Stops r
    → read_benchmark (
        timed t i1 (c ∷ cs)
        ++ (timed t i2 (replicate n1 b' ')
            ++ (timed t i3 (e ∷ es)
                ++ (timed t i4 (replicate n2 b' ') ++ (timed t i5 (digit_bytes (d ∷ ds)) ++ r)))))
      ≡ scanned (c ∷ cs) (e ∷ es) (value_from 0 (d ∷ ds)) (skip_space r)
unfolding read_benchmark
read_benchmark-parts t i1 i2 i3 i4 i5 n1 n2 c e d cs es ds r hc he hd lc le small l1 l2 stop =
    let s5 = timed t i5 (digit_bytes (d ∷ ds)) ++ r in
    let s4 = timed t i4 (replicate n2 b' ') ++ s5 in
    let s3 = timed t i3 (e ∷ es) ++ s4 in
    let s2 = timed t i2 (replicate n1 b' ') ++ s3 in
    let space : is_space (b'0' + d) ≡ false = ground arith in
    let k1 = skip_space-word t i1 c cs s2 hc.0 in
    let w1 = scan_word-timed t i1 (c ∷ cs) s2 hc (scan_word-blanks t i2 n1 s3 l1) in
    let k2 = skip_space-blanks t i2 n1 s3 ∙ skip_space-word t i3 e es s4 he.0 in
    let w2 = scan_word-timed t i3 (e ∷ es) s4 he (scan_word-blanks t i4 n2 s5 l2) in
    let k3 =
      skip_space-blanks t i4 n2 s5 ∙ skip_space-word t i5 (b'0' + d) (digit_bytes ds) r space in
    let num = scan_number-timed t i5 d ds (c ∷ cs) (e ∷ es) r hd small stop in
    let a1 : (length (c ∷ cs) == 0) ≡ false = ground arith in
    let a2 : ltb 127 (length (c ∷ cs)) ≡ false = ground arith in
    let b1 : (length (e ∷ es) == 0) ≡ false = ground arith in
    let b2 : ltb 127 (length (e ∷ es)) ≡ false = ground arith in
    rw (k1, w1, k2, w2, k3, a1, a2, b1, b2) num

-- What `harness_execute` prints of a benchmark up to the first marker.
abbrev pub header : List ℕ → List ℕ → List ℕ → List ℕ
header category name digits = left_field 15 category ++ (left_field 15 name ++ left_field 10 digits)

header-timed :
    (t : ℕ → ℕ) (category name digits : List ℕ) (r : Stream)
    → (i1 : ℕ) × (i2 : ℕ) × (i3 : ℕ) × (i4 : ℕ) × (i5 : ℕ) × (timed t 0
            (header category name digits)
          ++ r
        ≡ timed t 0 category
          ++ (timed t i1 (replicate (15 - length category) b' ')
              ++ (timed t i2 name
                  ++ (timed t i3 (replicate (15 - length name) b' ')
                      ++ (timed t i4 digits
                          ++ (timed t i5 (replicate (10 - length digits) b' ') ++ r))))))
header-timed t category name digits r =
    let f1 = left_field-eq 15 category (omega arith) in
    let f2 = left_field-eq 15 name (omega arith) in
    let f3 = left_field-eq 10 digits (omega arith) in
    let i1 : ℕ = 0 + length category in
    let i2 : ℕ = i1 + length {A = ℕ} (replicate (15 - length category) b' ') in
    let i3 : ℕ = i2 + length name in
    let i4 : ℕ = i3 + length {A = ℕ} (replicate (15 - length name) b' ') in
    let i5 : ℕ = i4 + length digits in
    (
      i1,
      i2,
      i3,
      i4,
      i5,
      rw (f1, f2, f3, append_assoc, append_assoc, peel, peel, peel, peel, peel) refl,
    )

-- Where the category and the name are words of less than 15 bytes and the number of iterations, in
-- decimal digits, fits `long long`, `read_benchmark` takes from the line that `harness_execute` prints
-- before the marker exactly the category, the name and the number, and leaves the stream at the
-- marker, whatever the times of the bytes.
pub read_benchmark-header :
    (t : ℕ → ℕ) (c e d u : ℕ) (cs es ds : List ℕ) (rest : Stream)
    → IsWord (c ∷ cs)
    → IsWord (e ∷ es)
    → AreDigits (d ∷ ds)
    → length (c ∷ cs) < 15
    → length (e ∷ es) < 15
    → value_from 0 (d ∷ ds) < 2 ^ 63
    → read_benchmark
        (timed t 0 (header (c ∷ cs) (e ∷ es) (digit_bytes (d ∷ ds))) ++ ((b'{', u) ∷ rest))
      ≡ scanned (c ∷ cs) (e ∷ es) (value_from 0 (d ∷ ds)) ((b'{', u) ∷ rest)
read_benchmark-header t c e d u cs es ds rest hc he hd lc le small =
    let r : Stream = (b'{', u) ∷ rest in
    let (i1, i2, i3, i4, i5, cut) = header-timed t (c ∷ cs) (e ∷ es) (digit_bytes (d ∷ ds)) r in
    let n3 : ℕ = 10 - length (digit_bytes (d ∷ ds)) in
    let stop = Stops-blanks t i5 n3 r (λ acc. unfold scan_digits in refl) in
    ap read_benchmark cut
    ∙ read_benchmark-parts t 0 i1 i2 i3 i4 (15 - length (c ∷ cs)) (15 - length (e ∷ es)) c e d cs es
        ds (timed t i5 (replicate n3 b' ') ++ r) hc he hd (omega arith) (omega arith) small
        (omega arith) (omega arith) stop
    ∙ ap (scanned (c ∷ cs) (e ∷ es) (value_from 0 (d ∷ ds)))
        (skip_space-blanks t i5 n3 r ∙ (unfold skip_space in refl))
