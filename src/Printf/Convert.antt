-- ===== src/Printf/Convert.antt =====
-- `vsnprintf` of lib/printf.c from the label `morefmt` to the end of a conversion.
use hyper_bench.Base.{
  ℕ, suc, ◌+◌, ◌%◌, ◌^◌, ◌<◌, ◌≡◌, ◌≢◌, refl, List, [], ◌∷◌, length, arith, some, Bool, true, false,
  ap,
}
use hyper_bench.Base.Int.{ℤ, pos_part, neg_part}
use hyper_bench.Base.Memory.{Memory}
use hyper_bench.Str.Strings.{IsStr, strlen-IsStr}
use hyper_bench.Printf.{
  PStream, StrProps, Conv, again, done, conv_char, conv_number, convert, with_arg, printed,
  print_mem, print_int, int_buf, str_bytes, addchar, add_str,
}
use hyper_bench.Printf.Stream.{padded, print_str-padded}
use hyper_bench.Printf.Digits.{Shows, int_buf-Shows}
use hyper_bench.Printf.Items.{number}

-- The conversion ends at `q`, with the arguments `va` left and the stream `ps`.
pub record Converted (f k : ℕ) (m : Memory) (c : Conv) (q : ℕ) (va : List ℕ) (ps : PStream)
    : Type 0 where
  pub last : Conv
  pub returns : convert f k m c ≡ some last
  pub stands : last.fmt ≡ q
  pub leaves : last.va ≡ va
  pub prints : last.ps ≡ ps

abbrev pub behind : Conv → Conv
behind c = record c { fmt = c.fmt + 1 }

pub convert-done :
    (f k : ℕ) (m : Memory) (c d : Conv)
    → conv_char k m (m c.fmt) (behind c) ≡ done d
    → convert (suc f) k m c ≡ some d
unfolding convert
convert-done f k m c d e = rw (convert, e) refl

pub convert-again :
    (f k : ℕ) (m : Memory) (c d : Conv)
    → conv_char k m (m c.fmt) (behind c) ≡ again d
    → convert (suc f) k m c ≡ convert f k m d
unfolding convert
convert-again f k m c d e = rw (convert, e) refl

pub convert_percent :
    (f k : ℕ) (m : Memory) (c : Conv)
    → m c.fmt ≡ b'%'
    → Converted (suc f) k m c (c.fmt + 1) c.va (addchar c.ps b'%')
convert_percent f k m c e =
    let d : Conv = record (behind c) { ps = addchar c.ps b'%' } in
    record {
      last = d;
      returns = convert-done f k m c d (rw e (unfold conv_char in refl));
      stands = refl;
      leaves = refl;
      prints = refl;
    }

pub convert_chr :
    (f k : ℕ) (m : Memory) (c : Conv) (a : ℕ) (va : List ℕ)
    → m c.fmt ≡ b'c'
    → c.va ≡ a ∷ va
    → Converted (suc f) k m c (c.fmt + 1) va (addchar c.ps (a % 2 ^ 8))
convert_chr f k m c a va e v =
    let d : Conv = record (behind c) { va = va; ps = addchar c.ps (a % 2 ^ 8) } in
    record {
      last = d;
      returns = convert-done f k m c d (rw e (unfold conv_char in unfold with_arg in rw v refl));
      stands = refl;
      leaves = refl;
      prints = refl;
    }

str_bytes-IsStr : (m : Memory) (p : ℕ) (s : List ℕ) → IsStr m p s → str_bytes m p (length s) ≡ s
unfolding str_bytes
str_bytes-IsStr m p [] h = refl
str_bytes-IsStr m p (c ∷ s) h = rw (h.0, str_bytes-IsStr m (p + 1) s h.2) refl

print_mem-padded :
    (k : ℕ) (m : Memory) (ps : PStream) (p : ℕ) (s : List ℕ) (props : StrProps)
    → IsStr m p s
    → length s < k
    → print_mem k m ps p props ≡ some (add_str ps (padded s props))
unfolding print_mem
print_mem-padded k m ps p s props h lt =
    rw (strlen-IsStr k m p s h lt, str_bytes-IsStr m p s h) (ap some (print_str-padded ps s props))

pub convert_str :
    (f k : ℕ) (m : Memory) (c : Conv) (a : ℕ) (va s : List ℕ)
    → m c.fmt ≡ b's'
    → c.va ≡ a ∷ va
    → IsStr m a s
    → length s < k
    → Converted (suc f) k m c (c.fmt + 1) va (add_str c.ps (padded s c.props))
convert_str f k m c a va s e v h lt =
    let d : Conv = record (behind c) { va = va; ps = add_str c.ps (padded s c.props) } in
    let mem = print_mem-padded k m c.ps a s c.props h lt in
    record {
      last = d;
      returns = convert-done f k m c d (
          rw e (
            unfold conv_char in
            unfold conv_number in unfold with_arg in rw v (rw mem (unfold printed in refl))));
      stands = refl;
      leaves = refl;
      prints = refl;
    }

print_int-padded :
    (ps : PStream) (n : ℤ) (buf : List ℕ) (props : StrProps)
    → int_buf n 10 ≡ some buf
    → print_int ps n 10 props ≡ some (add_str ps (padded buf props))
unfolding print_int
print_int-padded ps n buf props e = rw e (ap some (print_str-padded ps buf props))

abbrev pub longs : Bool → ℕ
longs true = 1
longs false = 0

number-short :
    (long : Bool) (a : ℕ)
    → a % 2 ^ 64 ≢ 2 ^ 63
    → (pos_part (number long a) < 2 ^ 63) × (neg_part (number long a) < 2 ^ 63)
number-short true a ne = (ground arith, ground arith)
number-short false a ne = (ground arith, ground arith)

conv_dec :
    (k : ℕ) (m : Memory) (c : Conv) (long : Bool) (a : ℕ) (va : List ℕ) (ps : PStream)
    → c.nlong ≡ longs long
    → c.va ≡ a ∷ va
    → print_int c.ps (number long a) 10 c.props ≡ some ps
    → conv_char k m b'd' c ≡ done (record c { va = va; ps = ps })
unfolding conv_char conv_number with_arg
conv_dec k m c true a va ps l v e = rw (v, l, e) (unfold printed in refl)
conv_dec k m c false a va ps l v e = rw (v, l, e) (unfold printed in refl)

pub convert_dec :
    (f k : ℕ) (m : Memory) (c : Conv) (long : Bool) (a : ℕ) (va : List ℕ)
    → m c.fmt ≡ b'd'
    → c.nlong ≡ longs long
    → c.va ≡ a ∷ va
    → a % 2 ^ 64 ≢ 2 ^ 63
    → (buf : List ℕ) × Shows (number long a) buf
      × Converted (suc f) k m c (c.fmt + 1) va (add_str c.ps (padded buf c.props))
convert_dec f k m c long a va e l v ne =
    let small = number-short long a ne in
    let (buf, out, shows, short) = int_buf-Shows (number long a) small.0 small.1 in
    let ps = add_str c.ps (padded buf c.props) in
    let d : Conv = record (behind c) { va = va; ps = ps } in
    let step =
      conv_dec k m (behind c) long a va ps l v
        (print_int-padded c.ps (number long a) buf c.props out) in
    (
      buf,
      shows,
      record {
        last = d;
        returns = convert-done f k m c d (rw e step);
        stands = refl;
        leaves = refl;
        prints = refl;
      },
    )

pub convert_long :
    (f k : ℕ) (m : Memory) (c : Conv)
    → m c.fmt ≡ b'l'
    → convert (suc f) k m c ≡ convert f k m (record (behind c) { nlong = c.nlong + 1 })
convert_long f k m c e =
    convert-again f k m c (record (behind c) { nlong = c.nlong + 1 })
      (rw e (unfold conv_char in refl))
