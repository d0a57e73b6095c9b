-- ===== src/Printf/Words.antt =====
-- The conversions `%u`, `%x` and `%p` of `vsnprintf` (lib/printf.c).
use hyper_bench.Base.{
  ℕ, suc, ◌+◌, ◌%◌, ◌^◌, ◌<◌, ◌≡◌, refl, List, ◌∷◌, arith, some, Bool, true, false, inl, inr, ◌∙◌,
  ◌==◌, ◌&&◌, ap,
}
use hyper_bench.Base.Memory.{Memory}
use hyper_bench.Printf.{
  PStream, StrProps, Conv, done, conv_char, conv_number, with_arg, printed, print_unsigned, add_str,
}
use hyper_bench.Printf.Stream.{padded}
use hyper_bench.Printf.Digits.{IsBase}
use hyper_bench.Printf.Items.{uns_byte, base_of, word}
use hyper_bench.Printf.Unsigned.{ShowsIn, unsigned_text, print_unsigned-ShowsIn}
use hyper_bench.Printf.Convert.{Converted, behind, convert-done, longs}

text_plain :
    (a b : Bool) (n : ℕ) (ds : List ℕ) (props : StrProps)
    → a ≡ false
    → unsigned_text (a && b) n ds props ≡ padded ds props
text_plain true b n ds props e = absurd cc
text_plain false b n ds props e = refl

conv_uns :
    (k : ℕ) (m : Memory) (c : Conv) (long hex : Bool) (a : ℕ) (va : List ℕ) (ps : PStream)
    → c.nlong ≡ longs long
    → c.va ≡ a ∷ va
    → print_unsigned c.ps (word long a) (base_of hex) c.props ≡ some ps
    → conv_char k m (uns_byte hex) c ≡ done (record c { va = va; ps = ps })
unfolding conv_char conv_number with_arg
conv_uns k m c true true a va ps l v e = rw (v, l, e) (unfold printed in refl)
conv_uns k m c true false a va ps l v e = rw (v, l, e) (unfold printed in refl)
conv_uns k m c false true a va ps l v e = rw (v, l, e) (unfold printed in refl)
conv_uns k m c false false a va ps l v e = rw (v, l, e) (unfold printed in refl)

base_of-IsBase : (hex : Bool) → IsBase (base_of hex)
base_of-IsBase true = inr refl
base_of-IsBase false = inl refl

word-lt : (long : Bool) (a : ℕ) → word long a < 2 ^ 64
word-lt true a = omega arith
word-lt false a = omega arith

pub convert_uns :
    (f k : ℕ) (m : Memory) (c : Conv) (long hex : Bool) (a : ℕ) (va : List ℕ)
    → m c.fmt ≡ uns_byte hex
    → c.nlong ≡ longs long
    → c.props.alternate ≡ false
    → c.va ≡ a ∷ va
    → (ds : List ℕ) × ShowsIn (base_of hex) (word long a) ds
      × Converted (suc f) k m c (c.fmt + 1) va (add_str c.ps (padded ds c.props))
convert_uns f k m c long hex a va e l plain_form v =
    let (ds, shows, out) =
      print_unsigned-ShowsIn c.ps (word long a) (base_of hex) c.props (base_of-IsBase hex)
        (word-lt long a) in
    let ps = add_str c.ps (padded ds c.props) in
    let d : Conv = record (behind c) { va = va; ps = ps } in
    let text =
      text_plain c.props.alternate (base_of hex == 16) (word long a) ds c.props plain_form in
    let step =
      conv_uns k m (behind c) long hex a va ps l v (out ∙ ap (λ t. some (add_str c.ps t)) text) in
    (
      ds,
      shows,
      record {
        last = d;
        returns = convert-done f k m c d (rw e step);
        stands = refl;
        leaves = refl;
        prints = refl;
      },
    )

conv_ptr :
    (k : ℕ) (m : Memory) (c : Conv) (a : ℕ) (va : List ℕ) (ps : PStream)
    → c.va ≡ a ∷ va
    → print_unsigned c.ps (a % 2 ^ 64) 16 (record c.props { alternate = true }) ≡ some ps
    → conv_char k m b'p' c ≡ done (record c { va = va; ps = ps })
unfolding conv_char conv_number with_arg
conv_ptr k m c a va ps v e = rw (v, e) (unfold printed in refl)

pub convert_ptr :
    (f k : ℕ) (m : Memory) (c : Conv) (a : ℕ) (va : List ℕ)
    → m c.fmt ≡ b'p'
    → c.va ≡ a ∷ va
    → (ds : List ℕ) × ShowsIn 16 (a % 2 ^ 64) ds
      × Converted
          (suc f)
          k
          m
          c
          (c.fmt + 1)
          va
          (add_str c.ps (unsigned_text true (a % 2 ^ 64) ds (record c.props { alternate = true })))
convert_ptr f k m c a va e v =
    let props = record c.props { alternate = true } in
    let (ds, shows, out) =
      print_unsigned-ShowsIn c.ps (a % 2 ^ 64) 16 props (inr refl) (omega arith) in
    let ps = add_str c.ps (unsigned_text true (a % 2 ^ 64) ds props) in
    let d : Conv = record (behind c) { va = va; ps = ps } in
    (
      ds,
      shows,
      record {
        last = d;
        returns = convert-done f k m c d (rw e (conv_ptr k m (behind c) a va ps v out));
        stands = refl;
        leaves = refl;
        prints = refl;
      },
    )
