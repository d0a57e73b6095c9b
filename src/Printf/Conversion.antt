-- ===== src/Printf/Conversion.antt =====
-- The conversions of `vsnprintf` (lib/printf.c), each with its width and its argument.
use mathlib.Core.Path.{subst}
use hyper_bench.Base.{
  ap, ℕ, suc, ◌+◌, ◌%◌, ◌^◌, ◌<◌, ◌≡◌, inr, refl, List, [], ◌∷◌, ◌++◌, length, length-append, arith,
  Bool, true, false, ◌∙◌,
}
use hyper_bench.Base.Memory.{Memory}
use hyper_bench.Str.Atol.{Stops}
use hyper_bench.Printf.{PStream, Conv, convert, addchar, add_str, plain}
use hyper_bench.Printf.Stream.{padded}
use hyper_bench.Printf.Items.{
  Width, natural, right, left, zeros, uns, ptr, uns_byte, Item, lit, percent, chr, str, dec,
  width_bytes, tail_of, long_bytes, slots, props_of, Prints, IsItem, At,
}
use hyper_bench.Printf.Words.{convert_uns, convert_ptr}
use hyper_bench.Printf.Unsigned.{unsigned_text}
use hyper_bench.Printf.Convert.{
  longs, Converted, convert_percent, convert_chr, convert_str, convert_dec, convert_long, behind,
}
use hyper_bench.Printf.Widths.{convert_width, sized}

-- The rounds that lead to a conversion's end are its first ones.
pub Converted-step :
    {f g k : ℕ} {m : Memory} {c d : Conv} {q q' : ℕ} {va : List ℕ} {ps : PStream}
    → convert f k m c ≡ convert g k m d
    → q ≡ q'
    → Converted g k m d q va ps
    → Converted f k m c q' va ps
Converted-step e same r = record {
  last = r.last;
  returns = e ∙ r.returns;
  stands = r.stands ∙ same;
  leaves = r.leaves;
  prints = r.prints;
}

-- The conversion of an item: it ends behind the item, without the item's argument, and adds a text
-- that the item prints.
pub record PrintsAt (f k : ℕ) (m : Memory) (c : Conv) (x : Item) (va : List ℕ) : Type 0 where
  pub text : List ℕ
  pub right_text : Prints x text
  pub ends : Converted f k m c (c.fmt + length (tail_of x)) va (add_str c.ps text)

-- An `l`, where there is one.
long_bytes-cons :
    (long : Bool) (b : ℕ)
    → Stops b
    → (b' : ℕ) × (bs : List ℕ) × (long_bytes long b ≡ b' ∷ bs) × Stops b'
long_bytes-cons true b stop = (b'l', b ∷ [], refl, inr (omega arith))
long_bytes-cons false b stop = (b, [], refl, stop)

convert_long-Converted :
    (f k : ℕ) (m : Memory) (c : Conv) (long : Bool) (b : ℕ)
    → At m c.fmt (long_bytes long b)
    → c.nlong ≡ 0
    → (d : Conv) × (g : ℕ) × (convert (suc (suc f)) k m c ≡ convert (suc g) k m d)
      × (m d.fmt ≡ b)
      × (d.fmt + 1 ≡ c.fmt + length (long_bytes long b))
      × (d.nlong ≡ longs long)
      × (d.props ≡ c.props)
      × (d.va ≡ c.va)
      × (d.ps ≡ c.ps)
convert_long-Converted f k m c true b h l = (
  record (behind c) { nlong = c.nlong + 1 },
  f,
  convert_long (suc f) k m c h.0,
  h.1.0,
  omega arith,
  omega arith,
  refl,
  refl,
  refl,
)
convert_long-Converted f k m c false b h l = (c, suc f, refl, h.0, refl, l, refl, refl, refl)

uns_byte-Stops : (hex : Bool) → Stops (uns_byte hex)
uns_byte-Stops true = inr (omega arith)
uns_byte-Stops false = inr (omega arith)

plain_width : (w : Width) → (props_of w).alternate ≡ false
plain_width natural = refl
plain_width (right d ds) = refl
plain_width (left d ds) = refl
plain_width (zeros d ds) = refl

pub convert-item :
    (f k : ℕ) (m : Memory) (c : Conv) (x : Item) (va : List ℕ)
    → 0 < length (tail_of x)
    → IsItem k m x
    → At m c.fmt (tail_of x)
    → c.nlong ≡ 0
    → c.props ≡ plain
    → c.va ≡ slots x ++ va
    → PrintsAt (suc (suc (suc f))) k m c x va
convert-item f k m c (lit b) va lt ok h l pl v = absurd (omega arith)
convert-item f k m c percent va lt ok h l pl v = record {
  text = b'%' ∷ [];
  right_text = refl;
  ends =
      unfold add_str in
      subst (λ va'. Converted (suc (suc (suc f))) k m c (c.fmt + 1) va' (addchar c.ps b'%')) v
        (convert_percent (suc (suc f)) k m c h.0);
}
convert-item f k m c (chr a) va lt ok h l pl v = record {
  text = a % 2 ^ 8 ∷ [];
  right_text = refl;
  ends = unfold add_str in convert_chr (suc (suc f)) k m c a va h.0 v;
}
convert-item f k m c (str w a s) va lt ok h l pl v =
    let (g, step, here, took) = convert_width f k m c w b's' [] h (inr (omega arith)) ok.0 pl in
    let r = convert_str (suc g) k m (sized c w) a va s here.0 v ok.1 ok.2 in
    let e = length-append (width_bytes w) (b's' ∷ []) in
    record {
      text = padded s (props_of w);
      right_text = refl;
      ends = Converted-step step (omega (arith, e)) (
          subst
            (λ pr.
              Converted (suc (suc g)) k m (sized c w) ((sized c w).fmt + 1) va
                (add_str c.ps (padded s pr)))
            took r);
    }
convert-item f k m c (dec w long a) va lt ok h l pl v =
    let (b, bs, same, stop) = long_bytes-cons long b'd' (inr (omega arith)) in
    let (g, step, here, took) = convert_width f k m c w b bs (rw same at h) stop ok.0 pl in
    let (d, g', more, at, len, ls, ps, vs, out) =
      convert_long-Converted g k m (sized c w) long b'd' (rw same here) l in
    let (buf, shows, r) = convert_dec g' k m d long a va at ls (vs ∙ v) ok.1 in
    let e = length-append (width_bytes w) (long_bytes long b'd') in
    record {
      text = padded buf (props_of w);
      right_text = (buf, shows, refl);
      ends = Converted-step (step ∙ more) (omega (arith, e, len)) (rw (out, ps ∙ took) at r);
    }
convert-item f k m c (uns w long hex a) va lt ok h l pl v =
    let (b, bs, same, stop) = long_bytes-cons long (uns_byte hex) (uns_byte-Stops hex) in
    let (g, step, here, took) = convert_width f k m c w b bs (rw same at h) stop ok pl in
    let (d, g', more, at, len, ls, ps, vs, out) =
      convert_long-Converted g k m (sized c w) long (uns_byte hex) (rw same here) l in
    let plain_form = ap (λ p. p.alternate) (ps ∙ took) ∙ plain_width w in
    let (ds, shows, r) = convert_uns g' k m d long hex a va at ls plain_form (vs ∙ v) in
    let e = length-append (width_bytes w) (long_bytes long (uns_byte hex)) in
    record {
      text = padded ds (props_of w);
      right_text = (ds, shows, refl);
      ends = Converted-step (step ∙ more) (omega (arith, e, len)) (rw (out, ps ∙ took) at r);
    }
convert-item f k m c (ptr w a) va lt ok h l pl v =
    let (g, step, here, took) = convert_width f k m c w b'p' [] h (inr (omega arith)) ok pl in
    let (ds, shows, r) = convert_ptr (suc g) k m (sized c w) a va here.0 v in
    let e = length-append (width_bytes w) (b'p' ∷ []) in
    record {
      text = unsigned_text true (a % 2 ^ 64) ds (record (props_of w) { alternate = true });
      right_text = (ds, shows, refl);
      ends = Converted-step step (omega (arith, e)) (
          subst
            (λ pr.
              Converted (suc (suc g)) k m (sized c w) ((sized c w).fmt + 1) va (
                add_str c.ps (unsigned_text true (a % 2 ^ 64) ds (record pr { alternate = true }))))
            took r);
    }
