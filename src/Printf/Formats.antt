-- ===== src/Printf/Formats.antt =====
-- `vsnprintf` of lib/printf.c on formats of plain bytes and conversions with field widths.
use hyper_bench.Base.{
  ℕ, zero, suc, ◌+◌, ◌<◌, ◌≡◌, ◌≢◌, refl, sym, List, [], ◌∷◌, ◌++◌, length, length-append, take,
  take_all, arith, some, Bool, true, false, ◌==◌, ==_of_ne, ap, ◌∙◌,
}
use hyper_bench.Base.Int.{pos, ◌-ℤ◌}
use hyper_bench.Base.Memory.{Memory}
use hyper_bench.Printf.{PStream, Conv, format_loop, vsnprintf, addchar, add_str, plain}
use hyper_bench.Printf.Stream.{add_str-Tracks, add_str-append}
use hyper_bench.Printf.Items.{
  uns, ptr, uns_byte, long_bytes, Width, Item, lit, percent, chr, str, dec, width_bytes, render_all,
  tail_of, long_bytes, slots, slots_all, AllPrint, none_left, first, IsItem, AreItems, At,
  At-append,
}
use hyper_bench.Printf.Convert.{Converted}
use hyper_bench.Printf.Conversion.{Converted-step, PrintsAt, convert-item}

format_loop-lit :
    (f k : ℕ) (m : Memory) (p b : ℕ) (va : List ℕ) (ps : PStream)
    → m p ≡ b
    → b ≢ 0
    → b ≢ b'%'
    → format_loop (suc f) k m p va ps ≡ format_loop f k m (p + 1) va (addchar ps b)
unfolding format_loop
format_loop-lit f k m p b va ps e ne0 ne1 =
    let e0 : (m p == 0) ≡ false = rw e (==_of_ne b 0 ne0) in
    let e1 : (m p == b'%') ≡ false = rw e (==_of_ne b b'%' ne1) in rw (e0, e1, e, format_loop) refl

format_loop-conversion :
    (f k : ℕ) (m : Memory) (p q : ℕ) (va rest : List ℕ) (ps ps' : PStream)
    → m p ≡ b'%'
    → Converted k k m
        (record { fmt = p + 1; nlong = 0; props = plain; va = va; ps = ps })
        q
        rest
        ps'
    → format_loop (suc f) k m p va ps ≡ format_loop f k m q rest ps'
unfolding format_loop
format_loop-conversion f k m p q va rest ps ps' e r =
    let e0 : (m p == 0) ≡ false = rw e refl in
    let e1 : (m p == b'%') ≡ true = rw e refl in
    rw (e0, e1, format_loop, r.returns) (rw (r.stands, r.leaves, r.prints) refl)

-- The loop of `vsnprintf` from the items on: it ends, with a text that they print.
record Looped (f k : ℕ) (m : Memory) (p : ℕ) (xs : List Item) (ps : PStream) : Type 0 where
  text : List ℕ
  right_text : AllPrint xs text
  ends : format_loop f k m p (slots_all xs) ps ≡ some (add_str ps text)

conversion-Looped :
    (f k : ℕ) (m : Memory) (p q : ℕ) (x : Item) (xs : List Item) (ps : PStream)
    (r : PrintsAt
      (suc (suc (suc k)))
      (suc (suc (suc k)))
      m
      (record { fmt = p + 1; nlong = 0; props = plain; va = slots x ++ slots_all xs; ps = ps })
      x
      (slots_all xs))
    → m p ≡ b'%'
    → p + 1 + length (tail_of x) ≡ q
    → Looped f (suc (suc (suc k))) m q xs (add_str ps r.text)
    → Looped (suc f) (suc (suc (suc k))) m p (x ∷ xs) ps
conversion-Looped f k m p q x xs ps r e stands rest = record {
  text = r.text ++ rest.text;
  right_text = first r.text rest.text r.right_text rest.right_text;
  ends =
      format_loop-conversion f (suc (suc (suc k))) m p q (slots x ++ slots_all xs) (slots_all xs) ps
        (add_str ps r.text) e (Converted-step refl stands r.ends)
      ∙ rest.ends
      ∙ ap some (sym (add_str-append r.text rest.text ps));
}

item-Looped :
    (f k : ℕ) (m : Memory) (p : ℕ) (x : Item) (xs : List Item) (ps : PStream)
    → IsItem (suc (suc (suc k))) m x
    → 0 < length (tail_of x)
    → At m p (b'%' ∷ (tail_of x ++ render_all xs))
    → ((ps' : PStream)
        → At m (p + 1 + length (tail_of x)) (render_all xs)
        → Looped f (suc (suc (suc k))) m (p + 1 + length (tail_of x)) xs ps')
    → Looped (suc f) (suc (suc (suc k))) m p (x ∷ xs) ps
item-Looped f k m p x xs ps ok lt h rest =
    let (l, r) = At-append m (p + 1) (tail_of x) (render_all xs) h.1 in
    let c : Conv = record {
      fmt = p + 1;
      nlong = 0;
      props = plain;
      va = slots x ++ slots_all xs;
      ps = ps;
    } in
    let i = convert-item k (suc (suc (suc k))) m c x (slots_all xs) lt ok l refl refl refl in
    conversion-Looped f k m p (p + 1 + length (tail_of x)) x xs ps i h.0 refl
      (rest (add_str ps i.text) r)

-- A width and the bytes behind it.
tail_lt : (w : Width) (b : ℕ) → 0 < length (width_bytes w ++ (b ∷ []))
tail_lt w b = omega (arith, length-append (width_bytes w) (b ∷ []))

long_tail_lt : (w : Width) (long : Bool) (b : ℕ) → 0 < length (width_bytes w ++ long_bytes long b)
long_tail_lt w true b = omega (arith, length-append (width_bytes w) (long_bytes true b))
long_tail_lt w false b = tail_lt w b

format_loop-Looped :
    (f k : ℕ) (m : Memory) (p : ℕ) (xs : List Item) (ps : PStream)
    → AreItems (suc (suc (suc k))) m xs
    → At m p (render_all xs)
    → length xs < f
    → Looped f (suc (suc (suc k))) m p xs ps
unfolding add_str format_loop
format_loop-Looped zero k m p xs ps ok h lt = absurd (omega arith)
format_loop-Looped (suc f) k m p [] ps ok h lt = record {
  text = [];
  right_text = none_left;
  ends = rw (format_loop, h.0) refl;
}
format_loop-Looped (suc f) k m p (lit c ∷ xs) ps ok h lt =
    let rest = format_loop-Looped f k m (p + 1) xs (addchar ps c) ok.1 h.1 (omega arith) in
    record {
      text = c ∷ rest.text;
      right_text = first (c ∷ []) rest.text refl rest.right_text;
      ends =
          format_loop-lit f (suc (suc (suc k))) m p c (slots_all xs) ps h.0 ok.0.0 ok.0.1
          ∙ rest.ends;
    }
format_loop-Looped (suc f) k m p (percent ∷ xs) ps ok h lt =
    item-Looped f k m p percent xs ps ok.0 (omega arith) h (λ ps' h'.
      format_loop-Looped f k m (p + 1 + length (tail_of percent)) xs ps' ok.1 h' (omega arith))
format_loop-Looped (suc f) k m p (chr a ∷ xs) ps ok h lt =
    item-Looped f k m p (chr a) xs ps ok.0 (omega arith) h (λ ps' h'.
      format_loop-Looped f k m (p + 1 + length (tail_of (chr a))) xs ps' ok.1 h' (omega arith))
format_loop-Looped (suc f) k m p (str w a s ∷ xs) ps ok h lt =
    item-Looped f k m p (str w a s) xs ps ok.0 (tail_lt w b's') h (λ ps' h'.
      format_loop-Looped f k m (p + 1 + length (tail_of (str w a s))) xs ps' ok.1 h' (omega arith))
format_loop-Looped (suc f) k m p (dec w long a ∷ xs) ps ok h lt =
    item-Looped f k m p (dec w long a) xs ps ok.0 (long_tail_lt w long b'd') h (λ ps' h'.
      format_loop-Looped f k m (p + 1 + length (tail_of (dec w long a))) xs ps' ok.1 h'
        (omega arith))
format_loop-Looped (suc f) k m p (uns w long hex a ∷ xs) ps ok h lt =
    item-Looped f k m p (uns w long hex a) xs ps ok.0 (long_tail_lt w long (uns_byte hex)) h
      (λ ps' h'.
        format_loop-Looped f k m (p + 1 + length (tail_of (uns w long hex a))) xs ps' ok.1 h'
          (omega arith))
format_loop-Looped (suc f) k m p (ptr w a ∷ xs) ps ok h lt =
    item-Looped f k m p (ptr w a) xs ps ok.0 (tail_lt w b'p') h (λ ps' h'.
      format_loop-Looped f k m (p + 1 + length (tail_of (ptr w a))) xs ps' ok.1 h' (omega arith))

-- `vsnprintf` ends on every format of plain bytes and the conversions `%%`, `%c`, `%s`, `%d`, `%u`, `%x`
-- and `%p`, the last five with or without a width, which may be aligned to the left or filled with zeros,
-- and the three before the last with or without an `l`, when each argument is right (a string for `%s`, any
-- slot but the least `long` for `%d`) and the fuel is above 2, above the number of items and above the
-- length of each string and width. It takes one argument for each conversion in turn, prints for each item
-- what the item is to print, stores as much of the text as `k` bytes hold and a NUL behind it, and returns
-- the length of the whole text.
pub vsnprintf-AllPrint :
    (f : ℕ) (m : Memory) (k fmt : ℕ) (xs : List Item)
    → AreItems f m xs
    → At m fmt (render_all xs)
    → 2 < f
    → length xs < f
    → (text : List ℕ) × AllPrint xs text
      × (vsnprintf f m (pos (k + 1)) fmt (slots_all xs)
          ≡ some (take k text ++ (0 ∷ []), length text))
unfolding vsnprintf
vsnprintf-AllPrint (suc (suc (suc f))) m k fmt xs ok h lt few =
    let start : PStream = record { written = []; remain = pos (k + 1) -ℤ pos 1; added = 0 } in
    let r = format_loop-Looped (suc (suc (suc f))) f m fmt xs start ok h few in
    let t =
      add_str-Tracks k r.text [] start (record {
        kept = sym (take_all k [] (omega arith));
        counted = refl;
        left = ground arith;
      }) in
    (r.text, r.right_text, rw (r.ends, t.kept, t.counted) refl)
vsnprintf-AllPrint f m k fmt xs ok h lt few = absurd (omega arith)
