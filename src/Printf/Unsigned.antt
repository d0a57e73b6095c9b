-- ===== src/Printf/Unsigned.antt =====
-- `print_unsigned` of lib/printf.c.
use mathlib.Core.List.{reverse-append}
use hyper_bench.Base.{
  ℕ, suc, ◌^◌, ◌<◌, ◌≡◌, ◌≢◌, inl, inr, refl, sym, some, List, [], ◌∷◌, ◌++◌, reverse, length,
  arith, true, false, not, ◌==◌, ◌&&◌, if◌then◌else◌, ap, ◌∙◌, Bool, Bool-cases, ==_of_ne,
}
use hyper_bench.Printf.{
  PStream, StrProps, put_digits, digit_fuel, print_unsigned, addchar, add_str, shrink_pad,
}
use hyper_bench.Printf.Reverse.{reverse_buf-reverse, length-reverse}
use hyper_bench.Printf.Stream.{padded, print_str-padded}
use hyper_bench.Printf.Digits.{IsBase, put_digits-IsDigits, read, read-reverse, read_low, non_empty}

-- `ds` is a numeral of `n`.
abbrev pub ShowsIn : ℕ → ℕ → List ℕ → Type 0
ShowsIn base n ds = (0 < length ds) × (read base 0 ds ≡ n)

-- The field of a numeral behind "0x", which stands before the zeros of the field and after its blanks.
abbrev pub hex_text : List ℕ → StrProps → List ℕ
hex_text ds props =
    if props.pad == b'0'
    then b'0' ∷ b'x' ∷ padded ds (shrink_pad props)
    else padded (b'0' ∷ b'x' ∷ ds) props

abbrev pub unsigned_text : Bool → ℕ → List ℕ → StrProps → List ℕ
unsigned_text alternate n ds props =
    if alternate && not (n == 0) then hex_text ds props else padded ds props

record Made (base n : ℕ) : Type 0 where
  out : List ℕ
  returns : put_digits digit_fuel n base ≡ some out
  shows : ShowsIn base n (reverse (non_empty out))
  none_iff : (length out == 0) ≡ (n == 0)

Made-zero : (base n : ℕ) → n ≡ 0 → Made base n
unfolding put_digits
Made-zero base n z = record {
  out = [];
  returns = rw z refl;
  shows = (omega arith, rw z (omega arith));
  none_iff = rw z refl;
}

Made-some :
    (base n : ℕ) (out : List ℕ)
    → put_digits digit_fuel n base ≡ some out
    → read_low base out ≡ n
    → n ≢ 0
    → Made base n
Made-some base n [] r v ne = absurd (ne (sym v))
Made-some base n (d ∷ ds) r v ne = record {
  out = d ∷ ds;
  returns = r;
  shows = (omega (arith, length-reverse (d ∷ ds)), read-reverse base (d ∷ ds) ∙ v);
  none_iff = ground arith;
}

in_base : (base n : ℕ) → IsBase base → n < 2 ^ 64 → n < base ^ 64
in_base base n (inl e) lt = rw e (omega arith)
in_base base n (inr e) lt = rw e (omega arith)

made : (base n : ℕ) → IsBase base → n < base ^ 64 → Made base n
made base n b lt = elim (Bool-cases (n == 0)) [
  | inl e ↦ Made-zero base n (ground arith)
  | inr e ↦
      let d = put_digits-IsDigits 64 digit_fuel base n b lt (omega arith) in
      Made-some base n d.out d.returns d.value (ground arith)
]

reverse-prefix : (out : List ℕ) → reverse (out ++ (b'x' ∷ b'0' ∷ [])) ≡ b'0' ∷ b'x' ∷ reverse out
reverse-prefix out = reverse-append out (b'x' ∷ b'0' ∷ [])

text_zero :
    (h : Bool) (n : ℕ) (ds : List ℕ) (props : StrProps)
    → (n == 0) ≡ true
    → unsigned_text h n ds props ≡ padded ds props
text_zero true n ds props z = rw z refl
text_zero false n ds props z = refl

text_hex :
    (n : ℕ) (ds : List ℕ) (props : StrProps)
    → (n == 0) ≡ false
    → unsigned_text true n ds props ≡ hex_text ds props
text_hex n ds props z = rw z refl

print_unsigned-zero :
    (ps : PStream) (n base : ℕ) (props : StrProps)
    → put_digits digit_fuel n base ≡ some []
    → print_unsigned ps n base props ≡ some (add_str ps (padded (b'0' ∷ []) props))
unfolding print_unsigned
print_unsigned-zero ps n base props r = rw r (ap some (print_str-padded ps (b'0' ∷ []) props))

print_unsigned-plain :
    (ps : PStream) (n base : ℕ) (props : StrProps) (d : ℕ) (ds : List ℕ)
    → put_digits digit_fuel n base ≡ some (d ∷ ds)
    → props.alternate && (base == 16) ≡ false
    → print_unsigned ps n base props ≡ some (add_str ps (padded (reverse (d ∷ ds)) props))
unfolding print_unsigned
print_unsigned-plain ps n base props d ds r h =
    let l = ==_of_ne (suc (length ds)) 0 (omega arith) in
    rw r (
      rw l (
        rw h (
          rw (reverse_buf-reverse (d ∷ ds))
            (ap some (print_str-padded ps (reverse (d ∷ ds)) props)))))

print_unsigned-hex :
    (ps : PStream) (n base : ℕ) (props : StrProps) (d : ℕ) (ds : List ℕ)
    → put_digits digit_fuel n base ≡ some (d ∷ ds)
    → props.alternate && (base == 16) ≡ true
    → print_unsigned ps n base props ≡ some (add_str ps (hex_text (reverse (d ∷ ds)) props))
unfolding print_unsigned add_str
print_unsigned-hex ps n base props d ds r h =
    let l = ==_of_ne (suc (length ds)) 0 (omega arith) in
    elim (Bool-cases (props.pad == b'0')) [
      | inl p ↦ rw r (
          rw l (
            rw h (
              rw p (
                rw (reverse_buf-reverse (d ∷ ds)) (
                  ap some (
                    print_str-padded (addchar (addchar ps b'0') b'x') (reverse (d ∷ ds))
                      (shrink_pad props)))))))
      | inr p ↦ rw r (
          rw l (
            rw h (
              rw p (
                rw (reverse_buf-reverse (d ∷ ds ++ (b'x' ∷ b'0' ∷ [])), reverse-prefix (d ∷ ds))
                  (ap some (print_str-padded ps (b'0' ∷ b'x' ∷ reverse (d ∷ ds)) props))))))
    ]

print_unsigned-out :
    (ps : PStream) (n base : ℕ) (props : StrProps) (out : List ℕ)
    → put_digits digit_fuel n base ≡ some out
    → (length out == 0) ≡ (n == 0)
    → print_unsigned ps n base props
      ≡ some (
          add_str ps
            (unsigned_text (props.alternate && (base == 16)) n (reverse (non_empty out)) props))
print_unsigned-out ps n base props [] r z =
    let t = text_zero (props.alternate && (base == 16)) n (b'0' ∷ []) props (sym z) in
    print_unsigned-zero ps n base props r ∙ ap (λ text. some (add_str ps text)) (sym t)
print_unsigned-out ps n base props (d ∷ ds) r z =
    let some_digits : (n == 0) ≡ false = sym z ∙ ==_of_ne (suc (length ds)) 0 (omega arith) in
    elim (Bool-cases (props.alternate && (base == 16))) [
      | inl h ↦ rw h (
          print_unsigned-hex ps n base props d ds r h
          ∙ ap (λ text. some (add_str ps text))
              (sym (text_hex n (reverse (d ∷ ds)) props some_digits)))
      | inr h ↦ rw h (print_unsigned-plain ps n base props d ds r h)
    ]

-- `print_unsigned` ends on every 64-bit number, and adds a field with its numeral, which reads back as the
-- number in the base, with "0x" before the numeral of a number other than 0 where the alternate form is asked
-- for in base 16.
pub print_unsigned-ShowsIn :
    (ps : PStream) (n base : ℕ) (props : StrProps)
    → IsBase base
    → n < 2 ^ 64
    → (ds : List ℕ) × ShowsIn base n ds
      × (print_unsigned ps n base props
          ≡ some (add_str ps (unsigned_text (props.alternate && (base == 16)) n ds props)))
print_unsigned-ShowsIn ps n base props b lt =
    let d = made base n b (in_base base n b lt) in
    (
      reverse (non_empty d.out),
      d.shows,
      print_unsigned-out ps n base props d.out d.returns d.none_iff,
    )
