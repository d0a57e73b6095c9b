-- ===== src/Printf/Stream.antt =====
-- The output stream of lib/printf.c, and the padding of `print_str`.
use mathlib.Core.List.{append-nil, append_assoc}
use hyper_bench.Base.{
  ℕ, zero, suc, ◌-◌, ◌≤◌, ◌<◌, ◌≡◌, inl, inr, refl, sym, List, [], ◌∷◌, ◌++◌, arith, length, take,
  replicate, length-append, take_all, take-append_le, Bool-cases, ap, ◌∙◌, true, false, leb,
  if◌then◌else◌,
}
use hyper_bench.Base.Int.{ℤ, pos, negsuc, pos_part, neg_part, ltb_ℤ, ◌-ℤ◌, ◌+ℤ◌}
use hyper_bench.Printf.{PStream, StrProps, addchar, add_pad, add_str, print_str, after_pad, is_zero}

-- The stream `ps` was given the bytes of `text`, and keeps the first `k` of them.
pub record Tracks (k : ℕ) (text : List ℕ) (ps : PStream) : Type 0 where
  pub kept : ps.written ≡ take k text
  pub counted : ps.added ≡ length text
  pub left : ps.remain ≡ pos (k - length text)

pub addchar-Tracks :
    (k : ℕ) (text : List ℕ) (ps : PStream) (c : ℕ)
    → Tracks k text ps
    → Tracks k (text ++ (c ∷ [])) (addchar ps c)
unfolding addchar
addchar-Tracks k text ps c t = elim (Bool-cases (leb k (length text))) [
  | inl full ↦
      let le : k ≤ length text = ground arith in
      let z : k - length text ≡ 0 = omega arith in
      let e : is_zero ps.remain ≡ true = rw (t.left, z) (unfold is_zero in refl) in
      rw e (record {
        kept = t.kept ∙ sym (take-append_le k text (c ∷ []) le);
        counted = omega (arith, length-append text (c ∷ []), t.counted);
        left = t.left ∙ ap pos (omega (arith, length-append text (c ∷ [])));
      })
  | inr room ↦
      let lt : length text < k = ground arith in
      let e : is_zero ps.remain ≡ false = rw (t.left) (unfold is_zero in ground arith) in
      let all : ps.written ≡ text = t.kept ∙ take_all k text (omega arith) in
      let len = length-append text (c ∷ []) in
      rw e (record {
        kept = ap (λ w. w ++ (c ∷ [])) all ∙ sym (take_all k (text ++ (c ∷ [])) (omega arith));
        counted = omega (arith, len, t.counted);
        left = rw (t.left) (ground (arith, len));
      })
]

pub add_str-Tracks :
    (k : ℕ) (s text : List ℕ) (ps : PStream)
    → Tracks k text ps
    → Tracks k (text ++ s) (add_str ps s)
unfolding add_str
add_str-Tracks k [] text ps t = rw append-nil t
add_str-Tracks k (c ∷ s) text ps t =
    rw append_assoc at
      (add_str-Tracks k s (text ++ (c ∷ [])) (addchar ps c) (addchar-Tracks k text ps c t))

add_pad-eq : (n : ℕ) (ps : PStream) (c : ℕ) → add_pad n ps c ≡ add_str ps (replicate n c)
unfolding add_pad add_str
add_pad-eq zero ps c = refl
add_pad-eq (suc n) ps c = add_pad-eq n (addchar ps c) c

pub add_str-append : (s t : List ℕ) (ps : PStream) → add_str ps (s ++ t) ≡ add_str (add_str ps s) t
unfolding add_str
add_str-append [] t ps = refl
add_str-append (c ∷ s) t ps = add_str-append s t (addchar ps c)

-- `s` in a field of `npad` places: to the right with the pad character when `npad` is positive, and
-- to the left with blanks when it is negative.
abbrev pub padded : List ℕ → StrProps → List ℕ
padded s props =
    replicate (pos_part props.npad - length s) props.pad
    ++ (s ++ replicate (neg_part props.npad - length s) b' ')

no_pad_left : (s : List ℕ) (n c : ℕ) → n ≡ 0 → replicate n c ++ s ≡ s
no_pad_left s n c e = rw e

no_pad_right : (s : List ℕ) (n c : ℕ) → n ≡ 0 → s ++ replicate n c ≡ s
no_pad_right s n c e = rw e (append-nil s)

is_pos_suc : (n : ℕ) → ltb_ℤ (pos 0) (pos (suc n)) ≡ true
is_pos_suc n = ground arith

is_pos_negsuc : (n : ℕ) → ltb_ℤ (pos 0) (negsuc n) ≡ false
is_pos_negsuc n = ground arith

is_neg_negsuc : (n : ℕ) → ltb_ℤ (negsuc n) (pos 0) ≡ true
is_neg_negsuc n = ground arith

-- `npad` as `print_str` leaves it behind the left padding; then the rounds on each side.
left_rounds : (n len : ℕ) → pos_part (pos n -ℤ pos len) ≡ n - len
left_rounds n len = ground arith

left_after :
    (n len : ℕ)
    → ltb_ℤ (after_pad (pos n -ℤ pos len)) (pos 0) ≡ true
    → neg_part (after_pad (pos n -ℤ pos len) +ℤ pos len) ≡ 0
unfolding after_pad
left_after n len h = ground arith

right_rounds : (n len : ℕ) → neg_part (negsuc n +ℤ pos len) ≡ suc n - len
right_rounds n len = ground arith

no_right_pad :
    (n2 len : ℤ) (p : PStream)
    → (ltb_ℤ n2 (pos 0) ≡ true → neg_part (n2 +ℤ len) ≡ 0)
    → (if ltb_ℤ n2 (pos 0) then add_pad (neg_part (n2 +ℤ len)) p b' ' else p) ≡ p
unfolding add_pad
no_right_pad n2 len p h = elim (Bool-cases (ltb_ℤ n2 (pos 0))) [
  | inl e ↦ rw (e, h e)
  | inr e ↦ rw e
]

abbrev with_pad : ℤ → StrProps → StrProps
with_pad n props = record props { npad = n }

padded_left :
    (n : ℕ) (s : List ℕ) (props : StrProps)
    → padded s (with_pad (pos n) props) ≡ replicate (n - length s) props.pad ++ s
padded_left n s props =
    ap (λ t. replicate (n - length s) props.pad ++ t)
      (no_pad_right s (0 - length s) b' ' (omega arith))

print_str_left :
    (ps : PStream) (s : List ℕ) (n : ℕ) (props : StrProps)
    → print_str ps s (with_pad (pos (suc n)) props)
      ≡ add_str (add_pad (suc n - length s) ps props.pad) s
unfolding print_str
print_str_left ps s n props = rw (is_pos_suc n) (
    no_right_pad (after_pad (pos (suc n) -ℤ pos (length s))) (pos (length s))
      (add_str (add_pad (pos_part (pos (suc n) -ℤ pos (length s))) ps props.pad) s)
      (left_after (suc n) (length s))
    ∙ ap (λ r. add_str (add_pad r ps props.pad) s) (left_rounds (suc n) (length s)))

print_str_right :
    (ps : PStream) (s : List ℕ) (n : ℕ) (props : StrProps)
    → print_str ps s (with_pad (negsuc n) props) ≡ add_pad (suc n - length s) (add_str ps s) b' '
unfolding print_str
print_str_right ps s n props = rw (is_pos_negsuc n, is_neg_negsuc n, right_rounds n (length s))

-- `print_str` adds the padded field, and nothing else.
print_str_cases :
    (n : ℤ) (ps : PStream) (s : List ℕ) (props : StrProps)
    → print_str ps s (with_pad n props) ≡ add_str ps (padded s (with_pad n props))
print_str_cases (pos zero) ps s props =
    unfold print_str in
    ap (add_str ps)
      (sym (padded_left 0 s props ∙ no_pad_left s (0 - length s) props.pad (omega arith)))
print_str_cases (pos (suc n)) ps s props =
    print_str_left ps s n props
    ∙ ap (λ p. add_str p s) (add_pad-eq (suc n - length s) ps props.pad)
    ∙ sym (add_str-append (replicate (suc n - length s) props.pad) s ps)
    ∙ ap (add_str ps) (sym (padded_left (suc n) s props))
print_str_cases (negsuc n) ps s props =
    print_str_right ps s n props
    ∙ add_pad-eq (suc n - length s) (add_str ps s) b' '
    ∙ sym (add_str-append s (replicate (suc n - length s) b' ') ps)
    ∙ ap (add_str ps) (
        sym (
          no_pad_left (s ++ replicate (suc n - length s) b' ') (0 - length s) props.pad
            (omega arith)))

-- `print_str` adds the field, padded on the left with the pad character up to a positive `npad` and
-- on the right with blanks up to a negative one, and nothing else.
pub print_str-padded :
    (ps : PStream) (s : List ℕ) (props : StrProps)
    → print_str ps s props ≡ add_str ps (padded s props)
print_str-padded ps s props = print_str_cases props.npad ps s props
