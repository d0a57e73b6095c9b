-- ===== src/Printf/Streams.antt =====
-- Two streams of lib/printf.c that are given the same bytes.
use hyper_bench.Base.{
  ℕ, List, [], ◌∷◌, ◌++◌, length, Option, none, some, ◌>>=◌, Bool, true, false, ◌==◌, not, ◌&&◌,
  if◌then◌else◌,
}
use hyper_bench.Base.Int.{ℤ}
use hyper_bench.Base.Memory.{Memory}
use hyper_bench.Printf.{
  PStream, StrProps, addchar, print_str, print_int, print_unsigned, print_mem, int_buf, reverse_buf,
  shrink_pad, str_bytes, put_digits, digit_fuel,
}
use hyper_bench.Str.{strlen}
use hyper_bench.Printf.Stream.{Tracks, addchar-Tracks, add_str-Tracks, padded, print_str-padded}

-- Two streams that were given the same text; the one keeps its first `k` bytes, the other `k'`.
pub record SameText (k k' : ℕ) (ps ps' : PStream) : Type 0 where
  pub text : List ℕ
  pub one : Tracks k text ps
  pub other : Tracks k' text ps'

-- Both results are there and related, or neither is.
abbrev pub Both : {A B : Type 0} → (A → B → Type 0) → Option A → Option B → Type 0
Both R none none = Unit {0}
Both R (some a) (some b) = R a b
Both R (some a) none = ⊥
Both R none (some b) = ⊥

pub if_both :
    {A B : Type 0} (R : A → B → Type 0) (b : Bool) {x y : A} {x' y' : B}
    → R x x'
    → R y y'
    → R (if b then x else y) (if b then x' else y')
if_both R true h g = h
if_both R false h g = g

same_bind :
    {A B C : Type 0} (R : B → C → Type 0) (m : Option A) (f : A → Option B) (g : A → Option C)
    → ((a : A) → Both R (f a) (g a))
    → Both R (m >>= f) (m >>= g)
same_bind R none f g h = tt
same_bind R (some a) f g h = h a

module _ (k k' : ℕ) where
  abbrev pub Same : PStream → PStream → Type 0
  Same ps ps' = SameText k k' ps ps'

  pub addchar-Same : (ps ps' : PStream) (c : ℕ) → Same ps ps' → Same (addchar ps c) (addchar ps' c)
  addchar-Same ps ps' c g = record {
    text = g.text ++ (c ∷ []);
    one = addchar-Tracks k g.text ps c g.one;
    other = addchar-Tracks k' g.text ps' c g.other;
  }

  print_str-Same :
      (ps ps' : PStream) (s : List ℕ) (props : StrProps)
      → Same ps ps'
      → Same (print_str ps s props) (print_str ps' s props)
  print_str-Same ps ps' s props g = record {
    text = g.text ++ padded s props;
    one = rw (print_str-padded ps s props) (add_str-Tracks k (padded s props) g.text ps g.one);
    other =
        rw (print_str-padded ps' s props) (add_str-Tracks k' (padded s props) g.text ps' g.other);
  }

  pub print_int-Same :
      (ps ps' : PStream) (n : ℤ) (base : ℕ) (props : StrProps)
      → Same ps ps'
      → Both Same (print_int ps n base props) (print_int ps' n base props)
  unfolding print_int
  print_int-Same ps ps' n base props g =
      same_bind Same (int_buf n base) (λ buf. some (print_str ps buf props))
        (λ buf. some (print_str ps' buf props)) (λ buf. print_str-Same ps ps' buf props g)

  pub print_mem-Same :
      (fuel : ℕ) (m : Memory) (ps ps' : PStream) (s : ℕ) (props : StrProps)
      → Same ps ps'
      → Both Same (print_mem fuel m ps s props) (print_mem fuel m ps' s props)
  unfolding print_mem
  print_mem-Same fuel m ps ps' s props g =
      same_bind Same (strlen fuel m s) (λ len. some (print_str ps (str_bytes m s len) props))
        (λ len. some (print_str ps' (str_bytes m s len) props))
        (λ len. print_str-Same ps ps' (str_bytes m s len) props g)

  pub print_unsigned-Same :
      (ps ps' : PStream) (n base : ℕ) (props : StrProps)
      → Same ps ps'
      → Both Same (print_unsigned ps n base props) (print_unsigned ps' n base props)
  unfolding print_unsigned
  print_unsigned-Same ps ps' n base props g =
      same_bind Same (put_digits digit_fuel n base) _ _ λ ds.
        let prefix = not (length ds == 0) && (props.alternate && (base == 16)) in
        let early = prefix && (props.pad == b'0') in
        let x = addchar-Same _ _ b'x' (addchar-Same ps ps' b'0' g) in
        print_str-Same (if early then addchar (addchar ps b'0') b'x' else ps)
          (if early then addchar (addchar ps' b'0') b'x' else ps')
          (reverse_buf (
            if length ds == 0
            then b'0' ∷ []
            else if prefix && not early
            then ds ++ (b'x' ∷ b'0' ∷ [])
            else ds))
          (if early then shrink_pad props else props) (if_both Same early x g)
