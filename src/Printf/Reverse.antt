-- ===== src/Printf/Reverse.antt =====
-- The loop of lib/printf.c that reverses a buffer in place.
use mathlib.Core.List.{reverse-append}
use hyper_bench.Base.{
  ℕ, zero, suc, ◌+◌, ◌-◌, ◌*◌, ◌/◌, ◌≤◌, ◌<◌, ◌≡◌, refl, List, [], ◌∷◌, ◌++◌, reverse, arith, ltb,
  leb, ◌&&◌, ◌||◌, if◌then◌else◌, length, get_or, set, length-set, length-append, get_or-set_self,
  get_or-set_ne, get_or_ext, ◌∙◌, ap, sym, Bool, ◌==◌, Bool-cases, inl, inr,
}
use hyper_bench.Printf.{swap_loop, reverse_buf}

pub reverse-cons : (x : ℕ) (xs : List ℕ) → reverse (x ∷ xs) ≡ reverse xs ++ (x ∷ [])
reverse-cons x xs = reverse-append (x ∷ []) xs

pub length-reverse : (xs : List ℕ) → length (reverse xs) ≡ length xs
length-reverse [] = refl
length-reverse (x ∷ xs) =
    ap length (reverse-cons x xs)
    ∙ omega (arith, length-append (reverse xs) (x ∷ []), length-reverse xs)

get_or-append_lt :
    (xs ys : List ℕ) (i d : ℕ) → i < length xs → get_or (xs ++ ys) i d ≡ get_or xs i d
get_or-append_lt [] ys i d h = absurd (omega arith)
get_or-append_lt (x ∷ xs) ys zero d h = refl
get_or-append_lt (x ∷ xs) ys (suc i) d h = get_or-append_lt xs ys i d (omega arith)

get_or-append_length : (xs : List ℕ) (y d : ℕ) → get_or (xs ++ (y ∷ [])) (length xs) d ≡ y
get_or-append_length [] y d = refl
get_or-append_length (x ∷ xs) y d = get_or-append_length xs y d

-- From the end: index `length xs - 1 - i` of the reverse.
get_or-reverse :
    (xs : List ℕ) (i j d : ℕ) → i + j + 1 ≡ length xs → get_or (reverse xs) j d ≡ get_or xs i d
get_or-reverse [] i j d e = absurd (omega arith)
get_or-reverse (x ∷ xs) zero j d e =
    let ej : j ≡ length (reverse xs) = omega (arith, length-reverse xs) in
    rw (reverse-cons x xs, ej) (get_or-append_length (reverse xs) x d)
get_or-reverse (x ∷ xs) (suc i) j d e = rw (reverse-cons x xs) (
    get_or-append_lt (reverse xs) (x ∷ []) j d (omega (arith, length-reverse xs))
    ∙ get_or-reverse xs i j d (omega arith))

-- Index `j` lies in one of the two ranges that `left` rounds from `i` on exchange.
abbrev is_swapped : ℕ → ℕ → ℕ → ℕ → Bool
is_swapped left i len j =
    (leb i j && ltb j (i + left)) || (leb (len - i - left) j && ltb j (len - i))

abbrev swap_at : List ℕ → ℕ → ℕ → List ℕ
swap_at buf len i = set (set buf i (get_or buf (len - 1 - i) 0)) (len - 1 - i) (get_or buf i 0)

length-swap_at : (buf : List ℕ) (len i : ℕ) → length (swap_at buf len i) ≡ length buf
length-swap_at buf len i =
    length-set (set buf i (get_or buf (len - 1 - i) 0)) (len - 1 - i) (get_or buf i 0)
    ∙ length-set buf i (get_or buf (len - 1 - i) 0)

get_or-swap_at :
    (buf : List ℕ) (len i j : ℕ)
    → length buf ≡ len
    → i < len - 1 - i
    → get_or (swap_at buf len i) j 0 ≡ (
        if j == i
        then get_or buf (len - 1 - i) 0
        else if j == len - 1 - i
        then get_or buf i 0
        else get_or buf j 0)
get_or-swap_at buf len i j e h = ground (
  arith,
  length-set buf i (get_or buf (len - 1 - i) 0),
  get_or-set_self (set buf i (get_or buf (len - 1 - i) 0)) (len - 1 - i) (get_or buf i 0) 0,
  get_or-set_ne (set buf i (get_or buf (len - 1 - i) 0)) (len - 1 - i) j (get_or buf i 0) 0,
  get_or-set_self buf i (get_or buf (len - 1 - i) 0) 0,
  get_or-set_ne buf i j (get_or buf (len - 1 - i) 0) 0,
)

-- The cell `j` of a buffer `r` that the rounds from `i` on make of `buf`.
abbrev IsMirrored : ℕ → ℕ → ℕ → List ℕ → List ℕ → ℕ → Type 0
IsMirrored left i len buf r j =
    get_or r j 0 ≡ (if is_swapped left i len j then get_or buf (len - 1 - j) 0 else get_or buf j 0)

IsMirrored-suc :
    (left i len : ℕ) (buf r : List ℕ) (j : ℕ)
    → length buf ≡ len
    → 2 * (i + suc left) ≤ len
    → j < len
    → IsMirrored left (i + 1) len (swap_at buf len i) r j
    → IsMirrored (suc left) i len buf r j
IsMirrored-suc left i len buf r j e h lt m =
    m ∙ ground (arith, get_or-swap_at buf len i j e, get_or-swap_at buf len i (len - 1 - j) e)

-- The buffer behind the loop keeps its length, and its exchanged cells are mirrored.
length-swap_loop : (left i len : ℕ) (buf : List ℕ) → length (swap_loop left i len buf) ≡ length buf
unfolding swap_loop
length-swap_loop zero i len buf = refl
length-swap_loop (suc left) i len buf =
    length-swap_loop left (i + 1) len (swap_at buf len i) ∙ length-swap_at buf len i

swap_loop-IsMirrored :
    (left i len : ℕ) (buf : List ℕ) (j : ℕ)
    → length buf ≡ len
    → 2 * (i + left) ≤ len
    → j < len
    → IsMirrored left i len buf (swap_loop left i len buf) j
unfolding swap_loop
swap_loop-IsMirrored zero i len buf j e h lt = ground arith
swap_loop-IsMirrored (suc left) i len buf j e h lt =
    IsMirrored-suc left i len buf (swap_loop left (i + 1) len (swap_at buf len i)) j e h lt (
      swap_loop-IsMirrored left (i + 1) len (swap_at buf len i) j (length-swap_at buf len i ∙ e)
        (omega arith) lt)

-- The loop reverses the buffer.
pub reverse_buf-reverse : (buf : List ℕ) → reverse_buf buf ≡ reverse buf
unfolding reverse_buf
reverse_buf-reverse buf =
    let len = length-swap_loop (length buf / 2) 0 (length buf) buf in
    get_or_ext 0 (reverse_buf buf) (reverse buf) (len ∙ sym (length-reverse buf)) λ j lt.
      let lt' : j < length buf = omega (arith, len) in
      swap_loop-IsMirrored (length buf / 2) 0 (length buf) buf j refl (omega arith) lt'
      ∙ mirror j lt'
      ∙ sym (get_or-reverse buf (length buf - 1 - j) j 0 (omega arith))
  where
    mirror :
        (j : ℕ)
        → j < length buf
        → (if is_swapped (length buf / 2) 0 (length buf) j
            then get_or buf (length buf - 1 - j) 0
            else get_or buf j 0)
          ≡ get_or buf (length buf - 1 - j) 0
    mirror j lt = elim (Bool-cases (is_swapped (length buf / 2) 0 (length buf) j)) [
      | inl e ↦ rw e
      | inr e ↦ rw e (ap (λ k. get_or buf k 0) (ground arith))
    ]
