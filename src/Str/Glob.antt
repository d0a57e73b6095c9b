-- ===== src/Str/Glob.antt =====
-- `simple_glob` of lib/string.c: the stars of the pattern, the copy, and the comparison.
use mathlib.Core.List.{append-nil}
use hyper_bench.Base.{
  ℕ, suc, ◌+◌, ◌-◌, ◌≤◌, ◌<◌, ◌≡◌, ◌≢◌, ◌⊎◌, inl, inr, refl, List, [], ◌∷◌, ◌++◌, arith, ◌∙◌, sym,
  length, some, Bool, true, false, ◌==◌, ◌&&◌, ltb, leb, Bool-cases, length-append, if◌then◌else◌,
}
use hyper_bench.Base.Memory.{Memory, poke, poke_self, poke_ne}
use hyper_bench.Str.{after_star, simple_glob, glob_match, size_max, strlen, strcpy}
use hyper_bench.Str.Strings.{IsStr, Apart, SameOutside, IsStr-ext, strlen-IsStr, strcpy-Copied}
use hyper_bench.Str.Compare.{IsBytes}
use hyper_bench.Str.Substrings.{IsStr-suffix, IsStr-same}
use hyper_bench.Str.Match.{Glob, Decides, glob_match-Glob}

abbrev pub stars : Bool → List ℕ
stars true = b'*' ∷ []
stars false = []

-- The string does not begin with a star, or end with one.
abbrev pub NoneFirst : List ℕ → Type 0
NoneFirst [] = Unit {0}
NoneFirst (x ∷ s) = x ≢ b'*'

abbrev pub NoneLast : List ℕ → Type 0
NoneLast [] = Unit {0}
NoneLast (x ∷ []) = x ≢ b'*'
NoneLast (x ∷ y ∷ s) = NoneLast (y ∷ s)

last_byte :
    (m : Memory) (p x : ℕ) (s : List ℕ)
    → IsStr m p (x ∷ s)
    → NoneLast (x ∷ s)
    → m (p + length s) ≢ b'*'
last_byte m p x [] h ne = let e : p + 0 ≡ p = omega arith in rw e (ground arith)
last_byte m p x (y ∷ s) h ne =
    let e : p + suc (length s) ≡ p + 1 + length s = omega arith in
    rw e (last_byte m (p + 1) y s h.2 ne)

no_star_last :
    (m out : Memory) (p : ℕ) (c : List ℕ)
    → IsStr m p c
    → NoneLast c
    → (0 < length c → out (p + length c - 1) ≡ m (p + length c - 1))
    → (ltb 0 (length c) && (out (p + length c - 1) == b'*')) ≡ false
no_star_last m out p [] h ne same = ground arith
no_star_last m out p (x ∷ s) h ne same =
    let e : p + suc (length s) - 1 ≡ p + length s = omega arith in
    let b = last_byte m p x s h ne in let b' = rw e at (same (omega arith)) in rw e (ground arith)

poke-IsBytes : (m : Memory) (p v : ℕ) → IsBytes m → v < 256 → IsBytes (poke m p v)
unfolding poke
poke-IsBytes m p v bytes small a = let b = bytes a in ground arith

IsStr-cut :
    (m m' : Memory) (p : ℕ) (c d : List ℕ)
    → IsStr m p (c ++ d)
    → ((a : ℕ) → a < p + length c → m' a ≡ m a)
    → m' (p + length c) ≡ 0
    → IsStr m' p c
IsStr-cut m m' p [] d h same end = let e : p + 0 ≡ p = omega arith in rw e at end
IsStr-cut m m' p (x ∷ c) d h same end =
    let e : p + suc (length c) ≡ p + 1 + length c = omega arith in
    (
      same p (omega arith) ∙ h.0,
      h.1,
      IsStr-cut m m' (p + 1) c d h.2 (λ a lt. same a (omega arith)) (rw e at end),
    )

-- What the first star leaves of the pattern.
after_star_lem :
    (m : Memory) (pattern : ℕ) (starts : Bool) (rest : List ℕ)
    → IsStr m pattern (stars starts ++ rest)
    → (starts ≡ false → NoneFirst rest)
    → ((m pattern == b'*') ≡ starts)
      × IsStr m (after_star m pattern) rest
      × ((if starts then length (stars starts ++ rest) - 1 else length (stars starts ++ rest))
          ≡ length rest)
      × (after_star m pattern + length rest ≡ pattern + length (stars starts ++ rest))
after_star_lem m pattern true rest h ne =
    let e : (m pattern == b'*') ≡ true = ground arith in
    (e, rw e h.2, omega arith, rw e (omega arith))
after_star_lem m pattern false [] h ne =
    let e : (m pattern == b'*') ≡ false = ground arith in (e, rw e h, refl, rw e refl)
after_star_lem m pattern false (x ∷ rest) h ne =
    let n = ne refl in
    let e : (m pattern == b'*') ≡ false = ground arith in (e, rw e h, refl, rw e refl)

module _ (f : ℕ) (m : Memory) (copy text start : ℕ) (c t : List ℕ) (bytes : IsBytes m)
    (ht : IsStr m text t) where
  copied-IsBytes :
      (s : List ℕ) (out : Memory)
      → IsStr m start s
      → IsStr out copy s
      → SameOutside copy (length s + 1) m out
      → IsBytes out
  copied-IsBytes s out h h' same a = elim (Bool-cases (leb copy a && leb a (copy + length s))) [
    | inl inside ↦
        let i : ℕ = a - copy in
        let le : i ≤ length s = ground arith in
        let at : copy + i ≡ a = ground arith in
        let e = IsStr-same m out start copy s h h' i le in
        let b = bytes (start + i) in rw at at (rw (sym e) at b)
    | inr outside ↦
        let o : (a < copy) ⊎ (copy + (length s + 1) ≤ a) = grind arith in
        let b = bytes a in rw (same a o) b
  ]

  -- What the copy of `c` with its star, and the cut of the star, leave for the comparison.
  abbrev Prepared : Bool → ℕ → Type 0
  Prepared ends l =
      (out : Memory) × (strcpy f m copy start ≡ some out)
      × ((ltb 0 l && (out (start + l - 1) == b'*')) ≡ ends)
      × ((if ends then l - 1 else l) ≡ length c)
      × (let m' = if ends then poke out (copy + length c) 0 else out in
          IsBytes m' × IsStr m' copy c × IsStr m' text t)

  prepare_plain :
      IsStr m start c
      → Apart copy (length c + 1) start (length c + 1)
      → Apart copy (length c + 1) text (length t + 1)
      → NoneLast c
      → length c < f
      → Prepared false (length c)
  prepare_plain h away beside last lt =
      let done = strcpy-Copied f m copy start c h away lt in
      (
        done.out,
        done.returns,
        no_star_last m done.out start c h last (λ some_byte. done.same _ (omega arith)),
        refl,
        (
          copied-IsBytes c done.out h done.copied done.same,
          done.copied,
          IsStr-ext m done.out text t (λ a lo hi. done.same a (omega arith)) ht,
        ),
      )

  prepare :
      (ends : Bool)
      → IsStr m start (c ++ stars ends)
      → Apart copy (length (c ++ stars ends) + 1) start (length (c ++ stars ends) + 1)
      → Apart copy (length (c ++ stars ends) + 1) text (length t + 1)
      → (ends ≡ false → NoneLast c)
      → length (c ++ stars ends) < f
      → Prepared ends (length (c ++ stars ends))
  prepare true h away beside last lt =
      let l = length-append c (b'*' ∷ []) in
      let done = strcpy-Copied f m copy start (c ++ (b'*' ∷ [])) h away lt in
      let star = IsStr-suffix m start c (b'*' ∷ []) h in
      let at : start + length (c ++ (b'*' ∷ [])) - 1 ≡ start + length c = omega arith in
      let same = done.same (start + length c) (omega arith) in
      let out' : Memory = poke done.out (copy + length c) 0 in
      let b = copied-IsBytes (c ++ (b'*' ∷ [])) done.out h done.copied done.same in
      (
        done.out,
        done.returns,
        rw at (ground (arith, star.0)),
        omega arith,
        (
          poke-IsBytes done.out (copy + length c) 0 b (omega arith),
          IsStr-cut done.out out' copy c (b'*' ∷ []) done.copied
              (λ a lo. poke_ne _ _ 0 a (omega arith)) (poke_self done.out (copy + length c) 0),
          IsStr-ext m out' text t
              (λ a lo hi. poke_ne _ _ 0 a (omega arith) ∙ done.same a (omega arith)) ht,
        ),
      )
  prepare false h away beside last lt = rw (append-nil c) (
      prepare_plain (rw (append-nil c) at h) (rw (append-nil c) at away)
        (rw (append-nil c) at beside) (last refl) (rw (append-nil c) at lt))

-- From the pattern to the comparison.
simple_glob-glob_match :
    (f : ℕ) (m out : Memory) (copy text pattern start n l k : ℕ) (starts ends : Bool)
    → strlen f m pattern ≡ some n
    → after_star m pattern ≡ start
    → (m pattern == b'*') ≡ starts
    → (if starts then n - 1 else n) ≡ l
    → strcpy f m copy start ≡ some out
    → (ltb 0 l && (out (start + l - 1) == b'*')) ≡ ends
    → (if ends then l - 1 else l) ≡ k
    → simple_glob f m copy text pattern
      ≡ glob_match f (if ends then poke out (copy + k) 0 else out) text copy k starts ends
unfolding simple_glob
simple_glob-glob_match f m out copy text pattern start n l k starts ends len at star rest copied
      star' core =
    rw (len, at, star, rest, copied, star', core) refl

-- `simple_glob` ends when there is fuel above the lengths of both strings and the local array stands apart
-- from them, and returns true exactly when the text is the pattern, a star at either end of it standing for
-- any string. The text is not at the null pointer and is shorter than SIZE_MAX.
pub simple_glob-Glob :
    (f : ℕ) (m : Memory) (copy text pattern : ℕ) (starts ends : Bool) (c t : List ℕ)
    → IsBytes m
    → IsStr m pattern (stars starts ++ (c ++ stars ends))
    → IsStr m text t
    → (starts ≡ false → NoneFirst (c ++ stars ends))
    → (ends ≡ false → NoneLast c)
    → Apart copy
        (length (stars starts ++ (c ++ stars ends)) + 1)
        pattern
        (length (stars starts ++ (c ++ stars ends)) + 1)
    → Apart copy (length (stars starts ++ (c ++ stars ends)) + 1) text (length t + 1)
    → text ≢ 0
    → length (stars starts ++ (c ++ stars ends)) < f
    → length t < f
    → length t < size_max
    → Decides (simple_glob f m copy text pattern) (Glob starts ends c t)
simple_glob-Glob f m copy text pattern starts ends c t bytes hp ht first last away beside place lp
      lt small =
    let rest = c ++ stars ends in
    let n = length-append (stars starts) rest in
    let (star, h, l, at) = after_star_lem m pattern starts rest hp first in
    let (out, copied, star', l', (bytes', hc, ht')) =
      prepare f m copy text (after_star m pattern) c t bytes ht ends h (omega arith) (omega arith)
        last (omega arith) in
    let lc = length-append c (stars ends) in
    let (r, run, iff) =
      glob_match-Glob _ text copy t c ht' hc bytes' place f lt (omega arith) small starts ends in
    let reaches =
      simple_glob-glob_match f m out copy text pattern (after_star m pattern) _ _ _ starts ends
        (strlen-IsStr f m pattern _ hp lp) refl star l copied star' l' in
    (r, reaches ∙ run, iff)
