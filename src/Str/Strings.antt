-- ===== src/Str/Strings.antt =====
-- NUL-terminated strings, and `strlen`, `strcat` and `strcpy` of lib/string.c.
use hyper_bench.Base.{
  ℕ, zero, suc, ◌+◌, ◌≤◌, ◌<◌, ◌≡◌, ◌≢◌, ◌⊎◌, Option, some, List, [], ◌∷◌, ◌++◌, arith, ◌∙◌, false,
  ◌==◌, length,
}
use hyper_bench.Base.Memory.{Memory, poke, poke_self, poke_ne}
use hyper_bench.Str.{strlen_loop, strlen, find_end, copy_loop, strcat, strcpy}

-- `s` stands at `p` with a NUL behind it.
abbrev pub IsStr : Memory → ℕ → List ℕ → Type 0
IsStr m p [] = m p ≡ 0
IsStr m p (c ∷ s) = (m p ≡ c) × (c ≢ 0) × IsStr m (p + 1) s

-- The two memories agree outside the `n` bytes at `p`.
abbrev pub SameOutside : ℕ → ℕ → Memory → Memory → Type 0
SameOutside p n m m' = (a : ℕ) → (a < p) ⊎ (p + n ≤ a) → m' a ≡ m a

-- The `n` bytes at `p` and the `k` bytes at `q` do not overlap.
abbrev pub Apart : ℕ → ℕ → ℕ → ℕ → Type 0
Apart p n q k = (p + n ≤ q) ⊎ (q + k ≤ p)

pub IsStr-ext :
    (m m' : Memory) (p : ℕ) (s : List ℕ)
    → ((a : ℕ) → p ≤ a → a ≤ p + length s → m' a ≡ m a)
    → IsStr m p s
    → IsStr m' p s
IsStr-ext m m' p [] same h = same p (omega arith) (omega arith) ∙ h
IsStr-ext m m' p (c ∷ s) same h = (
  same p (omega arith) (omega arith) ∙ h.0,
  h.1,
  IsStr-ext m m' (p + 1) s (λ a lo hi. same a (omega arith) (omega arith)) h.2,
)

IsStr-head : (m : Memory) (p c : ℕ) → m p ≡ c → c ≢ 0 → (m p == 0) ≡ false
IsStr-head m p c e ne = ground arith

strlen_loop-IsStr :
    (f : ℕ) (m : Memory) (p : ℕ) (s : List ℕ) (len : ℕ)
    → IsStr m p s
    → length s < f
    → strlen_loop f m p len ≡ some (len + length s)
unfolding strlen_loop
strlen_loop-IsStr zero m p s len h lt = absurd (omega arith)
strlen_loop-IsStr (suc f) m p [] len h lt = ground arith
strlen_loop-IsStr (suc f) m p (c ∷ s) len h lt =
    ground (arith, strlen_loop-IsStr f m (p + 1) s (len + 1) h.2 (omega arith))

-- `strlen` ends on every string, within one round for each byte and one for the NUL, and returns
-- its length.
pub strlen-IsStr :
    (f : ℕ) (m : Memory) (p : ℕ) (s : List ℕ)
    → IsStr m p s
    → length s < f
    → strlen f m p ≡ some (length s)
unfolding strlen
strlen-IsStr f m p s h lt = ground (arith, strlen_loop-IsStr f m p s 0 h lt)

find_end-IsStr :
    (f : ℕ) (m : Memory) (p : ℕ) (s : List ℕ)
    → IsStr m p s
    → length s < f
    → find_end f m p ≡ some (p + length s)
unfolding find_end
find_end-IsStr zero m p s h lt = absurd (omega arith)
find_end-IsStr (suc f) m p [] h lt = ground arith
find_end-IsStr (suc f) m p (c ∷ s) h lt =
    ground (arith, find_end-IsStr f m (p + 1) s h.2 (omega arith))

-- What a copy of `s` to `p` leaves.
pub record Copied (m : Memory) (p : ℕ) (s : List ℕ) (r : Option Memory) : Type 0 where
  pub out : Memory
  pub returns : r ≡ some out
  pub copied : IsStr out p s
  pub same : SameOutside p (length s + 1) m out

copy_loop-Copied :
    (f : ℕ) (m : Memory) (p src : ℕ) (s : List ℕ)
    → IsStr m src s
    → Apart p (length s + 1) src (length s + 1)
    → length s < f
    → Copied m p s (copy_loop f m p src)
unfolding copy_loop
copy_loop-Copied zero m p src s h apart lt = absurd (omega arith)
copy_loop-Copied (suc f) m p src [] h apart lt = record {
  out = poke m p (m src);
  returns = ground arith;
  copied = poke_self m p (m src) ∙ h;
  same = λ a o. poke_ne m p (m src) a (omega arith);
}
copy_loop-Copied (suc f) m p src (c ∷ s) h apart lt =
    let m1 : Memory = poke m p (m src) in
    let rest =
      copy_loop-Copied f m1 (p + 1) (src + 1) s
        (IsStr-ext m m1 (src + 1) s (λ a lo hi. poke_ne m p (m src) a (omega arith)) h.2)
        (omega arith) (omega arith) in
    record {
      out = rest.out;
      returns = rw (IsStr-head m src c h.0 h.1, copy_loop) rest.returns;
      copied = (rest.same p (omega arith) ∙ poke_self m p (m src) ∙ h.0, h.1, rest.copied);
      same = λ a o. rest.same a (omega arith) ∙ poke_ne m p (m src) a (omega arith);
    }

-- A string behind `d` bytes that are not NUL is one string with them.
pub IsStr-append :
    (m : Memory) (p : ℕ) (d s : List ℕ)
    → (m' : Memory) → IsStr m' p d
    → IsStr m (p + length d) s
    → ((a : ℕ) → a < p + length d → m a ≡ m' a)
    → IsStr m p (d ++ s)
IsStr-append m p [] s m' hd hs same = let e : p + 0 ≡ p = omega arith in rw e at hs
IsStr-append m p (c ∷ d) s m' hd hs same =
    let e : p + suc (length d) ≡ p + 1 + length d = omega arith in
    (
      same p (omega arith) ∙ hd.0,
      hd.1,
      IsStr-append m (p + 1) d s m' hd.2 (rw e at hs) (λ a lt. same a (omega arith)),
    )

-- On two strings such that the room for the result does not overlap the second one, `strcat` ends
-- within one round for each byte and one for the NUL of each, leaves their concatenation at the
-- destination, and writes only from the end of the first string to the new NUL.
pub strcat-append :
    (f : ℕ) (m : Memory) (dest src : ℕ) (d s : List ℕ)
    → IsStr m dest d
    → IsStr m src s
    → Apart dest (length d + length s + 1) src (length s + 1)
    → length d < f
    → length s < f
    → (out : Memory) × (strcat f m dest src ≡ some out)
      × IsStr out dest (d ++ s)
      × SameOutside (dest + length d) (length s + 1) m out
unfolding strcat
strcat-append f m dest src d s hd hs apart ld ls =
    let c = copy_loop-Copied f m (dest + length d) src s hs (omega arith) ls in
    rw (find_end-IsStr f m dest d hd ld) (
      c.out,
      c.returns,
      IsStr-append c.out dest d s m hd c.copied (λ a lt. c.same a (omega arith)),
      c.same,
    )

-- On a string that the room for the copy does not overlap, `strcpy` ends within one round for each
-- byte and one for the NUL, copies it, and writes only the copy.
pub strcpy-Copied :
    (f : ℕ) (m : Memory) (dest src : ℕ) (s : List ℕ)
    → IsStr m src s
    → Apart dest (length s + 1) src (length s + 1)
    → length s < f
    → Copied m dest s (strcpy f m dest src)
unfolding strcpy strcat
strcpy-Copied f m dest src s h apart lt =
    let m1 : Memory = poke m dest 0 in
    let h1 = IsStr-ext m m1 src s (λ a lo hi. poke_ne m dest 0 a (omega arith)) h in
    let c = copy_loop-Copied f m1 dest src s h1 apart lt in
    record {
      out = c.out;
      returns =
          rw (find_end-IsStr f m1 dest [] (poke_self m dest 0) (omega arith))
            (let e : dest + 0 ≡ dest = omega arith in rw e c.returns);
      copied = c.copied;
      same = λ a o. c.same a o ∙ poke_ne m dest 0 a (omega arith);
    }
