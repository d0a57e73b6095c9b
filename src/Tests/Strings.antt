-- ===== src/Tests/Strings.antt =====
-- The string functions on the strings "ab" at 100, "bc" at 104 and "42;" at 108.
use hyper_bench.Base.{
  ℕ, zero, suc, ◌-◌, ◌<◌, ◌≡◌, ◌↔◌, inl, inr, refl, List, [], ◌∷◌, some, arith, get_or, leb,
  Bool-cases,
}
use hyper_bench.Base.Int.{pos}
use hyper_bench.Base.Memory.{Memory}
use hyper_bench.Str.{strcmp, memmove, strstr}
use hyper_bench.Str.Strings.{IsStr}
use hyper_bench.Str.Compare.{IsBytes, strcmp-eq_iff}
use hyper_bench.Str.Blocks.{IsBlockCopy, memmove-IsBlockCopy}
use hyper_bench.Str.Search.{IsFirst, strstr-IsFirst}
use hyper_bench.Str.Atol.{HasDigits}
use hyper_bench.Tests.{bytes_at}

abbrev text : List ℕ
text = 97 ∷ 98 ∷ 0 ∷ 0 ∷ 98 ∷ 99 ∷ 0 ∷ 0 ∷ 52 ∷ 50 ∷ 59 ∷ 0 ∷ []

abbrev m : Memory
m = bytes_at 100 text

ab : IsStr m 100 (97 ∷ 98 ∷ [])
ab = (refl, omega arith, (refl, omega arith, refl))

bc : IsStr m 104 (98 ∷ 99 ∷ [])
bc = (refl, omega arith, (refl, omega arith, refl))

b : IsStr m 101 (98 ∷ [])
b = (refl, omega arith, refl)

forty_two : HasDigits m 108 (4 ∷ 2 ∷ [])
forty_two = (refl, omega arith, (refl, omega arith, tt))

answer : IsStr m 108 (52 ∷ 50 ∷ 59 ∷ [])
answer = (refl, omega arith, (refl, omega arith, (refl, omega arith, refl)))

abbrev pub AreBytes : List ℕ → Type 0
AreBytes [] = Unit {0}
AreBytes (c ∷ s) = (c < 256) × AreBytes s

get_or-AreBytes : (s : List ℕ) (i : ℕ) → AreBytes s → get_or s i 0 < 256
get_or-AreBytes [] i h = omega arith
get_or-AreBytes (c ∷ s) zero h = h.0
get_or-AreBytes (c ∷ s) (suc i) h = get_or-AreBytes s i h.1

text_bytes : AreBytes text
text_bytes = (
  omega arith,
  (
    omega arith,
    (
      omega arith,
      (
        omega arith,
        (
          omega arith,
          (
            omega arith,
            (
              omega arith,
              (omega arith, (omega arith, (omega arith, (omega arith, (omega arith, tt))))),
            ),
          ),
        ),
      ),
    ),
  ),
)

pub bytes_at-IsBytes : (p : ℕ) (s : List ℕ) → AreBytes s → IsBytes (bytes_at p s)
bytes_at-IsBytes p s h a = elim (Bool-cases (leb p a)) [
  | inl e ↦ rw e (get_or-AreBytes s (a - p) h)
  | inr e ↦ rw e (omega arith)
]

m-IsBytes : IsBytes m
m-IsBytes = bytes_at-IsBytes 100 text text_bytes

strcmp-eq_iff_example :
    (strcmp m 100 104 ≡ pos 0) ↔ (◌≡◌ {A = List ℕ} (97 ∷ 98 ∷ []) (98 ∷ 99 ∷ []))
strcmp-eq_iff_example =
    strcmp-eq_iff m 100 104 (97 ∷ 98 ∷ []) (98 ∷ 99 ∷ []) m-IsBytes ab bc (omega arith)

memmove-IsBlockCopy_example : IsBlockCopy m 101 100 3 (memmove m 101 100 3)
memmove-IsBlockCopy_example = memmove-IsBlockCopy m 101 100 3

strstr-IsFirst_example : (r : ℕ) × (strstr 3 m 100 101 ≡ some r) × IsFirst m 100 2 101 1 r
strstr-IsFirst_example =
    strstr-IsFirst 3 m 100 101 (97 ∷ 98 ∷ []) (98 ∷ []) ab b (omega arith) (omega arith)
