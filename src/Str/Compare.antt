-- ===== src/Str/Compare.antt =====
-- `strncmp`, `strcmp` and `memcmp` of lib/string.c.
use hyper_bench.Base.{ℕ, zero, suc, ◌+◌, ◌<◌, ◌≡◌, ◌↔◌, refl, List, [], ◌∷◌, arith, length}
use hyper_bench.Base.Int.{pos, ◌-ℤ◌, signed}
use hyper_bench.Base.Memory.{Memory}
use hyper_bench.Str.{strncmp, strcmp, memcmp, size_max}
use hyper_bench.Str.Strings.{IsStr}

-- Every cell holds a byte.
abbrev pub IsBytes : Memory → Type 0
IsBytes m = (a : ℕ) → m a < 256

signed_sub : (x y : ℕ) → x < 256 → y < 256 → (signed 8 x -ℤ signed 8 y ≡ pos 0) → x ≡ y
signed_sub x y hx hy h = ground arith

pos_sub : (x y : ℕ) → (pos x -ℤ pos y ≡ pos 0) → x ≡ y
pos_sub x y h = ground arith

-- `strncmp` is 0 exactly on equal strings, when the count reaches past the first of them.
pub strncmp-eq_iff :
    (m : Memory) (n a b : ℕ) (s t : List ℕ)
    → IsBytes m
    → IsStr m a s
    → IsStr m b t
    → length s < n
    → (strncmp m n a b ≡ pos 0) ↔ (s ≡ t)
unfolding strncmp
strncmp-eq_iff m zero a b s t bytes hs ht lt = absurd (omega arith)
strncmp-eq_iff m (suc n) a b [] [] bytes hs ht lt = ground arith
strncmp-eq_iff m (suc n) a b [] (d ∷ t) bytes hs ht lt =
    ground (arith, signed_sub (m a) (m b), bytes a, bytes b)
strncmp-eq_iff m (suc n) a b (c ∷ s) [] bytes hs ht lt =
    ground (arith, signed_sub (m a) (m b), bytes a, bytes b)
strncmp-eq_iff m (suc n) a b (c ∷ s) (d ∷ t) bytes hs ht lt = ground (
  arith,
  signed_sub (m a) (m b),
  bytes a,
  bytes b,
  strncmp-eq_iff m n (a + 1) (b + 1) s t bytes hs.2 ht.2 (omega arith),
)

-- In a memory of bytes, `strcmp` is 0 exactly on equal strings, when the first is shorter than
-- SIZE_MAX.
pub strcmp-eq_iff :
    (m : Memory) (a b : ℕ) (s t : List ℕ)
    → IsBytes m
    → IsStr m a s
    → IsStr m b t
    → length s < size_max
    → (strcmp m a b ≡ pos 0) ↔ (s ≡ t)
unfolding strcmp
strcmp-eq_iff m a b s t bytes hs ht lt = strncmp-eq_iff m size_max a b s t bytes hs ht lt

-- The `n` bytes at `a` are those at `b`.
abbrev pub SameBytes : Memory → ℕ → ℕ → ℕ → Type 0
SameBytes m a b n = (i : ℕ) → i < n → m (a + i) ≡ m (b + i)

pub memcmp-SameBytes : (m : Memory) (a b n : ℕ) → memcmp m a b n ≡ pos 0 → SameBytes m a b n
unfolding memcmp
memcmp-SameBytes m a b zero h i lt = absurd (omega arith)
memcmp-SameBytes m a b (suc n) h zero lt =
    let ea : a + 0 ≡ a = omega arith in
    let eb : b + 0 ≡ b = omega arith in rw (ea, eb) (ground (arith, pos_sub (m a) (m b)))
memcmp-SameBytes m a b (suc n) h (suc i) lt =
    let ea : a + suc i ≡ a + 1 + i = omega arith in
    let eb : b + suc i ≡ b + 1 + i = omega arith in
    rw (ea, eb)
      (memcmp-SameBytes m (a + 1) (b + 1) n (ground (arith, pos_sub (m a) (m b))) i (omega arith))

pub memcmp_of_SameBytes : (m : Memory) (a b n : ℕ) → SameBytes m a b n → memcmp m a b n ≡ pos 0
unfolding memcmp
memcmp_of_SameBytes m a b zero same = refl
memcmp_of_SameBytes m a b (suc n) same =
    let ea : a + 0 ≡ a = omega arith in
    let eb : b + 0 ≡ b = omega arith in
    let e : m a ≡ m b = rw (ea, eb) at (same 0 (omega arith)) in
    ground (
      arith,
      memcmp_of_SameBytes m (a + 1) (b + 1) n λ i lt.
          let ia : a + suc i ≡ a + 1 + i = omega arith in
          let ib : b + suc i ≡ b + 1 + i = omega arith in
          rw (ia, ib) at (same (suc i) (omega arith)),
    )

-- `memcmp` is 0 exactly on equal blocks.
pub memcmp-eq_iff : (m : Memory) (a b n : ℕ) → (memcmp m a b n ≡ pos 0) ↔ SameBytes m a b n
memcmp-eq_iff m a b n = (memcmp-SameBytes m a b n, memcmp_of_SameBytes m a b n)
