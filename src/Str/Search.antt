-- ===== src/Str/Search.antt =====
-- `strstr` of lib/string.c.
use hyper_bench.Base.{
  ℕ, zero, suc, ◌+◌, ◌≤◌, ◌<◌, ◌≡◌, ◌⊎◌, inl, inr, refl, List, arith, ◌==◌, leb, length, some,
  Bool-cases, true,
}
use hyper_bench.Base.Int.{ℤ, pos, negsuc}
use hyper_bench.Base.Memory.{Memory}
use hyper_bench.Str.{null, strstr, strstr_loop, memcmp, is_zero}
use hyper_bench.Str.Strings.{IsStr, strlen-IsStr}
use hyper_bench.Str.Compare.{SameBytes, memcmp-SameBytes, memcmp_of_SameBytes}

pub is_zero-eq : (z : ℤ) → is_zero z ≡ true → z ≡ pos 0
unfolding is_zero
is_zero-eq (pos n) h = ground arith
is_zero-eq (negsuc n) h = ground arith

-- What a search for the `l2` bytes at `s2` among the `l1` bytes at `s1` answers: the first place
-- where they stand, or the null pointer when they stand nowhere.
abbrev pub IsFirst : Memory → ℕ → ℕ → ℕ → ℕ → ℕ → Type 0
IsFirst m s1 l1 s2 l2 r =
    ((k : ℕ) × (k + l2 ≤ l1)
      × (r ≡ s1 + k)
      × SameBytes m (s1 + k) s2 l2
      × ((j : ℕ) → j < k → ¬ (SameBytes m (s1 + j) s2 l2)))
    ⊎ ((r ≡ null) × ((j : ℕ) → j + l2 ≤ l1 → ¬ (SameBytes m (s1 + j) s2 l2)))

module _ (m : Memory) (s2 l2 : ℕ) where
  IsFirst-suc :
      (s1 l1 r : ℕ)
      → ¬ (SameBytes m s1 s2 l2)
      → IsFirst m (s1 + 1) l1 s2 l2 r
      → IsFirst m s1 (suc l1) s2 l2 r
  IsFirst-suc s1 l1 r miss (inl (k, fits, e, same, first)) =
      let step : s1 + (k + 1) ≡ s1 + 1 + k = omega arith in
      inl (
        k + 1,
        omega arith,
        omega arith,
        rw step same,
        elim [
          | zero ↦ λ lt. let e0 : s1 + 0 ≡ s1 = omega arith in rw e0 miss
          | suc j ↦
              λ lt. let ej : s1 + suc j ≡ s1 + 1 + j = omega arith in rw ej (first j (omega arith))
        ],
      )
  IsFirst-suc s1 l1 r miss (inr (e, nowhere)) = inr (
    e,
    elim [
      | zero ↦ λ lt. let e0 : s1 + 0 ≡ s1 = omega arith in rw e0 miss
      | suc j ↦
          λ lt. let ej : s1 + suc j ≡ s1 + 1 + j = omega arith in rw ej (nowhere j (omega arith))
    ],
  )

  strstr_loop-IsFirst : (l1 s1 : ℕ) → 0 < l2 → IsFirst m s1 l1 s2 l2 (strstr_loop l1 m s1 s2 l2)
  unfolding strstr_loop
  strstr_loop-IsFirst zero s1 h = inr (refl, λ j le. absurd (omega arith))
  strstr_loop-IsFirst (suc l1) s1 h = elim (Bool-cases (leb l2 (suc l1))) [
    | inr short ↦ rw (short, strstr_loop) (inr (refl, λ j le. absurd (ground arith)))
    | inl long ↦
        rw (long, strstr_loop)
          (elim (Bool-cases (is_zero (memcmp m s1 s2 l2))) [
            | inl hit ↦ rw (hit) (
                let e0 : s1 + 0 ≡ s1 = omega arith in
                inl (
                  0,
                  ground arith,
                  omega arith,
                  rw e0 (memcmp-SameBytes m s1 s2 l2 (is_zero-eq _ hit)),
                  λ j lt. absurd (omega arith),
                ))
            | inr miss ↦ rw miss (
                IsFirst-suc s1 l1 _
                  (λ same.
                    let e = memcmp_of_SameBytes m s1 s2 l2 same in
                    let t : is_zero (memcmp m s1 s2 l2) ≡ true = rw e (unfold is_zero in refl) in
                    cc)
                  (strstr_loop-IsFirst l1 (s1 + 1) h))
          ])
  ]

-- `strstr` ends on every two strings, with fuel above both lengths, and finds the first place where
-- the second one stands.
pub strstr-IsFirst :
    (f : ℕ) (m : Memory) (s1 s2 : ℕ) (t p : List ℕ)
    → IsStr m s1 t
    → IsStr m s2 p
    → length t < f
    → length p < f
    → (r : ℕ) × (strstr f m s1 s2 ≡ some r) × IsFirst m s1 (length t) s2 (length p) r
unfolding strstr
strstr-IsFirst f m s1 s2 t p ht hp lt lp =
    rw (strlen-IsStr f m s2 p hp lp, strlen-IsStr f m s1 t ht lt)
      (elim (Bool-cases (length p == 0)) [
        | inl empty ↦ rw empty (
          s1,
          refl,
          inl (
            0,
            ground arith,
            omega arith,
            λ i below. absurd (ground arith),
            λ j below. absurd (omega arith),
          ),
        )
        | inr some_bytes ↦ rw some_bytes (
          strstr_loop (length t) m s1 s2 (length p),
          refl,
          strstr_loop-IsFirst m s2 (length p) (length t) s1 (ground arith),
        )
      ])
