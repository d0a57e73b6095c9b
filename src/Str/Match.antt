-- ===== src/Str/Match.antt =====
-- The comparisons of `simple_glob` of lib/string.c against what the stars of a pattern stand for.
use mathlib.Core.List.{append-nil}
use hyper_bench.Base.{
  ℕ, zero, suc, ◌+◌, ◌-◌, ◌≤◌, ◌<◌, ◌≡◌, ◌≢◌, ◌↔◌, inl, inr, refl, List, [], ◌∷◌, ◌++◌, arith, ap,
  ◌∙◌, length, Option, some, Bool, true, false, ◌==◌, ltb, Bool-cases, length-append, sym,
}
use hyper_bench.Base.Int.{ℤ, pos}
use hyper_bench.Base.Memory.{Memory}
use hyper_bench.Str.{glob_match, null, is_zero, size_max, strcmp}
use hyper_bench.Str.Strings.{IsStr, strlen-IsStr}
use hyper_bench.Str.Compare.{IsBytes, SameBytes, strcmp-eq_iff}
use hyper_bench.Str.Search.{strstr-IsFirst, is_zero-eq}
use hyper_bench.Str.Substrings.{
  split_at, IsStr-suffix, prefix_of_SameBytes, append-SameBytes, IsStr-unique,
}

-- `t` is `core` with any string before it when `starts`, and any string behind it when `ends`.
abbrev pub Glob : Bool → Bool → List ℕ → List ℕ → Type 0
Glob starts ends core t =
    (u v : List ℕ) × (t ≡ u ++ (core ++ v)) × (starts ≡ false → u ≡ []) × (ends ≡ false → v ≡ [])

-- The result is there, and true exactly when `P` holds.
abbrev pub Decides : Option Bool → Type 0 → Type 0
Decides x P = (r : Bool) × (x ≡ some r) × ((r ≡ true) ↔ P)

yes : {x : Option Bool} {P : Type 0} → x ≡ some true → P → Decides x P
yes e p = (true, e, (λ h. p, λ q. refl))

no : {x : Option Bool} {P : Type 0} → x ≡ some false → ¬ P → Decides x P
no e np = (false, e, (λ h. absurd cc, λ q. absurd (np q)))

decides_iff : {x : Option Bool} {P Q : Type 0} → Decides x P → (P ↔ Q) → Decides x Q
decides_iff (r, e, (to, from)) (pq, qp) = (r, e, (λ h. pq (to h), λ q. from (qp q)))

is_zero_of_eq : (z : ℤ) → z ≡ pos 0 → is_zero z ≡ true
unfolding is_zero
is_zero_of_eq z e = rw e refl

module _ (m : Memory) (text copy : ℕ) (t c : List ℕ) (ht : IsStr m text t)
    (hc : IsStr m copy c) where
  place-Glob :
      (starts : Bool) (k : ℕ)
      → k + length c ≤ length t
      → SameBytes m (text + k) copy (length c)
      → (starts ≡ false → k ≡ 0)
      → Glob starts true c t
  place-Glob starts k le same first =
      let (u, w, e, n, hw) = split_at m text k t ht (omega arith) in
      let (v, ev) = prefix_of_SameBytes m (text + k) copy w c hw hc same in
      (u, v, e ∙ ap (λ x. u ++ x) ev, (λ s. length-zero u (n ∙ first s)), λ q. absurd cc)
    where
      length-zero : (u : List ℕ) → length u ≡ 0 → u ≡ []
      length-zero [] e = refl
      length-zero (x ∷ u) e = absurd (omega arith)

  Glob-place :
      (starts ends : Bool) (g : Glob starts ends c t)
      → (length g.0 + length c ≤ length t) × SameBytes m (text + length g.0) copy (length c)
  Glob-place starts ends (u, v, e, a, b) =
      let n = length-append u (c ++ v) in
      let n' = length-append c v in
      let h : IsStr m text (u ++ (c ++ v)) = rw (sym e) ht in
      (
        rw e (omega arith),
        append-SameBytes m (text + length u) copy c v (IsStr-suffix m text u (c ++ v) h) hc,
      )

  -- A string of the length of `c` at the end of `t` is `c` exactly when `t` ends with `c`.
  suffix-Glob : (u w : List ℕ) → t ≡ u ++ w → length w ≡ length c → (w ≡ c) ↔ Glob true false c t
  suffix-Glob u w e n = (
    λ same. (u, [], e ∙ ap (λ x. u ++ x) (same ∙ sym (append-nil c)), λ q. absurd cc, λ q. refl),
    λ (u', v, e', a, b).
        let e1 : t ≡ u' ++ c = e' ∙ ap (λ x. u' ++ x) (rw (b refl) (append-nil c)) in
        let l : length u + length w ≡ length u' + length c =
          sym (length-append u w) ∙ ap length (sym e ∙ e1) ∙ length-append u' c in
        let at : length u' ≡ length u = omega arith in
        let hw = IsStr-suffix m text u w (rw (sym e) ht) in
        let hc' = IsStr-suffix m text u' c (rw (sym e1) ht) in
        IsStr-unique m (text + length u) w c hw (rw at at hc'),
  )

  module _ (bytes : IsBytes m) (place : text ≢ 0) (f : ℕ) (lt : length t < f) (lc : length c < f)
      (short : length t < size_max) where
    both_stars : Decides (glob_match f m text copy (length c) true true) (Glob true true c t)
    unfolding glob_match
    both_stars =
        let (r, run, found) = strstr-IsFirst f m text copy t c ht hc lt lc in
        elim found [
          | inl (k, le, e, same, below) ↦
              let hit : (r == null) ≡ false = ground arith in
              yes (rw (run, hit) refl) (place-Glob true k le same (λ q. absurd cc))
          | inr (e, never) ↦
              let miss : (r == null) ≡ true = ground arith in
              no (rw (run, miss) refl)
                (λ g. let (le, same) = Glob-place true true g in never (length g.0) le same)
        ]

    star_behind : Decides (glob_match f m text copy (length c) false true) (Glob false true c t)
    unfolding glob_match
    star_behind =
        let (r, run, found) = strstr-IsFirst f m text copy t c ht hc lt lc in
        elim found [
          | inl (zero, le, e, same, below) ↦
              let hit : (r == text) ≡ true = ground arith in
              yes (rw (run, hit) refl) (place-Glob false 0 le same (λ q. refl))
          | inl (suc k, le, e, same, below) ↦
              let miss : (r == text) ≡ false = ground arith in
              no (rw (run, miss) refl) (λ g. not_at_start g (below 0 (omega arith)))
          | inr (e, never) ↦
              let miss : (r == text) ≡ false = ground arith in
              no (rw (run, miss) refl)
                (λ g. let (le, same) = Glob-place false true g in never (length g.0) le same)
        ]
      where
        not_at_start : Glob false true c t → ¬ (SameBytes m (text + 0) copy (length c)) → ⊥
        not_at_start g none =
            let (le, same) = Glob-place false true g in
            let e : length g.0 ≡ 0 = rw (g.3 refl) refl in none (rw e at same)

    equal :
        (q : ℕ) (w : List ℕ)
        → IsStr m q w
        → length w < size_max
        → Decides (some (is_zero (strcmp m q copy))) (w ≡ c)
    equal q w hw small =
        let (to, from) = strcmp-eq_iff m q copy w c bytes hw hc small in
        let z = strcmp m q copy in
        (is_zero z, refl, (λ h. to (is_zero-eq z h), λ e. is_zero_of_eq z (from e)))

    no_star : Decides (glob_match f m text copy (length c) false false) (Glob false false c t)
    unfolding glob_match
    no_star = decides_iff (equal text t ht short) (
      λ e. ([], [], e ∙ sym (append-nil c), λ q. refl, λ q. refl),
      λ (u, v, e, a, b). e ∙ rw (a refl, b refl) (append-nil c),
    )

    star_before : Decides (glob_match f m text copy (length c) true false) (Glob true false c t)
    unfolding glob_match
    star_before = elim (Bool-cases (ltb (length t) (length c))) [
      | inl shorter ↦
          no (rw (strlen-IsStr f m text t ht lt, shorter) refl)
            (λ g. let (le, same) = Glob-place true false g in ground arith)
      | inr enough ↦
          let le : length c ≤ length t = ground arith in
          let k : ℕ = length t - length c in
          let (u, w, e, n, hw) = split_at m text k t ht (omega arith) in
          let n' = length-append u w in
          let lw : length w ≡ length c = let lt' = ap length e in omega arith in
          let at : text + length t - length c ≡ text + k = ground arith in
          let small : length w < size_max = ground arith in
          let whole = decides_iff (equal (text + k) w hw small) (suffix-Glob u w e lw) in
          (whole.0, rw (strlen-IsStr f m text t ht lt, enough, at) whole.1, whole.2)
    ]

    -- The comparison that the stars select decides what they stand for.
    pub glob_match-Glob :
        (starts ends : Bool)
        → Decides (glob_match f m text copy (length c) starts ends) (Glob starts ends c t)
    glob_match-Glob true true = both_stars
    glob_match-Glob false true = star_behind
    glob_match-Glob true false = star_before
    glob_match-Glob false false = no_star
