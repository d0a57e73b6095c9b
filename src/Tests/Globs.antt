-- ===== src/Tests/Globs.antt =====
-- `simple_glob` on the text "cab" and the pattern "*ca*".
use hyper_bench.Base.{inr, refl, true, List, [], ◌∷◌, ℕ, arith}
use hyper_bench.Base.Memory.{Memory}
use hyper_bench.Str.{simple_glob}
use hyper_bench.Str.Match.{Glob, Decides}
use hyper_bench.Str.Glob.{simple_glob-Glob}
use hyper_bench.Tests.{bytes_at}
use hyper_bench.Tests.Strings.{bytes_at-IsBytes}

abbrev texts : List ℕ
texts = b'c' ∷ b'a' ∷ b'b' ∷ 0 ∷ b'*' ∷ b'c' ∷ b'a' ∷ b'*' ∷ []

abbrev m : Memory
m = bytes_at 100 texts

simple_glob-Glob_example :
    Decides
      (simple_glob 5 m 200 100 104)
      (Glob true true (b'c' ∷ b'a' ∷ []) (b'c' ∷ b'a' ∷ b'b' ∷ []))
simple_glob-Glob_example =
    simple_glob-Glob 5 m 200 100 104 true true (b'c' ∷ b'a' ∷ []) (b'c' ∷ b'a' ∷ b'b' ∷ [])
      (bytes_at-IsBytes 100 texts (
        omega arith,
        (
          omega arith,
          (
            omega arith,
            (omega arith, (omega arith, (omega arith, (omega arith, (omega arith, tt))))),
          ),
        ),
      ))
      (refl, omega arith, (refl, omega arith, (refl, omega arith, (refl, omega arith, refl))))
      (refl, omega arith, (refl, omega arith, (refl, omega arith, refl))) (λ e. absurd cc)
      (λ e. absurd cc) (inr (omega arith)) (inr (omega arith)) (omega arith) (omega arith)
      (omega arith) (omega arith)
