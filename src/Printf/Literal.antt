-- ===== src/Printf/Literal.antt =====
-- `vsnprintf` of lib/printf.c on formats without a conversion.
use hyper_bench.Base.{
  ℕ, zero, suc, ◌+◌, ◌<◌, ◌≡◌, ◌≢◌, refl, List, [], ◌∷◌, ◌++◌, arith, length, take, some, sym,
  take_all, ==_of_ne, ◌==◌, false,
}
use hyper_bench.Base.Int.{pos, ◌-ℤ◌}
use hyper_bench.Base.Memory.{Memory}
use hyper_bench.Printf.{PStream, addchar, add_str, format_loop, vsnprintf}
use hyper_bench.Printf.Stream.{add_str-Tracks}

-- `s` stands at `p` with a NUL behind it and has no '%'.
abbrev pub IsLiteral : Memory → ℕ → List ℕ → Type 0
IsLiteral m p [] = m p ≡ 0
IsLiteral m p (c ∷ s) = (m p ≡ c) × (c ≢ 0) × (c ≢ b'%') × IsLiteral m (p + 1) s

format_loop-literal :
    (f k : ℕ) (m : Memory) (p : ℕ) (va s : List ℕ) (ps : PStream)
    → IsLiteral m p s
    → length s < f
    → format_loop f k m p va ps ≡ some (add_str ps s)
unfolding format_loop add_str
format_loop-literal zero k m p va s ps h lt = absurd (omega arith)
format_loop-literal (suc f) k m p va [] ps h lt = rw (h, format_loop) refl
format_loop-literal (suc f) k m p va (c ∷ s) ps h lt =
    let e0 : (m p == 0) ≡ false = rw h.0 (==_of_ne c 0 h.1) in
    let e1 : (m p == b'%') ≡ false = rw h.0 (==_of_ne c b'%' h.2) in
    rw (e0, e1, h.0, format_loop)
      (format_loop-literal f k m (p + 1) va s (addchar ps c) h.3 (omega arith))

-- `vsnprintf` ends on every format without a conversion, with fuel above its length and room for `k
-- + 1` bytes, stores as much of it as `k` bytes hold and a NUL behind it, and returns the length of
-- the whole format.
pub vsnprintf-literal :
    (f : ℕ) (m : Memory) (k fmt : ℕ) (va s : List ℕ)
    → IsLiteral m fmt s
    → length s < f
    → vsnprintf f m (pos (k + 1)) fmt va ≡ some (take k s ++ (0 ∷ []), length s)
unfolding vsnprintf
vsnprintf-literal f m k fmt va s h lt =
    let start : PStream = record { written = []; remain = pos (k + 1) -ℤ pos 1; added = 0 } in
    let t =
      add_str-Tracks k s [] start (record {
        kept = sym (take_all k [] (omega arith));
        counted = refl;
        left = ground arith;
      }) in
    rw (format_loop-literal f f m fmt va s start h lt, t.kept, t.counted) refl
