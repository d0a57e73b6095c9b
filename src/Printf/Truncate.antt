-- ===== src/Printf/Truncate.antt =====
-- The buffer and the result of `vsnprintf` of lib/printf.c.
use hyper_bench.Base.{
  ℕ, ◌+◌, ◌≡◌, refl, List, [], ◌∷◌, ◌++◌, arith, length, take, Option, none, some, ◌>>=◌, sym,
  take_all, take-append_le, length-append, ◌∙◌, ap,
}
use hyper_bench.Base.Int.{pos, ◌-ℤ◌}
use hyper_bench.Base.Memory.{Memory}
use hyper_bench.Printf.{PStream, format_loop, vsnprintf}
use hyper_bench.Printf.Stream.{Tracks}
use hyper_bench.Printf.Streams.{SameText, Both}
use hyper_bench.Printf.Rounds.{format_loop-Same}

abbrev start_of : ℕ → PStream
start_of k = record { written = []; remain = pos (k + 1) -ℤ pos 1; added = 0 }

start_of-Tracks : (k : ℕ) → Tracks k [] (start_of k)
start_of-Tracks k = record {
  kept = sym (take_all k [] (omega arith));
  counted = refl;
  left = ground arith;
}

-- What the run with room for `k` bytes and the one with room for `k'` have in common.
vsnprintf_sizes :
    (fuel : ℕ) (m : Memory) (k k' fmt : ℕ) (va buf : List ℕ) (r : ℕ)
    → vsnprintf fuel m (pos (k + 1)) fmt va ≡ some (buf, r)
    → (text : List ℕ) × (buf ≡ take k text ++ (0 ∷ []))
      × (r ≡ length text)
      × (vsnprintf fuel m (pos (k' + 1)) fmt va ≡ some (take k' text ++ (0 ∷ []), length text))
unfolding vsnprintf
vsnprintf_sizes fuel m k k' fmt va buf r h =
    go (format_loop fuel fuel m fmt va (start_of k)) (format_loop fuel fuel m fmt va (start_of k'))
      (format_loop-Same k k' fuel fuel m fmt va (start_of k) (start_of k')
        (record { text = []; one = start_of-Tracks k; other = start_of-Tracks k' }))
      h
  where
    go :
        (s s' : Option PStream)
        → Both (SameText k k') s s'
        → ◌>>=◌ {B = List ℕ × ℕ} s (λ p. some (p.written ++ (0 ∷ []), p.added)) ≡ some (buf, r)
        → (text : List ℕ) × (buf ≡ take k text ++ (0 ∷ []))
          × (r ≡ length text)
          × (◌>>=◌ {B = List ℕ × ℕ} s' (λ p. some (p.written ++ (0 ∷ []), p.added))
              ≡ some (take k' text ++ (0 ∷ []), length text))
    go none s' g e = cc
    go (some p) none g e = absurd g
    go (some p) (some p') g e =
        let eb : p.written ++ (0 ∷ []) ≡ buf = cc in
        let er : p.added ≡ r = cc in
        (
          g.text,
          sym eb ∙ ap (λ w. w ++ (0 ∷ [])) g.one.kept,
          sym er ∙ g.one.counted,
          rw (g.other.kept, g.other.counted) refl,
        )

init_of : (xs : List ℕ) (c : ℕ) → take (length xs) (xs ++ (c ∷ [])) ≡ xs
init_of xs c =
    take-append_le (length xs) xs (c ∷ []) (omega arith) ∙ take_all (length xs) xs (omega arith)

snoc_inj : (xs ys : List ℕ) (c : ℕ) → xs ++ (c ∷ []) ≡ ys ++ (c ∷ []) → xs ≡ ys
snoc_inj xs ys c e =
    let n : length xs ≡ length ys =
      (let l = ap length e in
        let lx = length-append xs (c ∷ []) in let ly = length-append ys (c ∷ []) in omega arith) in
    sym (init_of xs c) ∙ ap (λ zs. take (length xs) zs) e ∙ rw n (init_of ys c)

-- A run of `vsnprintf` that returns, with room for `k + 1` bytes, formats a text that hangs on the format
-- and the arguments but not on the size: for every size `k' + 1` the run returns, has stored the first
-- `k'` bytes of this text, or all of it, with a NUL behind them, and its result is the length of the text.
pub vsnprintf-prefix :
    (fuel : ℕ) (m : Memory) (k fmt : ℕ) (va buf : List ℕ) (r : ℕ)
    → vsnprintf fuel m (pos (k + 1)) fmt va ≡ some (buf, r)
    → (text : List ℕ) × (buf ≡ take k text ++ (0 ∷ []))
      × (r ≡ length text)
      × ((k' : ℕ)
          → vsnprintf fuel m (pos (k' + 1)) fmt va ≡ some (take k' text ++ (0 ∷ []), length text))
vsnprintf-prefix fuel m k fmt va buf r h =
    let (text, stored, counted, whole) = vsnprintf_sizes fuel m k r fmt va buf r h in
    (
      text,
      stored,
      counted,
      λ k'.
          let (text', stored', counted', run) =
            vsnprintf_sizes fuel m r k' fmt va (take r text ++ (0 ∷ [])) (length text) whole in
          let all : take r text ≡ text = take_all r text (omega arith) in
          let all' : take r text' ≡ text' = take_all r text' (omega arith) in
          let same : text' ≡ text =
            sym all' ∙ sym (snoc_inj (take r text) (take r text') 0 stored') ∙ all in
          rw same at run,
    )
