-- ===== src/Str/Blocks.antt =====
-- `memset`, `memcpy` and `memmove` of lib/string.c.
use hyper_bench.Base.{
  ℕ, zero, suc, ◌+◌, ◌-◌, ◌≤◌, ◌<◌, ◌≡◌, ◌⊎◌, inl, inr, refl, arith, ◌∙◌, leb, Bool-cases,
}
use hyper_bench.Base.Memory.{Memory, poke, poke_self, poke_ne}
use hyper_bench.Str.{memcpy, memcpy_loop, memmove, move_up, move_down}
use hyper_bench.Str.Strings.{SameOutside}

-- `out` holds at `dest` the `n` bytes that `m` holds at `src`, and is `m` elsewhere.
pub record IsBlockCopy (m : Memory) (dest src n : ℕ) (out : Memory) : Type 0 where
  pub inside : (i : ℕ) → i < n → out (dest + i) ≡ m (src + i)
  pub outside : SameOutside dest n m out

add-suc_left : (a i : ℕ) → a + suc i ≡ a + 1 + i
add-suc_left a i = omega arith

move_up-IsBlockCopy : (n : ℕ) (m : Memory) (d s : ℕ) → d ≤ s → IsBlockCopy m d s n (move_up n m d s)
unfolding move_up
move_up-IsBlockCopy zero m d s le = record {
  inside = λ i lt. absurd (omega arith);
  outside = λ a o. refl;
}
move_up-IsBlockCopy (suc n) m d s le =
    let rest = move_up-IsBlockCopy n (poke m d (m s)) (d + 1) (s + 1) (omega arith) in
    record {
      inside = elim [
        | zero ↦ λ lt.
            let ed : d + 0 ≡ d = omega arith in
            let es : s + 0 ≡ s = omega arith in
            rw (ed, es) (rest.outside d (omega arith) ∙ poke_self m d (m s))
        | suc i ↦ λ lt.
            rw (add-suc_left d i, add-suc_left s i)
              (rest.inside i (omega arith) ∙ poke_ne m d (m s) (s + 1 + i) (omega arith))
      ];
      outside = λ a o. rest.outside a (omega arith) ∙ poke_ne m d (m s) a (omega arith);
    }

-- `d` and `s` are the ends of the blocks.
move_down-IsBlockCopy :
    (n : ℕ) (m : Memory) (d s : ℕ) → s ≤ d → IsBlockCopy m d s n (move_down n m (d + n) (s + n))
unfolding move_down
move_down-IsBlockCopy zero m d s le = record {
  inside = λ i lt. absurd (omega arith);
  outside = λ a o. refl;
}
move_down-IsBlockCopy (suc n) m d s le =
    let ed : d + suc n - 1 ≡ d + n = omega arith in
    let es : s + suc n - 1 ≡ s + n = omega arith in
    let v = m (s + n) in
    let rest = move_down-IsBlockCopy n (poke m (d + n) v) d s le in
    rw (ed, es)
      (record {
        inside = λ i lt. elim (Bool-cases (leb n i)) [
          | inl top ↦
              let e : i ≡ n = ground arith in
              rw e (rest.outside (d + n) (omega arith) ∙ poke_self m (d + n) v)
          | inr low ↦ rest.inside i (ground arith) ∙ poke_ne m (d + n) v (s + i) (ground arith)
        ];
        outside = λ a o. rest.outside a (omega arith) ∙ poke_ne m (d + n) v a (omega arith);
      })

-- `memmove` copies a block also where the two blocks overlap, and writes nowhere else.
pub memmove-IsBlockCopy :
    (m : Memory) (dest src n : ℕ) → IsBlockCopy m dest src n (memmove m dest src n)
unfolding memmove
memmove-IsBlockCopy m dest src n = elim (Bool-cases (leb dest src)) [
  | inl up ↦ rw up (move_up-IsBlockCopy n m dest src (ground arith))
  | inr down ↦ rw down (move_down-IsBlockCopy n m dest src (ground arith))
]

memcpy_loop-IsBlockCopy :
    (left i : ℕ) (m : Memory) (dest src : ℕ)
    → (dest ≤ src) ⊎ (src + i + left ≤ dest + i)
    → IsBlockCopy m (dest + i) (src + i) left (memcpy_loop left m dest src i)
unfolding memcpy_loop
memcpy_loop-IsBlockCopy zero i m dest src apart = record {
  inside = λ j lt. absurd (omega arith);
  outside = λ a o. refl;
}
memcpy_loop-IsBlockCopy (suc left) i m dest src apart =
    let v = m (src + i) in
    let rest = memcpy_loop-IsBlockCopy left (i + 1) (poke m (dest + i) v) dest src (omega arith) in
    record {
      inside = elim [
        | zero ↦ λ lt.
            let ed : dest + i + 0 ≡ dest + i = omega arith in
            let es : src + i + 0 ≡ src + i = omega arith in
            rw (ed, es) (rest.outside (dest + i) (omega arith) ∙ poke_self m (dest + i) v)
        | suc j ↦ λ lt.
            let ed : dest + i + suc j ≡ dest + (i + 1) + j = omega arith in
            let es : src + i + suc j ≡ src + (i + 1) + j = omega arith in
            rw (ed, es)
              (rest.inside j (omega arith)
                ∙ poke_ne m (dest + i) v (src + (i + 1) + j) (omega arith))
      ];
      outside = λ a o. rest.outside a (omega arith) ∙ poke_ne m (dest + i) v a (omega arith);
    }

-- `memcpy` copies blocks that do not overlap, or whose destination stands before the source.
pub memcpy-IsBlockCopy :
    (m : Memory) (dest src n : ℕ)
    → (dest ≤ src) ⊎ (src + n ≤ dest)
    → IsBlockCopy m dest src n (memcpy m dest src n)
unfolding memcpy
memcpy-IsBlockCopy m dest src n apart =
    let ed : dest + 0 ≡ dest = omega arith in
    let es : src + 0 ≡ src = omega arith in
    rw (ed, es) at (memcpy_loop-IsBlockCopy n 0 m dest src (omega arith))
