-- ===== src/Printf/Binary.antt =====
-- `binstr` of lib/printf.c.
use native.Mathlib.Nat.{mod-lt, mod-eq_of_lt, add-mul-mod_self_right, mod-add-div', pow-suc}
use hyper_bench.Base.{
  ℕ, zero, suc, ◌+◌, ◌-◌, ◌*◌, ◌/◌, ◌%◌, ◌^◌, ◌<◌, ◌≡◌, refl, sym, ◌∙◌, ap, List, [], ◌∷◌, length,
  arith, true, false, ◌==◌, if◌then◌else◌, Bool, Bool-cases, inl, inr,
}
use hyper_bench.Printf.{binstr_loop, binstr}

-- The number whose binary digits stand in a string up to its NUL, with quotes between them.
abbrev pub read_binary : ℕ → List ℕ → ℕ
read_binary acc [] = acc
read_binary acc (c ∷ s) =
    let one = read_binary (2 * acc + 1) s in
    let zero_bit = read_binary (2 * acc) s in
    let skip = read_binary acc s in
    if c == b'1' then one else if c == b'0' then zero_bit else if c == b'\'' then skip else acc

bit_below : (b p r : ℕ) → b < 2 → r < p → b * p + r < 2 * p
bit_below zero p r lb lr = omega arith
bit_below (suc zero) p r lb lr = omega arith
bit_below (suc (suc b)) p r lb lr = absurd (omega arith)

regroup : (h b p r : ℕ) → r + (h * 2 + b) * p ≡ b * p + r + h * (2 * p)
regroup h b p r = grind arith

-- The low bits of a number, from its highest of them on.
mod-double : (x p : ℕ) → 0 < p → x % (2 * p) ≡ (x / p) % 2 * p + x % p
mod-double x p pos =
    let q = x / p in
    let r = mod-lt x pos in
    let halves : q ≡ q / 2 * 2 + q % 2 = omega arith in
    let low : (q % 2 * p + x % p) < 2 * p = bit_below (q % 2) p (x % p) (omega arith) r in
    let split : x ≡ q % 2 * p + x % p + q / 2 * (2 * p) =
      sym (mod-add-div' x p) ∙ ap (λ z. x % p + z * p) halves ∙ regroup (q / 2) (q % 2) p (x % p) in
    ap (λ z. z % (2 * p)) split
    ∙ add-mul-mod_self_right (q % 2 * p + x % p) (q / 2) (2 * p)
    ∙ mod-eq_of_lt low

pow_pos : (k : ℕ) → 0 < 2 ^ k
pow_pos zero = omega arith
pow_pos (suc k) = omega (arith, pow-suc 2 k, pow_pos k)

regroup_read : (acc b p r : ℕ) → (2 * acc + b) * p + r ≡ acc * (2 * p) + (b * p + r)
regroup_read acc b p r = grind arith

read_bit :
    (b acc : ℕ) (s : List ℕ)
    → b < 2
    → read_binary acc ((if b == 1 then b'1' else b'0') ∷ s) ≡ read_binary (2 * acc + b) s
read_bit zero acc s lt = let e : 2 * acc + 0 ≡ 2 * acc = omega arith in rw e refl
read_bit (suc zero) acc s lt = refl
read_bit (suc (suc b)) acc s lt = absurd (omega arith)

read_quote :
    (acc : ℕ) (last fourth : Bool) (s : List ℕ)
    → read_binary acc (if last then s else if fourth then b'\'' ∷ s else s) ≡ read_binary acc s
read_quote acc true fourth s = refl
read_quote acc false true s = refl
read_quote acc false false s = refl

read_binary-binstr_loop :
    (left i x acc : ℕ) → read_binary acc (binstr_loop left i x) ≡ acc * 2 ^ left + x % 2 ^ left
unfolding binstr_loop
read_binary-binstr_loop zero i x acc = omega arith
read_binary-binstr_loop (suc left) i x acc =
    let b = (x / 2 ^ left) % 2 in
    let rest = binstr_loop left (i + 1) x in
    let behind = if left == 0 then rest else if (i + 1) % 4 == 0 then b'\'' ∷ rest else rest in
    let double : 2 ^ suc left ≡ 2 * 2 ^ left = omega (arith, pow-suc 2 left) in
    read_bit b acc behind (omega arith)
    ∙ read_quote (2 * acc + b) (left == 0) ((i + 1) % 4 == 0) rest
    ∙ read_binary-binstr_loop left (i + 1) x (2 * acc + b)
    ∙ rw (double, mod-double x (2 ^ left) (pow_pos left))
        (regroup_read acc b (2 ^ left) (x % 2 ^ left))

length-binstr_loop :
    (left i x : ℕ) → i + left ≡ 64 → length (binstr_loop left i x) ≡ left + (15 - i / 4) + 1
unfolding binstr_loop
length-binstr_loop zero i x e = omega arith
length-binstr_loop (suc left) i x e = elim (Bool-cases (left == 0)) [
  | inl last ↦ let h = length-binstr_loop left (i + 1) x (omega arith) in rw last (ground arith)
  | inr more ↦ elim (Bool-cases ((i + 1) % 4 == 0)) [
    | inl fourth ↦
        let h = length-binstr_loop left (i + 1) x (omega arith) in rw (more, fourth) (ground arith)
    | inr other ↦
        let h = length-binstr_loop left (i + 1) x (omega arith) in rw (more, other) (ground arith)
  ]
]

-- `binstr` fills an array of 64 + 16 bytes exactly, as its last line asserts, and what it writes reads back,
-- without the quotes, as the number.
pub read_binary-binstr :
    (x : ℕ) → x < 2 ^ 64 → (length (binstr x) ≡ 80) × (read_binary 0 (binstr x) ≡ x)
unfolding binstr
read_binary-binstr x lt =
    (length-binstr_loop 64 0 x refl, omega (arith, read_binary-binstr_loop 64 0 x 0))
