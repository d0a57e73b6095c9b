-- ===== src/Mp/Search.antt =====
-- The search for the MP floating pointer structure in x86_64/mp.c.
use hyper_bench.Base.{
  ℕ, zero, suc, ◌+◌, ◌*◌, ◌≤◌, ◌<◌, ◌≡◌, ◌≢◌, ◌⊎◌, inl, inr, refl, arith, some, true, false,
  ltb_of_lt, ltb_of_le, Bool-cases, ==_of_ne, ltb, ◌==◌, ◌%◌, ◌^◌, if◌then◌else◌,
}
use hyper_bench.Base.Memory.{Memory}
use hyper_bench.Str.Compare.{IsBytes}
use hyper_bench.Mp.{read16, is_mp, search_loop, search_fuel, mpsearch1, mpsearch, first_block}

-- What a search of the `n` places of 16 bytes from `a` on answers: the first that holds the
-- structure, or the null pointer where none does.
abbrev pub IsFirst : Memory → ℕ → ℕ → ℕ → Type 0
IsFirst m a n r =
    ((k : ℕ) × (k < n)
      × (r ≡ a + k * 16)
      × (is_mp m r ≡ true)
      × ((j : ℕ) → j < k → is_mp m (a + j * 16) ≡ false))
    ⊎ ((r ≡ 0) × ((j : ℕ) → j < n → is_mp m (a + j * 16) ≡ false))

IsFirst-suc :
    (m : Memory) (a n r : ℕ) → is_mp m a ≡ false → IsFirst m (a + 16) n r → IsFirst m a (suc n) r
IsFirst-suc m a n r miss (inl (k, below, e, hit, first)) = inl (
  suc k,
  omega arith,
  omega arith,
  hit,
  elim [
    | zero ↦ λ lt. let z : a + 0 * 16 ≡ a = omega arith in rw z miss
    | suc j ↦
        λ lt. let s : a + suc j * 16 ≡ a + 16 + j * 16 = omega arith in rw s (first j (omega arith))
  ],
)
IsFirst-suc m a n r miss (inr (e, nowhere)) = inr (
  e,
  elim [
    | zero ↦ λ lt. let z : a + 0 * 16 ≡ a = omega arith in rw z miss
    | suc j ↦ λ lt.
        let s : a + suc j * 16 ≡ a + 16 + j * 16 = omega arith in rw s (nowhere j (omega arith))
  ],
)

search_loop-IsFirst :
    (n f : ℕ) (m : Memory) (a e : ℕ)
    → e ≡ a + n * 16
    → n < f
    → (r : ℕ) × (search_loop f m a e ≡ some r) × IsFirst m a n r
unfolding search_loop
search_loop-IsFirst n zero m a e end lt = absurd (omega arith)
search_loop-IsFirst zero (suc f) m a e end lt =
    rw (ltb_of_le a e (omega arith), search_loop)
      (0, refl, inr (refl, λ j le. absurd (omega arith)))
search_loop-IsFirst (suc n) (suc f) m a e end lt =
    rw (ltb_of_lt a e (omega arith), search_loop)
      (elim (Bool-cases (is_mp m a)) [
        | inl hit ↦
            rw (hit, search_loop)
              (a, refl, inl (0, omega arith, omega arith, hit, λ j le. absurd (omega arith)))
        | inr miss ↦
            let rest = search_loop-IsFirst n f m (a + 16) e (omega arith) (omega arith) in
            rw (miss, search_loop) (rest.0, rest.1, IsFirst-suc m a n rest.0 miss rest.2)
      ])

search_loop_past : (f : ℕ) (m : Memory) (a e : ℕ) → e ≤ a → search_loop (suc f) m a e ≡ some 0
unfolding search_loop
search_loop_past f m a e le = rw (ltb_of_le a e le, search_loop) refl

-- How many of the `n` places of a block the search looks at: none where the end of the block wraps.
abbrev pub places : ℕ → ℕ → ℕ
places a n = if ltb (a + n * 16) (2 ^ 64) then n else 0

-- `mpsearch1` ends on every block of at most 64 KB that is a whole number of places, and returns the
-- first place with the signature and a checksum of 0, or the null pointer where there is none. Where the
-- end of the block is not below 2 ^ 64 it wraps, and no place is looked at.
pub mpsearch1-IsFirst :
    (m : Memory) (a n : ℕ)
    → a < 2 ^ 64
    → n ≤ 4096
    → (r : ℕ) × (mpsearch1 m a (n * 16) ≡ some r) × IsFirst m a (places a n) r
unfolding mpsearch1
mpsearch1-IsFirst m a n word small = elim (Bool-cases (ltb (a + n * 16) (2 ^ 64))) [
  | inl fits ↦
      let lt : a + n * 16 < 2 ^ 64 = ground arith in
      rw fits
        (search_loop-IsFirst n search_fuel m a ((a + n * 16) % 2 ^ 64) (omega arith) (omega arith))
  | inr wraps ↦
      let le : 2 ^ 64 ≤ a + n * 16 = ground arith in
      rw wraps (
        0,
        search_loop_past 4096 m a ((a + n * 16) % 2 ^ 64) (omega arith),
        inr (refl, λ j lt. absurd (omega arith)),
      )
]

first_block-word : (m : Memory) → IsBytes m → first_block m < 2 ^ 64
unfolding first_block
first_block-word m bytes =
    let b0 = bytes 0x40e in
    let b1 = bytes 0x40f in
    elim (Bool-cases (read16 m 0x40e * 16 == 0)) [
      | inl e ↦ rw e (omega arith)
      | inr e ↦ rw e (omega arith)
    ]

mpsearch_lem :
    (m : Memory)
    → IsBytes m
    → (r : ℕ) × (mpsearch m ≡ some r)
      × (((r ≢ 0) × IsFirst m (first_block m) (places (first_block m) 64) r)
          ⊎ (IsFirst m (first_block m) (places (first_block m) 64) 0 × IsFirst m 0xf0000 4096 r))
unfolding mpsearch
mpsearch_lem m bytes =
    let (a, ea, fa) =
      mpsearch1-IsFirst m (first_block m) 64 (first_block-word m bytes) (omega arith) in
    let (b, eb, fb) = mpsearch1-IsFirst m 0xf0000 4096 (omega arith) (omega arith) in
    pick a b ea eb fa fb
  where
    pick :
        (a b : ℕ)
        → mpsearch1 m (first_block m) 1024 ≡ some a
        → mpsearch1 m 0xf0000 0x10000 ≡ some b
        → IsFirst m (first_block m) (places (first_block m) 64) a
        → IsFirst m 0xf0000 4096 b
        → (r : ℕ) × (mpsearch m ≡ some r)
          × (((r ≢ 0) × IsFirst m (first_block m) (places (first_block m) 64) r)
              ⊎ (IsFirst m (first_block m) (places (first_block m) 64) 0
                  × IsFirst m 0xf0000 4096 r))
    pick zero b ea eb fa fb = (b, rw ea eb, inr (fa, fb))
    pick (suc a) b ea eb fa fb =
        (suc a, rw ea (rw (==_of_ne (suc a) 0 (omega arith))), inl (omega arith, fa))

-- The segment of the EBDA and the KB of base memory, as the BIOS data area names them.
abbrev pub ebda_segment : Memory → ℕ
ebda_segment m = m 0x40f * 256 + m 0x40e

abbrev pub base_kilobytes : Memory → ℕ
base_kilobytes m = m 0x414 * 256 + m 0x413

-- The first block is the `n` places from `a` on: the first KB of the EBDA, or the last KB of base memory
-- where there is no EBDA, or nothing where there is neither.
abbrev pub IsFirstBlock : Memory → ℕ → ℕ → Type 0
IsFirstBlock m a n =
    ((ebda_segment m ≢ 0) × (a ≡ ebda_segment m * 16) × (n ≡ 64))
    ⊎ ((ebda_segment m ≡ 0)
        × (((base_kilobytes m ≢ 0) × (a + 1024 ≡ base_kilobytes m * 1024) × (n ≡ 64))
            ⊎ ((base_kilobytes m ≡ 0) × (n ≡ 0))))

places_of_fits : (a n : ℕ) → a + n * 16 < 2 ^ 64 → places a n ≡ n
places_of_fits a n lt = ground arith

first_block-IsFirstBlock :
    (m : Memory) → IsBytes m → IsFirstBlock m (first_block m) (places (first_block m) 64)
unfolding first_block
first_block-IsFirstBlock m bytes =
    let b0 = bytes 0x40e in
    let b1 = bytes 0x40f in
    let b2 = bytes 0x413 in
    let b3 = bytes 0x414 in
    elim (Bool-cases (ebda_segment m * 16 == 0)) [
      | inl e ↦
          let z : ebda_segment m ≡ 0 = ground arith in
          rw e (elim (Bool-cases (base_kilobytes m == 0)) [
            | inl k ↦ let y : base_kilobytes m ≡ 0 = ground arith in inr (z, inr (y, ground arith))
            | inr k ↦
                let y : base_kilobytes m ≢ 0 = ground arith in
                inr (z, inl (y, omega arith, places_of_fits _ 64 (omega arith)))
          ])
      | inr e ↦
          let n : ebda_segment m ≢ 0 = ground arith in
          rw e (inl (n, refl, places_of_fits _ 64 (omega arith)))
    ]

-- In a memory of bytes `mpsearch` ends, and what it returns is the first structure of the first block, if
-- that block holds one; else the first one from 0xF0000 to 0xFFFFF; else the null pointer. The first block
-- is the first KB of the EBDA, or where there is none the last KB of base memory; with no base memory
-- either its end wraps, and nothing of it is looked at.
pub mpsearch-IsFirst :
    (m : Memory)
    → IsBytes m
    → (a : ℕ) × (n : ℕ) × IsFirstBlock m a n
      × ((r : ℕ) × (mpsearch m ≡ some r)
          × (((r ≢ 0) × IsFirst m a n r) ⊎ (IsFirst m a n 0 × IsFirst m 0xf0000 4096 r)))
mpsearch-IsFirst m bytes = (
  first_block m,
  places (first_block m) 64,
  first_block-IsFirstBlock m bytes,
  mpsearch_lem m bytes,
)
