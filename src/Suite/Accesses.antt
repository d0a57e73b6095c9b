-- ===== src/Suite/Accesses.antt =====
-- Which memory benchmark/memory-cold.c and benchmark/memory-hot.c read.
use hyper_bench.Base.{
  ℕ, zero, suc, ◌+◌, ◌*◌, ◌%◌, ◌^◌, ◌≤◌, ◌<◌, ◌≡◌, refl, ◌∷◌, some, get_elem?, arith, ap, ◌∙◌,
}
use hyper_bench.Heap.{add64}
use hyper_bench.Suite.{
  map_memory, Globals, cold_loop, cold_addresses, hot_loop, hot_addresses, memory_hot,
}

-- While the page numbers do not wrap, round `k` reads page `ptr + k`.
cold_loop-get_elem? :
    (n ptr k : ℕ)
    → ptr + n ≤ 2 ^ 30
    → k < n
    → get_elem? (cold_loop n ptr) k ≡ some ((ptr + k) * 4096)
unfolding cold_loop
cold_loop-get_elem? zero ptr k le lt = absurd (omega arith)
cold_loop-get_elem? (suc n) ptr zero le lt = ap some (omega arith)
cold_loop-get_elem? (suc zero) ptr (suc k) le lt = absurd (omega arith)
cold_loop-get_elem? (suc (suc n)) ptr (suc k) le lt =
    let e : add64 ptr 1 % 2 ^ 30 ≡ ptr + 1 = omega arith in
    let d : (ptr + 1 + k) * 4096 ≡ (ptr + suc k) * 4096 = omega arith in
    ap (λ q. get_elem? (cold_loop (suc n) q) k) e
    ∙ cold_loop-get_elem? (suc n) (ptr + 1) k (omega arith) (omega arith)
    ∙ ap some d

hot_loop-get_elem? :
    (n address k : ℕ)
    → address + n * 4096 ≤ 2 ^ 30
    → k < n
    → get_elem? (hot_loop n address) k ≡ some (address + k * 4096)
unfolding hot_loop
hot_loop-get_elem? zero address k le lt = absurd (omega arith)
hot_loop-get_elem? (suc n) address zero le lt = ap some (omega arith)
hot_loop-get_elem? (suc zero) address (suc k) le lt = absurd (omega arith)
hot_loop-get_elem? (suc (suc n)) address (suc k) le lt =
    let e : add64 address 0x1000 % 2 ^ 30 ≡ address + 4096 = omega arith in
    let d : address + 4096 + k * 4096 ≡ address + suc k * 4096 = omega arith in
    ap (λ q. get_elem? (hot_loop (suc n) q) k) e
    ∙ hot_loop-get_elem? (suc n) (address + 4096) k (omega arith) (omega arith)
    ∙ ap some d

-- Each of the 100000 reads of the cold benchmark is at the start of a page above all pages that it
-- read before, and the page lies within the 2 ^ 33 bytes that its `init` maps.
pub cold_addresses-get_elem? :
    (k : ℕ)
    → k < 100000
    → (a : ℕ) × (get_elem? cold_addresses k ≡ some a)
      × (a % 4096 ≡ 0)
      × (a + 4096 ≤ 2 ^ 33)
      × ((j b : ℕ) → j < k → get_elem? cold_addresses j ≡ some b → b + 4096 ≤ a)
unfolding cold_addresses
cold_addresses-get_elem? k lt = (
  (0x4000 + k) * 4096,
  cold_loop-get_elem? 100000 0x4000 k (omega arith) lt,
  omega arith,
  omega arith,
  λ j b less e.
      let h = cold_loop-get_elem? 100000 0x4000 j (omega arith) (omega arith) in grind arith,
)

-- The `init` of the hot benchmark maps 2 ^ 32 bytes and then does the reads of its kernel, and each
-- of these 100000 reads is at the start of a page within the bytes mapped, above all pages read
-- before.
pub hot_addresses-get_elem? :
    (g : Globals) (k : ℕ)
    → k < 100000
    → ((memory_hot g).init ≡ map_memory (2 ^ 32) ∷ (memory_hot g).kernel)
      × (a : ℕ) × (get_elem? hot_addresses k ≡ some a)
      × (a % 4096 ≡ 0)
      × (a + 4096 ≤ 2 ^ 32)
      × ((j b : ℕ) → j < k → get_elem? hot_addresses j ≡ some b → b + 4096 ≤ a)
unfolding hot_addresses
hot_addresses-get_elem? g k lt = (
  refl,
  0x100000 + k * 4096,
  hot_loop-get_elem? 100000 0x100000 k (omega arith) lt,
  omega arith,
  omega arith,
  λ j b less e.
      let h = hot_loop-get_elem? 100000 0x100000 j (omega arith) (omega arith) in grind arith,
)
