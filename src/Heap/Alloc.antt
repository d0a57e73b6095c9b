-- ===== src/Heap/Alloc.antt =====
-- `heap_alloc_page` and `alloc_vpages` of x86_64/heap.c.
use hyper_bench.Base.{
  ℕ, zero, suc, ◌+◌, ◌*◌, ◌%◌, ◌^◌, ◌≤◌, ◌<◌, ◌≡◌, ◌≢◌, ◌⊎◌, refl, List, [], ◌∷◌, arith, ap, length,
}
use hyper_bench.Base.Memory.{Memory}
use mathlib.Core.Path.{ap₂}
use hyper_bench.Heap.{Heap, zero_page, heap_alloc_page, alloc_vpages}
use hyper_bench.Heap.FreeList.{Chain, NotIn, ArePages, IsFreeList}

pub zero_page_inside : (m : Memory) (p a : ℕ) → p ≤ a → a < p + 4096 → zero_page m p a ≡ 0
unfolding zero_page
zero_page_inside m p a lo hi = ground arith

pub zero_page_outside : (m : Memory) (p a : ℕ) → (a < p) ⊎ (p + 4096 ≤ a) → zero_page m p a ≡ m a
unfolding zero_page
zero_page_outside m p a o = ground arith

-- A chain through pages other than `p` survives what happens inside `p`.
pub Chain-ext :
    (m m' : Memory) (p q : ℕ) (qs : List ℕ) (tail : ℕ)
    → p % 4096 ≡ 0
    → ((a : ℕ) → (a < p) ⊎ (p + 4096 ≤ a) → m' a ≡ m a)
    → ArePages qs
    → NotIn p qs
    → Chain m q qs tail
    → Chain m' q qs tail
Chain-ext m m' p q [] tail al same pages out c = c
Chain-ext m m' p q (x ∷ qs) tail al same pages out c =
    let e : m' x ≡ m x = same x (omega (arith, pages.0, out.0)) in
    (c.0, rw e (Chain-ext m m' p (m x) qs tail al same pages.3 out.1 c.1))

-- From a free list that is not empty `heap_alloc_page` takes the first page, clears it, leaves the
-- other pages free and writes nowhere else.
pub heap_alloc_page-IsFreeList :
    (h : Heap) (p : ℕ) (ps : List ℕ)
    → IsFreeList h (p ∷ ps)
    → ((heap_alloc_page h).1 ≡ p)
      × IsFreeList (heap_alloc_page h).0 ps
      × ((a : ℕ) → p ≤ a → a < p + 4096 → (heap_alloc_page h).0.mem a ≡ 0)
      × ((a : ℕ) → (a < p) ⊎ (p + 4096 ≤ a) → (heap_alloc_page h).0.mem a ≡ h.mem a)
heap_alloc_page-IsFreeList h p ps free =
    let got : h.freelist ≡ p = free.chain.0 in
    let step = taken h got free.pages.1 in
    rw step (
      refl,
      record {
        chain =
            Chain-ext h.mem (zero_page h.mem p) p (h.mem p) ps 0 free.pages.0
              (zero_page_outside h.mem p) free.pages.3 free.pages.2 free.chain.1;
        pages = free.pages.3;
      },
      zero_page_inside h.mem p,
      zero_page_outside h.mem p,
    )
  where
    taken :
        (h : Heap)
        → h.freelist ≡ p
        → p ≢ 0
        → heap_alloc_page h ≡ (record h { freelist = h.mem p; mem = zero_page h.mem p }, p)
    taken h got ne = unfold heap_alloc_page in ground arith

-- On an empty free list `heap_alloc_page` returns the null pointer and changes nothing.
pub heap_alloc_page-null : (h : Heap) → IsFreeList h [] → heap_alloc_page h ≡ (h, 0)
unfolding heap_alloc_page
heap_alloc_page-null h free = rw free.chain

-- `n` calls of `heap_alloc_page`, with what they return.
pub alloc_pages : ℕ → Heap → Heap × List ℕ
alloc_pages zero h = (h, [])
alloc_pages (suc n) h =
    let (h1, p) = heap_alloc_page h in let (h2, ps) = alloc_pages n h1 in (h2, p ∷ ps)

-- As many calls as there are free pages return each of them once, in the order of the list, and
-- the next call returns the null pointer.
pub alloc_pages-IsFreeList :
    (h : Heap) (ps : List ℕ)
    → IsFreeList h ps
    → ((alloc_pages (length ps) h).1 ≡ ps) × ((heap_alloc_page (alloc_pages (length ps) h).0).1 ≡ 0)
unfolding alloc_pages
alloc_pages-IsFreeList h [] free = (refl, ap (λ (r : Heap × ℕ). r.1) (heap_alloc_page-null h free))
alloc_pages-IsFreeList h (p ∷ ps) free =
    let one = heap_alloc_page-IsFreeList h p ps free in
    let rest = alloc_pages-IsFreeList (heap_alloc_page h).0 ps one.1 in
    (ap₂ ◌∷◌ one.0 rest.0, rest.1)

-- While the virtual space lasts, two calls of `alloc_vpages` return blocks that do not overlap, the
-- later one below the earlier, each as long as it was asked for.
pub alloc_vpages_apart :
    (h : Heap) (n k : ℕ)
    → 4096 * (n + k) < h.vfree_top
    → h.vfree_top < 2 ^ 64
    → ((alloc_vpages h n).1 + 4096 * n ≡ h.vfree_top)
      × ((alloc_vpages (alloc_vpages h n).0 k).1 + 4096 * k ≡ (alloc_vpages h n).1)
unfolding alloc_vpages
alloc_vpages_apart h n k room top = (omega arith, omega arith)

-- The first call, from 0, returns a block that ends with the address space.
pub alloc_vpages_first :
    (h : Heap) (n : ℕ)
    → h.vfree_top ≡ 0
    → 0 < n
    → 4096 * n < 2 ^ 64
    → (alloc_vpages h n).1 + 4096 * n ≡ 2 ^ 64
unfolding alloc_vpages
alloc_vpages_first h n e some_pages room = omega arith
