-- ===== src/Heap/FreeList.antt =====
-- The free list that `get_free_pages` of x86_64/heap.c links through the pages.
use hyper_bench.Base.{
  ℕ, zero, suc, ◌+◌, ◌*◌, ◌%◌, ◌^◌, ◌≤◌, ◌<◌, ◌≡◌, ◌≢◌, ◌⊎◌, refl, Option, none, some, List, [],
  ◌∷◌, arith, ◌==◌, ◌∙◌, ap, length, true, false,
}
use mathlib.Core.Path.{subst}
use hyper_bench.Base.Memory.{Memory, poke, poke_self, poke_ne}
use hyper_bench.Heap.{Heap, page_size, add64, link_loop, get_free_pages}

-- From `p` the words lead through `ps` to `tail`.
abbrev pub Chain : Memory → ℕ → List ℕ → ℕ → Type 0
Chain m p [] tail = p ≡ tail
Chain m p (q ∷ qs) tail = (p ≡ q) × Chain m (m q) qs tail

-- `q` is none of `ps`.
abbrev pub NotIn : ℕ → List ℕ → Type 0
NotIn q [] = Unit {0}
NotIn q (p ∷ ps) = (q ≢ p) × NotIn q ps

-- Page addresses, none of them null, each one once.
abbrev pub ArePages : List ℕ → Type 0
ArePages [] = Unit {0}
ArePages (p ∷ ps) = (p % 4096 ≡ 0) × (p ≢ 0) × NotIn p ps × ArePages ps

-- The free list of the heap is `ps`.
pub record IsFreeList (h : Heap) (ps : List ℕ) : Type 0 where
  pub chain : Chain h.mem h.freelist ps 0
  pub pages : ArePages ps

-- The `n` pages from `mem` on.
abbrev pub page_run : ℕ → ℕ → List ℕ
page_run zero mem = []
page_run (suc n) mem = mem ∷ page_run n (mem + 4096)

pub length-page_run : (n mem : ℕ) → length (page_run n mem) ≡ n
length-page_run zero mem = refl
length-page_run (suc n) mem = ap suc (length-page_run n (mem + 4096))

NotIn-page_run : (n q mem : ℕ) → q < mem → NotIn q (page_run n mem)
NotIn-page_run zero q mem h = tt
NotIn-page_run (suc n) q mem h = (omega arith, NotIn-page_run n q (mem + 4096) (omega arith))

page_run-ArePages : (n mem : ℕ) → mem % 4096 ≡ 0 → mem ≢ 0 → ArePages (page_run n mem)
page_run-ArePages zero mem a ne = tt
page_run-ArePages (suc n) mem a ne = (
  a,
  ne,
  NotIn-page_run n mem (mem + 4096) (omega arith),
  page_run-ArePages n (mem + 4096) (omega arith) (omega arith),
)

-- What linking the pages from `mem` up to `end` leaves.
pub record Linked (m : Memory) (mem end old : ℕ) (ps : List ℕ) (r : Option Memory) : Type 0 where
  pub out : Memory
  pub returns : r ≡ some out
  pub chain : Chain out mem ps old
  pub same : (a : ℕ) → (a < mem) ⊎ (end ≤ a) → out a ≡ m a

link_loop-Linked :
    (n f : ℕ) (m : Memory) (mem end old : ℕ)
    → end ≡ mem + 4096 * suc n
    → end < 2 ^ 64
    → n < f
    → Linked m mem end old (page_run (suc n) mem) (link_loop f m mem end old)
unfolding link_loop
link_loop-Linked n zero m mem end old e small lt = absurd (omega arith)
link_loop-Linked zero (suc f) m mem end old e small lt =
    let last : (add64 mem page_size == end) ≡ true = ground arith in
    rw (last, link_loop)
      (record {
        out = poke m mem old;
        returns = refl;
        chain = (refl, poke_self m mem old);
        same = λ a o. poke_ne m mem old a (omega arith);
      })
link_loop-Linked (suc n) (suc f) m mem end old e small lt =
    let next : add64 mem page_size ≡ mem + 4096 = omega arith in
    let more : (add64 mem page_size == end) ≡ false = ground arith in
    let rest =
      link_loop-Linked n f (poke m mem (mem + 4096)) (mem + 4096) end old (omega arith) small
        (omega arith) in
    let head : rest.out mem ≡ mem + 4096 =
      rest.same mem (omega arith) ∙ poke_self m mem (mem + 4096) in
    rw (more, link_loop)
      (rw next (record {
        out = rest.out;
        returns = rest.returns;
        chain = (refl, rw head rest.chain);
        same = λ a o. rest.same a (omega arith) ∙ poke_ne m mem (mem + 4096) a (omega arith);
      }))

-- On a block of whole pages from a page address other than 0, which does not reach the end of the
-- address space, `get_free_pages` ends within as many rounds as there are pages; from an empty list
-- it makes the free list of exactly these pages, in ascending order, while it writes nowhere
-- outside the block.
pub get_free_pages-IsFreeList :
    (n f : ℕ) (h : Heap) (mem : ℕ)
    → h.freelist ≡ 0
    → mem % 4096 ≡ 0
    → mem ≢ 0
    → mem + 4096 * suc n < 2 ^ 64
    → n < f
    → (h' : Heap) × (get_free_pages f h mem (4096 * suc n) ≡ some (h', mem))
      × IsFreeList h' (page_run (suc n) mem)
      × ((a : ℕ) → (a < mem) ⊎ (mem + 4096 * suc n ≤ a) → h'.mem a ≡ h.mem a)
unfolding get_free_pages
get_free_pages-IsFreeList n f h mem empty aligned ne small lt =
    let l = link_loop-Linked n f h.mem mem (mem + 4096 * suc n) h.freelist refl small lt in
    let some_size : (4096 * suc n == 0) ≡ false = ground arith in
    let end : add64 mem (4096 * suc n) ≡ mem + 4096 * suc n = omega arith in
    (
      record h { mem = l.out; freelist = mem },
      rw (some_size, get_free_pages) (rw end (rw l.returns)),
      record {
        chain = subst (λ t. Chain l.out mem (page_run (suc n) mem) t) empty l.chain;
        pages = page_run-ArePages (suc n) mem aligned ne;
      },
      l.same,
    )

link_loop-none :
    (f : ℕ) (m : Memory) (mem end old : ℕ)
    → mem % 4096 ≢ end % 4096
    → link_loop f m mem end old ≡ none
unfolding link_loop
link_loop-none zero m mem end old ne = refl
link_loop-none (suc f) m mem end old ne =
    let more : (add64 mem page_size == end) ≡ false = ground arith in
    rw (more, link_loop)
      (link_loop-none f (poke m mem (add64 mem page_size)) (add64 mem page_size) end old
        (omega arith))

-- On a block whose size is no multiple of the page size the loop of `get_free_pages` never meets
-- its end: it runs on, whatever number of rounds it is given.
pub get_free_pages-none :
    (f : ℕ) (h : Heap) (mem size : ℕ) → size % 4096 ≢ 0 → get_free_pages f h mem size ≡ none
unfolding get_free_pages
get_free_pages-none f h mem size ragged =
    let some_size : (size == 0) ≡ false = ground arith in
    rw (some_size, get_free_pages)
      (rw (link_loop-none f h.mem mem (add64 mem size) h.freelist (omega arith)))
