-- ===== src/Heap/Install.antt =====
-- `install_page` of x86_64/heap.c against the processor's walk.
use hyper_bench.Base.{
  ℕ, ◌+◌, ◌*◌, ◌%◌, ◌^◌, ◌≤◌, ◌<◌, ◌≡◌, ◌≢◌, sym, ap, ◌∙◌, false, List, [], ◌∷◌, arith, ◌==◌,
  length, bit_or, ==_of_ne,
}
use hyper_bench.Base.Memory.{Memory, update, poke, poke_self, poke_ne}
use hyper_bench.Base.Bits.{bit_or_seven}
use hyper_bench.Heap.{Heap, zero_page, heap_alloc_page, new_table, install_table}
use hyper_bench.Heap.FreeList.{NotIn, IsFreeList}
use hyper_bench.Heap.Alloc.{
  heap_alloc_page-IsFreeList, zero_page_inside, zero_page_outside, Chain-ext,
}
use hyper_bench.Heap.Walk.{AreTables}
use hyper_bench.Heap.Grow.{IsLinked}

-- Pages that are no tables, below the end of the physical addresses.
abbrev pub AreFree : (ℕ → ℕ) → List ℕ → Type 0
AreFree level [] = Unit {0}
AreFree level (q ∷ qs) = (level q ≡ 0) × (q < 2 ^ 52) × AreFree level qs

-- The heap with page tables, and with `n` free pages at least.
pub record Space (h : Heap) (n : ℕ) : Type 0 where
  pub level : ℕ → ℕ
  pub up : ℕ → ℕ
  pub pages : List ℕ
  pub tables : AreTables h.mem level up
  pub free : IsFreeList h pages
  pub outside : AreFree level pages
  pub room : n ≤ length pages

pub NotIn-AreFree :
    (level : ℕ → ℕ) (t : ℕ) (qs : List ℕ) → level t ≢ 0 → AreFree level qs → NotIn t qs
NotIn-AreFree level t [] l f = tt
NotIn-AreFree level t (q ∷ qs) l f = ((λ e. l (ap level e ∙ f.0)), NotIn-AreFree level t qs l f.2)

-- One page less is free, and it is a table of another level now.
pub AreFree-update :
    (level : ℕ → ℕ) (q v : ℕ) (qs : List ℕ)
    → NotIn q qs
    → AreFree level qs
    → AreFree (update level q v) qs
AreFree-update level q v [] ni f = tt
AreFree-update level q v (x ∷ qs) ni f =
    let ne : (x == q) ≡ false = ==_of_ne x q (λ e. ni.0 (sym e)) in
    (rw ne f.0, f.1, AreFree-update level q v qs ni.1 f.2)

-- A write in a page that is not free leaves the free list.
pub poke-IsFreeList :
    (h : Heap) (qs : List ℕ) (t x v : ℕ)
    → IsFreeList h qs
    → t % 4096 ≡ 0
    → t ≤ x
    → x < t + 4096
    → NotIn t qs
    → IsFreeList (record h { mem = poke h.mem x v }) qs
poke-IsFreeList h qs t x v free al lo hi ni = record {
  chain =
      Chain-ext h.mem (poke h.mem x v) t h.freelist qs 0 al
        (λ a o. poke_ne h.mem x v a (omega arith)) free.pages ni free.chain;
  pages = free.pages;
}

-- What `install_table` does at the entry `p + 8 * i`: the page `q` becomes a table there.
pub record Installed (h h' : Heap) (p i q : ℕ) (qs : List ℕ) : Type 0 where
  pub linked : IsLinked h.mem h'.mem p i q
  pub free : IsFreeList h' qs

pub install_table-Installed :
    (h : Heap) (p i q : ℕ) (qs : List ℕ)
    → IsFreeList h (q ∷ qs)
    → p % 4096 ≡ 0
    → i < 512
    → p ≢ q
    → NotIn p qs
    → Installed h (install_table h (p + 8 * i) 0) p i q qs
unfolding install_table new_table
install_table-Installed h p i q qs free al lt ne ni =
    let got = heap_alloc_page-IsFreeList h q qs free in
    let h1 : Heap = (heap_alloc_page h).0 in
    let m1 : Memory = zero_page h1.mem q in
    let x : ℕ = p + 8 * i in
    let zeroed : IsFreeList (record h1 { mem = m1 }) qs = record {
      chain =
          Chain-ext h1.mem m1 q h1.freelist qs 0 free.pages.0 (zero_page_outside h1.mem q)
            got.1.pages free.pages.2 got.1.chain;
      pages = free.pages.3;
    } in
    rw got.0 (record {
      linked = record {
        entry = poke_self m1 x (bit_or q 7) ∙ bit_or_seven q (omega (arith, free.pages.0));
        clear = λ a lo hi.
            poke_ne m1 x (bit_or q 7) a (omega (arith, free.pages.0))
            ∙ zero_page_inside h1.mem q a lo hi;
        same =
            λ a o nx. poke_ne m1 x (bit_or q 7) a nx ∙ zero_page_outside h1.mem q a o ∙ got.3 a o;
      };
      free =
          poke-IsFreeList (record h1 { mem = m1 }) qs p x (bit_or q 7) zeroed al (omega arith)
            (omega arith) ni;
    })
