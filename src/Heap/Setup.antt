-- ===== src/Heap/Setup.antt =====
-- `setup_mmu` of x86_64/heap.c: the tables that it builds from the free list.
use hyper_bench.Base.{
  ℕ, zero, suc, ◌+◌, ◌*◌, ◌/◌, ◌%◌, ◌^◌, ◌≤◌, ◌<◌, ◌≡◌, ◌≢◌, inl, inr, refl, sym, ap, ◌∙◌, false,
  Option, none, some, List, [], ◌∷◌, arith, if◌then◌else◌, ◌==◌, ==_of_ne, ==_refl, ==_iff,
  Bool-cases, length, ◌>>=◌,
}
use hyper_bench.Base.Memory.{Memory}
use hyper_bench.Heap.{
  Heap, pgdir_offset, slot, is_present, pt_addr, add64, heap_alloc_page, install_pages, setup_mmu,
}
use hyper_bench.Heap.FreeList.{IsFreeList, NotIn}
use hyper_bench.Heap.Alloc.{heap_alloc_page-IsFreeList}
use hyper_bench.Heap.Walk.{translate, AreTables, pgdir_offset_lt}
use hyper_bench.Heap.Install.{AreFree, Space}
use hyper_bench.Heap.Identity.{need, need-blocks, MapsRun, install_loop-MapsRun}

-- The translation goes by the offsets alone.
translate-ext :
    (k : ℕ) (m : Memory) (p v v' : ℕ)
    → ((j : ℕ) → j ≤ k → pgdir_offset v (j + 1) ≡ pgdir_offset v' (j + 1))
    → translate k m p v ≡ translate k m p v'
translate-ext zero m p v v' same =
    let s : slot p v 1 ≡ slot p v' 1 = ap (λ (t : ℕ). p + 8 * t) (same 0 (omega arith)) in rw s refl
translate-ext (suc k) m p v v' same =
    let e : suc k + 1 ≡ k + 2 = omega arith in
    let o : pgdir_offset v (k + 2) ≡ pgdir_offset v' (k + 2) =
      rw e at (same (suc k) (omega arith)) in
    let s : slot p v (k + 2) ≡ slot p v' (k + 2) = ap (λ (t : ℕ). p + 8 * t) o in
    rw s (elim (Bool-cases (is_present (m (slot p v' (k + 2))))) [
      | inl h ↦
          rw h (
            translate-ext k m (pt_addr (m (slot p v' (k + 2)))) v v' (λ j le. same j (omega arith)))
      | inr h ↦ rw h refl
    ])

same_page :
    (v j : ℕ) → j ≤ 3 → pgdir_offset v (j + 1) ≡ pgdir_offset (4096 * (v / 4096 % 2 ^ 36)) (j + 1)
same_page v zero le = omega arith
same_page v (suc zero) le = omega arith
same_page v (suc (suc zero)) le = omega arith
same_page v (suc (suc (suc zero))) le = omega arith
same_page v (suc (suc (suc (suc j)))) le = absurd (omega arith)

-- Pages below the end of the physical addresses.
abbrev pub AreBelow : List ℕ → Type 0
AreBelow [] = Unit {0}
AreBelow (q ∷ qs) = (q < 2 ^ 52) × AreBelow qs

-- The first table is the root of a tree of one.
abbrev root_level : ℕ → ℕ → ℕ
root_level p t = if t == p then 4 else 0

root-AreFree : (p : ℕ) (ps : List ℕ) → NotIn p ps → AreBelow ps → AreFree (root_level p) ps
root-AreFree p [] ni b = tt
root-AreFree p (q ∷ qs) ni b =
    let ne : (q == p) ≡ false = ==_of_ne q p (λ e. ni.0 (sym e)) in
    (rw ne refl, b.0, root-AreFree p qs ni.1 b.1)

root-AreTables :
    (m : Memory) (p : ℕ)
    → p % 4096 ≡ 0
    → p < 2 ^ 52
    → p ≢ 0
    → ((a : ℕ) → p ≤ a → a < p + 4096 → m a ≡ 0)
    → AreTables m (root_level p) (λ t. 0)
root-AreTables m p al small ne zeros = record {
  aligned = λ t l. elim (Bool-cases (t == p)) [
    | inl e ↦ (let s = (==_iff t p).0 e in rw s (al, small, ne))
    | inr e ↦ absurd (l (rw e refl))
  ];
  links = λ t i lt l h. elim (Bool-cases (t == p)) [
    | inl e ↦
        let s = (==_iff t p).0 e in
        let z : m (t + 8 * i) ≡ 0 = zeros (t + 8 * i) (omega arith) (omega arith) in
        absurd (let h' = rw z at h in cc)
    | inr e ↦ absurd (let l' = rw e at l in omega arith)
  ];
}

-- A clear root translates nothing.
clear_root :
    (m : Memory) (p v : ℕ)
    → p % 4096 ≡ 0
    → ((a : ℕ) → p ≤ a → a < p + 4096 → m a ≡ 0)
    → translate 3 m p v ≡ none
clear_root m p v al zeros =
    let o = pgdir_offset_lt v 4 in
    let z : m (slot p v 4) ≡ 0 = zeros (slot p v 4) (omega arith) (omega arith) in rw z refl

-- What `setup_mmu` leaves: its root is loaded, the first `n` pages are mapped to themselves, and no
-- other page is mapped.
pub record IsIdentity (n p : ℕ) (r : Option (Heap × ℕ)) : Type 0 where
  pub out : Heap
  pub returns : r ≡ some (out, p)
  pub loaded : out.cr3 ≡ p
  pub inside :
      (v : ℕ) → v / 4096 % 2 ^ 36 < n → translate 3 out.mem p v ≡ some (v / 4096 % 2 ^ 36 * 4096)
  pub outside : (v : ℕ) → n ≤ v / 4096 % 2 ^ 36 → translate 3 out.mem p v ≡ none

run-IsIdentity :
    (h : Heap) (p n : ℕ) (r : Option Heap)
    → p % 4096 ≡ 0
    → ((a : ℕ) → p ≤ a → a < p + 4096 → h.mem a ≡ 0)
    → MapsRun h p 0 0 n r
    → IsIdentity n p
        (◌>>=◌ {B = Heap × ℕ} r (λ h2. some (record h2 { start_cr3 = h2.cr3; cr3 = p }, p)))
run-IsIdentity h p n r al zeros run =
    let page : (v : ℕ)
        → translate 3 run.out.mem p v ≡ translate 3 run.out.mem p (4096 * (v / 4096 % 2 ^ 36)) =
      λ v. translate-ext 3 run.out.mem p v (4096 * (v / 4096 % 2 ^ 36)) (same_page v) in
    record {
      out = record run.out { start_cr3 = run.out.cr3; cr3 = p };
      returns = (let e = run.returns in rw e refl);
      loaded = refl;
      inside = λ v lt.
          page v
          ∙ run.inside (v / 4096 % 2 ^ 36) (omega arith) (omega arith)
          ∙ ap some (omega arith);
      outside = λ v le.
          page v
          ∙ run.outside (v / 4096 % 2 ^ 36) (omega arith) (inr (omega arith))
          ∙ clear_root h.mem p (4096 * (v / 4096 % 2 ^ 36)) al zeros;
    }

-- The first page that a heap gives is a root, with no entries; the other pages stay free.
pub root-Space :
    (h : Heap) (p : ℕ) (ps : List ℕ) (n : ℕ)
    → IsFreeList h (p ∷ ps)
    → AreBelow (p ∷ ps)
    → n ≤ length ps
    → (s : Space (heap_alloc_page h).0 n) × (s.level p ≡ 4)
root-Space h p ps n free below enough =
    let got = heap_alloc_page-IsFreeList h p ps free in
    let e = ==_refl p in
    (
      record {
        level = root_level p;
        up = λ t. 0;
        pages = ps;
        tables = root-AreTables (heap_alloc_page h).0.mem p free.pages.0 below.0 free.pages.1 got.2;
        free = got.1;
        outside = root-AreFree p ps free.pages.2 below.1;
        room = enough;
      },
      rw e refl,
    )

-- On `4096 * n` bytes, at least one page, with a root page and three pages for each begun block of 512 pages on the free
-- list, all of them below 2 ^ 52, `setup_mmu` ends. It takes the first page for the root and loads it;
-- then each of the first `n` pages of the address space is mapped to itself, and no other page is
-- mapped.
pub setup_mmu-IsIdentity :
    (f : ℕ) (h : Heap) (p : ℕ) (ps : List ℕ) (n : ℕ)
    → IsFreeList h (p ∷ ps)
    → AreBelow (p ∷ ps)
    → 0 < n
    → n ≤ 2 ^ 36
    → 3 * ((n + 511) / 512) ≤ length ps
    → n < f
    → IsIdentity n p (setup_mmu f h (4096 * n))
unfolding setup_mmu install_pages
setup_mmu-IsIdentity f h p ps n free below some_pages few room lt =
    let got = heap_alloc_page-IsFreeList h p ps free in
    let h1 : Heap = (heap_alloc_page h).0 in
    let al = free.pages.0 in
    let (s, root) = root-Space h p ps (0 + need 0 n) free below (omega (arith, need-blocks n 0)) in
    let run = install_loop-MapsRun n f h1 0 p 0 s root (omega arith) (inl refl) lt in
    let size : (4096 * n == 0) ≡ false = ==_of_ne (4096 * n) 0 (omega arith) in
    let end : add64 (4096 * n) 0 ≡ 4096 * (0 + n) = omega arith in
    rw (got.0, size, end) (run-IsIdentity h1 p n _ al got.2 run)
