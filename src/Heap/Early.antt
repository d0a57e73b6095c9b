-- ===== src/Heap/Early.antt =====
-- `early_mem_init` of x86_64/heap.c: from the boot loader's record to the free list, and on to the page
-- tables of `setup_mmu`.
use mathlib.Core.Path.{subst}
use hyper_bench.Base.{
  ℕ, zero, suc, ◌+◌, ◌-◌, ◌*◌, ◌/◌, ◌%◌, ◌^◌, ◌≤◌, ◌<◌, ◌≡◌, refl, some, arith, true, false, ltb,
  Bool-cases, inl, inr,
}
use hyper_bench.Heap.{
  Heap, BootInfo, entry_size, page_size, add64, map_loop, get_memory_map, init_bounds, page_down,
  get_free_pages, early_mem_init, setup_mmu,
}
use hyper_bench.Heap.FreeList.{IsFreeList, page_run, length-page_run, get_free_pages-IsFreeList}
use hyper_bench.Heap.Setup.{AreBelow, IsIdentity, setup_mmu-IsIdentity}

-- The walk over the memory map ends behind `k` entries.
map_loop-ends :
    (k f : ℕ) (b : BootInfo) (mmap end_addr heap_end : ℕ)
    → end_addr ≤ mmap + 24 * k
    → k < f
    → (r : ℕ) × (map_loop f b mmap end_addr heap_end ≡ some r)
unfolding map_loop
map_loop-ends zero zero b mmap end_addr heap_end le lt = absurd (omega arith)
map_loop-ends (suc k) zero b mmap end_addr heap_end le lt = absurd (omega arith)
map_loop-ends zero (suc f) b mmap end_addr heap_end le lt =
    let e : ltb mmap end_addr ≡ false = ground arith in (heap_end, rw (e, map_loop) refl)
map_loop-ends (suc k) (suc f) b mmap end_addr heap_end le lt =
    let next : ℕ = add64 heap_end (b.entry_length mmap) in
    let (r, h) =
      map_loop-ends k f b (mmap + entry_size) end_addr next (omega arith) (omega arith) in
    elim (Bool-cases (ltb mmap end_addr)) [
      | inl e ↦ (r, rw (e, map_loop) h)
      | inr e ↦ (heap_end, rw (e, map_loop) refl)
    ]

-- What the kernel's start is to find in the record of the boot loader, `n + 1` being the number of whole
-- pages from the end of the kernel to the end of the memory.
pub record Bootable (f base_addr : ℕ) (b : BootInfo) (n : ℕ) : Type 0 where
  pub map_fits : b.mmap_addr + b.mmap_length < 2 ^ 32
  pub map_short : b.mmap_length ≤ 24 * (f - 1)
  pub kernel_end : (0 < base_addr) × (base_addr + 4095 < 2 ^ 64)
  pub memory_end : b.mem_upper * 1024 ≡ (base_addr + 4095) / 4096 * 4096 + 4096 * suc n
  pub memory_small : b.mem_upper * 1024 < 2 ^ 52
  pub enough_fuel : n < f

-- The first page behind the kernel.
abbrev pub first_page : ℕ → ℕ
first_page base_addr = (base_addr + 4095) / 4096 * 4096

init_bounds-heap_base :
    (f base_addr : ℕ) (b : BootInfo) (n : ℕ) (h : Heap)
    → Bootable f base_addr b n
    → h.first_mem_init ≡ false
    → (h' : Heap) × (init_bounds f base_addr b h ≡ some h') × (h'.heap_base ≡ first_page base_addr)
unfolding init_bounds get_memory_map page_down
init_bounds-heap_base f base_addr b n h ok start =
    let end : ℕ = (b.mmap_addr + b.mmap_length) % 2 ^ 32 in
    let (r, walked) =
      map_loop-ends (f - 1) f b b.mmap_addr end 0 (omega (arith, ok.map_fits, ok.map_short))
        (omega (arith, ok.enough_fuel)) in
    let base : add64 base_addr (page_size - 1) ≡ base_addr + 4095 =
      omega (arith, ok.kernel_end.1) in
    (
      record h { first_mem_init = true; heap_base = first_page base_addr; heap_end = page_down r },
      rw (start, walked) (rw base refl),
      refl,
    )

early_mem_init-some :
    (f base_addr : ℕ) (b : BootInfo) (h h1 h2 : Heap) (size p : ℕ)
    → init_bounds f base_addr b h ≡ some h1
    → (b.mem_upper * 1024 + 2 ^ 64 - h1.heap_base) % 2 ^ 64 ≡ size
    → get_free_pages f (record h1 { freelist = 0 }) h1.heap_base size ≡ some (h2, p)
    → early_mem_init f base_addr b h ≡ some h2
unfolding early_mem_init
early_mem_init-some f base_addr b h h1 h2 size p bounds e got = rw bounds (rw e (rw got refl))

-- Where the memory ends at a whole page behind the kernel, `early_mem_init` ends, and the free list is the
-- run of the pages from the first one behind the kernel up to the end of the memory.
pub early_mem_init-IsFreeList :
    (f base_addr : ℕ) (b : BootInfo) (n : ℕ) (h : Heap)
    → Bootable f base_addr b n
    → h.first_mem_init ≡ false
    → (h' : Heap) × (early_mem_init f base_addr b h ≡ some h')
      × IsFreeList h' (page_run (suc n) (first_page base_addr))
early_mem_init-IsFreeList f base_addr b n h ok start =
    let (h1, bounds, base) = init_bounds-heap_base f base_addr b n h ok start in
    let size : (b.mem_upper * 1024 + 2 ^ 64 - h1.heap_base) % 2 ^ 64 ≡ 4096 * suc n =
      omega (arith, ok.memory_end, ok.memory_small, base) in
    let (h2, got, free, same) =
      get_free_pages-IsFreeList n f (record h1 { freelist = 0 }) h1.heap_base refl
        (omega (arith, base)) (omega (arith, ok.kernel_end.0, base))
        (omega (arith, ok.memory_end, ok.memory_small, base)) ok.enough_fuel in
    (
      h2,
      early_mem_init-some f base_addr b h h1 h2 (4096 * suc n) h1.heap_base bounds size got,
      subst (λ p. IsFreeList h2 (page_run (suc n) p)) base free,
    )

page_run-AreBelow : (n mem : ℕ) → mem + 4096 * n ≤ 2 ^ 52 → AreBelow (page_run n mem)
page_run-AreBelow zero mem le = tt
page_run-AreBelow (suc n) mem le = (omega arith, page_run-AreBelow n (mem + 4096) (omega arith))

-- When the first call of `early_mem_init` gets a record whose memory map lies below 2 ^ 32 and is short
-- enough for the fuel, and whose `mem_upper` makes the memory below 2 ^ 52 end a whole number of pages, at
-- least one, behind the first page after the kernel, it ends. Behind it, `setup_mmu` maps the first `size`
-- pages of the address space, at least one and at most 2 ^ 36, and only these, each to itself, when the
-- memory behind the kernel has a page for the root and three for each begun block of 512 pages. (With a
-- memory end that is no whole number of pages away, `early_mem_init` does not end.)
pub early_mem_init-IsIdentity :
    (f base_addr : ℕ) (b : BootInfo) (n : ℕ) (h : Heap) (size : ℕ)
    → Bootable f base_addr b n
    → h.first_mem_init ≡ false
    → 0 < size
    → size ≤ 2 ^ 36
    → 3 * ((size + 511) / 512) ≤ n
    → size < f
    → (h' : Heap) × (early_mem_init f base_addr b h ≡ some h')
      × IsIdentity size (first_page base_addr) (setup_mmu f h' (4096 * size))
early_mem_init-IsIdentity f base_addr b n h size ok start some_pages few room lt =
    let (h', started, free) = early_mem_init-IsFreeList f base_addr b n h ok start in
    let p = first_page base_addr in
    (
      h',
      started,
      setup_mmu-IsIdentity f h' p (page_run n (p + 4096)) size free
          (page_run-AreBelow (suc n) p (omega (arith, ok.memory_end, ok.memory_small))) some_pages
          few (omega (arith, length-page_run n (p + 4096))) lt,
    )
