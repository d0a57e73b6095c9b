-- ===== src/Heap/Mapping.antt =====
-- `install_page` of x86_64/heap.c against the processor's walk.
use hyper_bench.Base.{
  ℕ, ◌+◌, ◌/◌, ◌%◌, ◌^◌, ◌≤◌, ◌<◌, ◌≡◌, ◌≢◌, refl, sym, ap, ◌∙◌, true, none, some, arith,
  if◌then◌else◌,
}
use hyper_bench.Base.Memory.{Memory, poke, poke_self, poke_ne}
use hyper_bench.Base.Bits.{bit_or_seven}
use hyper_bench.Heap.{
  Heap, pgdir_offset, slot, is_present, pt_addr, walk_loop, install_pte, install_page,
}
use hyper_bench.Heap.Walk.{translate, leaf, pgdir_offset_lt, page_of, page_of-slot, same_offset}
use hyper_bench.Heap.Entry.{entry-AreTables, translate-other, translate-here, leaf-entry}
use hyper_bench.Heap.Install.{Space, NotIn-AreFree, poke-IsFreeList}
use hyper_bench.Heap.Descend.{Walked, walk_loop-Walked, walk_loop-Walked_ready}

-- The four offsets make the page number.
offsets_cover :
    (a b : ℕ)
    → ((j : ℕ) → j ≤ 3 → pgdir_offset a (j + 1) ≡ pgdir_offset b (j + 1))
    → a / 4096 % 2 ^ 36 ≡ b / 4096 % 2 ^ 36
offsets_cover a b h =
    omega (arith, h 0 (omega arith), h 1 (omega arith), h 2 (omega arith), h 3 (omega arith))

-- The entry of a page, read back.
entry_value :
    (e phys : ℕ)
    → e ≡ phys + 7
    → phys % 4096 ≡ 0
    → phys < 2 ^ 52
    → (if is_present e then some (pt_addr e) else none) ≡ some phys
entry_value e phys q al small =
    let here : is_present e ≡ true = rw q (ground arith) in
    let addr : pt_addr e ≡ phys = rw q (omega arith) in rw (here, addr) refl

-- What holds behind the mapping of `virt` to `phys`, with `n` free pages left at least.
pub record Maps (h : Heap) (cr3 n virt phys : ℕ) (h' : Heap) : Type 0 where
  pub space : Space h' n
  pub root : space.level cr3 ≡ 4
  pub ready : (x : ℕ) × (leaf 3 h'.mem cr3 virt ≡ some x)
  pub maps : translate 3 h'.mem cr3 virt ≡ some phys
  pub others :
      (v : ℕ)
      → v / 4096 % 2 ^ 36 ≢ virt / 4096 % 2 ^ 36
      → translate 3 h'.mem cr3 v ≡ translate 3 h.mem cr3 v

-- The write of the last entry behind the walk.
entry-Maps :
    (h : Heap) (n cr3 virt phys : ℕ) (level : ℕ → ℕ) (r : Heap × ℕ)
    → level cr3 ≡ 4
    → phys % 4096 ≡ 0
    → phys < 2 ^ 52
    → Walked h level n 3 cr3 virt r
    → Maps h cr3 n virt phys (record r.0 { mem = poke r.0.mem (slot r.1 virt 1) (phys + 7) })
entry-Maps h n cr3 virt phys level r root al small w =
    let s = w.space in
    let pt : ℕ = r.1 in
    let x : ℕ = slot pt virt 1 in
    let o = pgdir_offset_lt virt 1 in
    let ok = s.tables.aligned pt (omega (arith, w.last)) in
    let last : s.level (page_of x) ≡ 1 =
      ap s.level (page_of-slot pt (pgdir_offset virt 1) ok.0 o) ∙ w.last in
    let m' : Memory = poke r.0.mem x (phys + 7) in
    let top : s.level cr3 ≡ 4 = w.keeps cr3 (omega arith) ∙ root in
    let same = poke_ne r.0.mem x (phys + 7) in
    record {
      space = record {
        level = s.level;
        up = s.up;
        pages = s.pages;
        tables = entry-AreTables r.0.mem m' s.level s.up s.tables x last same;
        free =
            poke-IsFreeList r.0 s.pages pt x (phys + 7) s.free ok.0 (omega arith) (omega arith)
              (NotIn-AreFree s.level pt s.pages (omega (arith, w.last)) s.outside);
        outside = s.outside;
        room = s.room;
      };
      root = top;
      ready =
          (x, leaf-entry r.0.mem m' s.level s.up s.tables x last same 3 cr3 virt top ∙ w.arrives);
      maps =
          translate-here r.0.mem m' s.level s.up s.tables x last same 3 cr3 virt top w.arrives
          ∙ entry_value (m' x) phys (poke_self r.0.mem x (phys + 7)) al small;
      others = λ v ne.
          translate-other r.0.mem m' s.level s.up s.tables x last same 3 cr3 v top (λ e. ne (
            sym (
              offsets_cover virt v
                (same_offset r.0.mem s.level s.up s.tables 3 cr3 virt v x top w.arrives e))))
          ∙ w.same 3 cr3 v root;
    }

-- `install_page` maps the page of its virtual address to the page at its physical address, and no
-- other page's translation changes. It takes at most three pages from the heap for new tables, and
-- the tables stay well formed.
pub install_page-Maps :
    (h : Heap) (n cr3 phys virt : ℕ) (s : Space h (n + 3))
    → s.level cr3 ≡ 4
    → phys % 4096 ≡ 0
    → phys < 2 ^ 52
    → Maps h cr3 n virt phys (install_page h cr3 phys virt).0
unfolding install_page install_pte
install_page-Maps h n cr3 phys virt s root al small = rw (bit_or_seven phys (omega arith)) (
    entry-Maps h n cr3 virt phys s.level (walk_loop 3 4 h cr3 virt 0) root al small
      (walk_loop-Walked 3 n virt h cr3 s root))

-- Where the tables for the page exist, `install_page` takes no page from the heap.
pub install_page-Maps_ready :
    (h : Heap) (n cr3 phys virt x : ℕ) (s : Space h n)
    → s.level cr3 ≡ 4
    → phys % 4096 ≡ 0
    → phys < 2 ^ 52
    → leaf 3 h.mem cr3 virt ≡ some x
    → Maps h cr3 n virt phys (install_page h cr3 phys virt).0
unfolding install_page install_pte
install_page-Maps_ready h n cr3 phys virt x s root al small ready =
    rw (bit_or_seven phys (omega arith)) (
      entry-Maps h n cr3 virt phys s.level (walk_loop 3 4 h cr3 virt 0) root al small
        (walk_loop-Walked_ready 3 n virt x h cr3 s root ready))
