-- ===== src/Heap.antt =====
-- x86_64/heap.c: the free list of pages, the page tables and the virtual page allocator. `Memory`
-- holds 64-bit words, each at the address of its first byte. Masks are written as arithmetic:
-- `x & 511` as `x % 512`, `x & -PAGE_SIZE` as `x / 4096 * 4096`.
pub mod FreeList
pub mod Alloc
pub mod Walk
pub mod Grow
pub mod Entry
pub mod Install
pub mod Descend
pub mod Mapping
pub mod Identity
pub mod Setup
pub mod Early
use hyper_bench.Base.{
  ℕ, zero, suc, ◌+◌, ◌-◌, ◌*◌, ◌/◌, ◌%◌, ◌^◌, bit_or, Bool, true, false, Option, none, some, ◌==◌,
  leb, ltb, ◌&&◌, if◌then◌else◌, ◌>>=◌,
}
use hyper_bench.Base.Memory.{Memory, poke}

abbrev pub page_size : ℕ
page_size = 4096

-- Addition on 64-bit pointers.
abbrev pub add64 : ℕ → ℕ → ℕ
add64 a b = (a + b) % 2 ^ 64

-- The file's static variables, the memory, and the register `cr3`.
pub record Heap : Type 0 where
  pub mem : Memory
  pub freelist : ℕ
  pub heap_base : ℕ
  pub heap_end : ℕ
  pub first_mem_init : Bool
  pub start_cr3 : ℕ
  pub cr3 : ℕ
  pub vfree_top : ℕ

-- The fields of `struct mbi_bootinfo` that are read. `entry_length a` is the field `length` of the
-- `mmap_entry_t` at `a`.
pub record BootInfo : Type 0 where
  pub mem_upper : ℕ
  pub mmap_length : ℕ
  pub mmap_addr : ℕ
  pub entry_length : ℕ → ℕ

-- `sizeof(mmap_entry_t)`, a packed struct
abbrev pub entry_size : ℕ
entry_size = 24

pub map_loop : ℕ → BootInfo → ℕ → ℕ → ℕ → Option ℕ
map_loop zero b mmap end_addr heap_end = none
map_loop (suc f) b mmap end_addr heap_end = elim (ltb mmap end_addr) [
  | true ↦ map_loop f b (mmap + entry_size) end_addr (add64 heap_end (b.entry_length mmap))
  | false ↦ some heap_end
]

-- The sum `mmap_addr + mmap_length` is one of `uint32_t`.
pub get_memory_map : ℕ → BootInfo → Heap → Option Heap
unfolding map_loop
get_memory_map f b h = do
  heap_end ← map_loop f b b.mmap_addr ((b.mmap_addr + b.mmap_length) % 2 ^ 32) 0
  some (record h { heap_end = heap_end })

-- `while (mem + PAGE_SIZE != end)`, and the write behind it
pub link_loop : ℕ → Memory → ℕ → ℕ → ℕ → Option Memory
link_loop zero m mem end old = none
link_loop (suc f) m mem end old = elim (add64 mem page_size == end) [
  | true ↦ some (poke m mem old)
  | false ↦ link_loop f (poke m mem (add64 mem page_size)) (add64 mem page_size) end old
]

pub get_free_pages : ℕ → Heap → ℕ → ℕ → Option (Heap × ℕ)
get_free_pages f h mem size = elim (size == 0) [
  | true ↦ some (h, 0)
  | false ↦ do
    m ← link_loop f h.mem mem (add64 mem size) h.freelist
    some (record h { mem = m; freelist = mem }, mem)
]

pub page_down : ℕ → ℕ
page_down a = a / page_size * page_size

-- The first call's part of `early_mem_init`.
pub init_bounds : ℕ → ℕ → BootInfo → Heap → Option Heap
unfolding get_memory_map page_down
init_bounds f base_addr b h = elim h.first_mem_init [
  | true ↦ some h
  | false ↦ do
    h' ← get_memory_map f b (record h { first_mem_init = true })
    some (record h' {
      heap_base = page_down (add64 base_addr (page_size - 1));
      heap_end = page_down h'.heap_end;
    })
]

pub early_mem_init : ℕ → ℕ → BootInfo → Heap → Option Heap
unfolding init_bounds
early_mem_init f base_addr b h = do
  let end_of_memory = b.mem_upper * 1024
  h' ← init_bounds f base_addr b h
  (h'', p) ←
      get_free_pages f (record h' { freelist = 0 }) h'.heap_base
        ((end_of_memory + 2 ^ 64 - h'.heap_base) % 2 ^ 64)
  some h''

-- `__fast_zero_page` and `memset(page, 0, PAGE_SIZE)`
unfoldable pub zero_page : Memory → ℕ → Memory
zero_page m page a = if leb page a && ltb a (page + page_size) then 0 else m a

-- The page, or 0 where the free list is empty.
pub heap_alloc_page : Heap → Heap × ℕ
heap_alloc_page h =
    if h.freelist == 0
    then (h, 0)
    else (record h { freelist = h.mem h.freelist; mem = zero_page h.mem h.freelist }, h.freelist)

-- PGDIR_BITS and PGDIR_OFFSET
abbrev pub pgdir_bits : ℕ → ℕ
pgdir_bits lvl = (lvl - 1) * 9 + 12

abbrev pub pgdir_offset : ℕ → ℕ → ℕ
pgdir_offset va lvl = va / 2 ^ pgdir_bits lvl % 512

-- The address of `pt[offset]` for the table `pt` at a level.
abbrev pub slot : ℕ → ℕ → ℕ → ℕ
slot pt virt level = pt + 8 * pgdir_offset virt level

-- `e & PT_PRESENT_MASK` and `e & PT_ADDR_MASK`, bits 12 to 51
abbrev pub is_present : ℕ → Bool
is_present e = e % 2 == 1

abbrev pub pt_addr : ℕ → ℕ
pt_addr e = e % 2 ^ 52 / 4096 * 4096

-- PT_PRESENT_MASK | PT_WRITABLE_MASK | PT_USER_MASK
abbrev pub pt_flags : ℕ
pt_flags = 7

-- The new table at a slot that is not present: the page that the caller gave, or a heap page.
pub new_table : Heap → ℕ → Heap × ℕ
unfolding heap_alloc_page
new_table h pt_page = if pt_page == 0 then heap_alloc_page h else (h, pt_page)

pub install_table : Heap → ℕ → ℕ → Heap
unfolding new_table zero_page
install_table h at_slot pt_page =
    let (h', new_pt) = new_table h pt_page in
    record h' { mem = poke (zero_page h'.mem new_pt) at_slot (bit_or new_pt pt_flags) }

-- The loop from `level` down through `left` levels; the table that it ends at.
pub walk_loop : ℕ → ℕ → Heap → ℕ → ℕ → ℕ → Heap × ℕ
unfolding install_table
walk_loop zero level h pt virt pt_page = (h, pt)
walk_loop (suc left) level h pt virt pt_page =
    let present = is_present (h.mem (slot pt virt level)) in
    let h' = if present then h else install_table h (slot pt virt level) pt_page in
    walk_loop left (level - 1) h' (pt_addr (h'.mem (slot pt virt level))) virt
      (if present then pt_page else 0)

-- The address of the entry that was written is the result.
pub install_pte : Heap → ℕ → ℕ → ℕ → ℕ → ℕ → Heap × ℕ
unfolding walk_loop
install_pte h cr3 pte_level virt pte pt_page =
    let (h', pt) = walk_loop (4 - pte_level) 4 h cr3 virt pt_page in
    (record h' { mem = poke h'.mem (slot pt virt pte_level) pte }, slot pt virt pte_level)

-- With PT_PAGE_SIZE_MASK, bit 7.
pub install_large_page : Heap → ℕ → ℕ → ℕ → Heap × ℕ
unfolding install_pte
install_large_page h cr3 phys virt = install_pte h cr3 2 virt (bit_or phys (pt_flags + 128)) 0

pub install_page : Heap → ℕ → ℕ → ℕ → Heap × ℕ
unfolding install_pte
install_page h cr3 phys virt = install_pte h cr3 1 virt (bit_or phys pt_flags) 0

-- `while (phys + PAGE_SIZE <= max)`
pub install_loop : ℕ → Heap → ℕ → ℕ → ℕ → ℕ → Option Heap
install_loop zero h cr3 phys virt max = none
install_loop (suc f) h cr3 phys virt max = elim (leb (add64 phys page_size) max) [
  | true ↦
      install_loop f (install_page h cr3 phys virt).0 cr3 (add64 phys page_size)
        (add64 virt page_size) max
  | false ↦ some h
]

pub install_pages : ℕ → Heap → ℕ → ℕ → ℕ → ℕ → Option Heap
unfolding install_loop
install_pages f h cr3 phys len virt = install_loop f h cr3 phys virt (add64 len phys)

pub setup_mmu : ℕ → Heap → ℕ → Option (Heap × ℕ)
unfolding install_pages
setup_mmu f h end_of_memory = do
  let (h1, cr3) = heap_alloc_page h
  h2 ← install_pages f h1 cr3 0 (if end_of_memory == 0 then 2 ^ 32 else end_of_memory) 0
  some (record h2 { start_cr3 = h2.cr3; cr3 = cr3 }, cr3)

pub switch_to_start_cr3 : Heap → Heap
switch_to_start_cr3 h = record h { cr3 = h.start_cr3 }

-- `vfree_top` starts at 0, and the subtraction wraps.
pub alloc_vpages : Heap → ℕ → Heap × ℕ
alloc_vpages h nr =
    let top = (h.vfree_top + 2 ^ 64 - page_size * nr % 2 ^ 64) % 2 ^ 64 in
    (record h { vfree_top = top }, top)
