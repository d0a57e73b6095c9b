-- ===== src/Tests/Tables.antt =====
-- The page tables that four free pages give: a root and one table of each level below it.
use hyper_bench.Base.{ℕ, ◌≡◌, refl, some, List, [], ◌∷◌, arith, if◌then◌else◌, ◌==◌}
use hyper_bench.Heap.{Heap, BootInfo, early_mem_init, heap_alloc_page, install_page, setup_mmu}
use hyper_bench.Heap.FreeList.{IsFreeList}
use hyper_bench.Heap.Mapping.{Maps, install_page-Maps}
use hyper_bench.Heap.Install.{Space}
use hyper_bench.Heap.Setup.{AreBelow, IsIdentity, root-Space, setup_mmu-IsIdentity}
use hyper_bench.Heap.Early.{Bootable, early_mem_init-IsIdentity}
use hyper_bench.Tests.Pages.{empty, two_pages}

abbrev four_pages : Heap
four_pages = record two_pages {
  mem = λ a.
      if a == 8192 then 12288 else if a == 12288 then 16384 else if a == 16384 then 20480 else 0;
  freelist = 8192;
}

abbrev tables : List ℕ
tables = 12288 ∷ 16384 ∷ 20480 ∷ []

four_pages-IsFreeList : IsFreeList four_pages (8192 ∷ tables)
four_pages-IsFreeList = record {
  chain = (refl, (refl, (refl, (refl, refl))));
  pages = (
    refl,
    omega arith,
    (omega arith, (omega arith, (omega arith, tt))),
    (
      refl,
      omega arith,
      (omega arith, (omega arith, tt)),
      (refl, omega arith, (omega arith, tt), (refl, omega arith, tt, tt)),
    ),
  );
}

below : AreBelow (8192 ∷ tables)
below = (omega arith, (omega arith, (omega arith, (omega arith, tt))))

root : (s : Space (heap_alloc_page four_pages).0 3) × (s.level 8192 ≡ 4)
root = root-Space four_pages 8192 tables 3 four_pages-IsFreeList below (omega arith)

install_page-Maps_example :
    Maps
      (heap_alloc_page four_pages).0
      8192
      0
      409600
      40960
      (install_page (heap_alloc_page four_pages).0 8192 40960 409600).0
install_page-Maps_example =
    install_page-Maps (heap_alloc_page four_pages).0 0 8192 40960 409600 root.0 root.1 refl
      (omega arith)

setup_mmu-IsIdentity_example : IsIdentity 1 8192 (setup_mmu 2 four_pages 4096)
setup_mmu-IsIdentity_example =
    setup_mmu-IsIdentity 2 four_pages 8192 tables 1 four_pages-IsFreeList below (omega arith)
      (omega arith) (omega arith) (omega arith)

-- 24 KB of memory, a kernel that ends at 4097, and one entry of the map.
abbrev boot_info : BootInfo
boot_info = record { mem_upper = 24; mmap_length = 24; mmap_addr = 512; entry_length = λ a. 24576 }

boot_info-Bootable : Bootable 5 4097 boot_info 3
boot_info-Bootable = record {
  map_fits = omega arith;
  map_short = omega arith;
  kernel_end = (omega arith, omega arith);
  memory_end = refl;
  memory_small = omega arith;
  enough_fuel = omega arith;
}

early_mem_init-IsIdentity_example :
    (h' : Heap) × (early_mem_init 5 4097 boot_info empty ≡ some h')
    × IsIdentity 1 8192 (setup_mmu 5 h' 4096)
early_mem_init-IsIdentity_example =
    early_mem_init-IsIdentity 5 4097 boot_info 3 empty 1 boot_info-Bootable refl (omega arith)
      (omega arith) (omega arith) (omega arith)
