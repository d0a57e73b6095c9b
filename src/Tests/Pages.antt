-- ===== src/Tests/Pages.antt =====
-- The heap on the two pages at 8192 and 12288.
use hyper_bench.Base.{
  ℕ, ◌≤◌, ◌<◌, ◌^◌, ◌≡◌, ◌⊎◌, refl, List, [], ◌∷◌, none, some, arith, false, ◌==◌, if◌then◌else◌,
}
use hyper_bench.Heap.{Heap, get_free_pages, heap_alloc_page}
use hyper_bench.Heap.FreeList.{IsFreeList, get_free_pages-IsFreeList, get_free_pages-none}
use hyper_bench.Heap.Alloc.{heap_alloc_page-IsFreeList}

abbrev pub empty : Heap
empty = record {
  mem = λ a. 7;
  freelist = 0;
  heap_base = 0;
  heap_end = 0;
  first_mem_init = false;
  start_cr3 = 0;
  cr3 = 0;
  vfree_top = 2 ^ 40;
}

abbrev pub two_pages : Heap
two_pages = record empty {
  mem = λ a. if a == 8192 then 12288 else if a == 12288 then 0 else 7;
  freelist = 8192;
}

abbrev pages : List ℕ
pages = 8192 ∷ 12288 ∷ []

two_pages-IsFreeList : IsFreeList two_pages pages
two_pages-IsFreeList = record {
  chain = (refl, (refl, refl));
  pages = (refl, omega arith, (omega arith, tt), (refl, omega arith, tt, tt));
}

get_free_pages-IsFreeList_example :
    (h' : Heap) × (get_free_pages 2 empty 8192 8192 ≡ some (h', 8192))
    × IsFreeList h' pages
    × ((a : ℕ) → (a < 8192) ⊎ (16384 ≤ a) → h'.mem a ≡ 7)
get_free_pages-IsFreeList_example =
    get_free_pages-IsFreeList 1 2 empty 8192 refl refl (omega arith) (omega arith) (omega arith)

get_free_pages-none_example : get_free_pages 1000 empty 8192 5000 ≡ none
get_free_pages-none_example = get_free_pages-none 1000 empty 8192 5000 (omega arith)

heap_alloc_page-IsFreeList_example :
    ((heap_alloc_page two_pages).1 ≡ 8192)
    × IsFreeList (heap_alloc_page two_pages).0 (12288 ∷ [])
    × ((a : ℕ) → 8192 ≤ a → a < 12288 → (heap_alloc_page two_pages).0.mem a ≡ 0)
    × ((a : ℕ) → (a < 8192) ⊎ (12288 ≤ a) → (heap_alloc_page two_pages).0.mem a ≡ two_pages.mem a)
heap_alloc_page-IsFreeList_example =
    heap_alloc_page-IsFreeList two_pages 8192 (12288 ∷ []) two_pages-IsFreeList
