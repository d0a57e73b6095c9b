-- ===== src/Heap/Identity.antt =====
-- `install_pages` and `setup_mmu` of x86_64/heap.c: the map of the memory onto itself.
use hyper_bench.Base.{
  ℕ, zero, suc, ◌+◌, ◌-◌, ◌*◌, ◌/◌, ◌%◌, ◌^◌, ◌≤◌, ◌<◌, ◌≡◌, ◌≢◌, ◌⊎◌, inl, inr, refl, sym, ap, ◌∙◌,
  true, false, Option, some, arith, if◌then◌else◌, ◌==◌, leb, leb_of_le, leb_of_lt, Bool-cases,
}
use mathlib.Core.Path.{subst}
use native.Mathlib.Decide.{ℕ_discrete}
use hyper_bench.Base.Memory.{Memory}
use hyper_bench.Heap.{
  Heap, page_size, add64, pgdir_offset, slot, is_present, pt_addr, install_page, install_loop,
}
use hyper_bench.Heap.Walk.{translate, leaf}
use hyper_bench.Heap.Install.{Space}
use hyper_bench.Heap.Descend.{weaken}
use hyper_bench.Heap.Mapping.{Maps, install_page-Maps, install_page-Maps_ready}

-- Pages of one block of 512 have their last entries in one table.
leaf_neighbour :
    (k : ℕ) (m : Memory) (p v v' x : ℕ)
    → ((j : ℕ) → j < k → pgdir_offset v (j + 2) ≡ pgdir_offset v' (j + 2))
    → leaf k m p v ≡ some x
    → (y : ℕ) × (leaf k m p v' ≡ some y)
leaf_neighbour zero m p v v' x same e = (slot p v' 1, refl)
leaf_neighbour (suc k) m p v v' x same e = elim (Bool-cases (is_present (m (slot p v (k + 2))))) [
  | inl h ↦
      let o : pgdir_offset v (k + 2) ≡ pgdir_offset v' (k + 2) = same k (omega arith) in
      let s : slot p v (k + 2) ≡ slot p v' (k + 2) = ap (λ (t : ℕ). p + 8 * t) o in
      let h' : is_present (m (slot p v' (k + 2))) ≡ true = rw s at h in
      let below : leaf k m (pt_addr (m (slot p v' (k + 2)))) v ≡ some x = rw s at (rw h at e) in
      rw h' (
        leaf_neighbour k m (pt_addr (m (slot p v' (k + 2)))) v v' x (λ j lt. same j (omega arith))
          below)
  | inr h ↦ absurd (let f = rw h at e in cc)
]

-- The pages that mapping `left` pages from page `a` on takes for tables at most: three for each block
-- of 512 pages that begins.
pub need : ℕ → ℕ → ℕ
need a zero = 0
need a (suc left) = (if a % 512 == 0 then 3 else 0) + need (a + 1) left

pub need-blocks : (left a : ℕ) → need a left ≡ 3 * ((a + left + 511) / 512 - (a + 511) / 512)
unfolding need
need-blocks zero a = omega arith
need-blocks (suc left) a = ground (arith, need-blocks left (a + 1))

-- The tables for page `a` exist, unless it is the first of its block.
abbrev IsReady : Heap → ℕ → ℕ → Type 0
IsReady h cr3 a = (a % 512 ≡ 0) ⊎ ((x : ℕ) × (leaf 3 h.mem cr3 (4096 * a) ≡ some x))

-- The pages from `a` on, `left` of them, are mapped to themselves, and the others are as before.
pub record MapsRun (h : Heap) (cr3 n a left : ℕ) (r : Option Heap) : Type 0 where
  pub out : Heap
  pub returns : r ≡ some out
  pub space : Space out n
  pub root : space.level cr3 ≡ 4
  pub inside : (i : ℕ) → a ≤ i → i < a + left → translate 3 out.mem cr3 (4096 * i) ≡ some (4096 * i)
  pub outside :
      (i : ℕ)
      → i < 2 ^ 36
      → (i < a) ⊎ (a + left ≤ i)
      → translate 3 out.mem cr3 (4096 * i) ≡ translate 3 h.mem cr3 (4096 * i)

one_page :
    (h : Heap) (n cr3 a left : ℕ) (s : Space h (n + need a (suc left)))
    → s.level cr3 ≡ 4
    → a < 2 ^ 36
    → IsReady h cr3 a
    → Maps h cr3
        (n + need (a + 1) left)
        (4096 * a)
        (4096 * a)
        (install_page h cr3 (4096 * a) (4096 * a)).0
unfolding need
one_page h n cr3 a left s root lt (inl first) =
    install_page-Maps h (n + need (a + 1) left) cr3 (4096 * a) (4096 * a)
      (weaken h (n + need a (suc left)) (n + need (a + 1) left + 3) s (ground arith)) root
      (omega arith) (omega arith)
one_page h n cr3 a left s root lt (inr (x, e)) =
    install_page-Maps_ready h (n + need (a + 1) left) cr3 (4096 * a) (4096 * a) x
      (weaken h (n + need a (suc left)) (n + need (a + 1) left) s (ground arith)) root (omega arith)
      (omega arith) e

same_block :
    (a : ℕ)
    → (a + 1) % 512 ≢ 0
    → (j : ℕ) → j < 3
    → pgdir_offset (4096 * a) (j + 2) ≡ pgdir_offset (4096 * (a + 1)) (j + 2)
same_block a ne zero lt = omega arith
same_block a ne (suc zero) lt = omega arith
same_block a ne (suc (suc zero)) lt = omega arith
same_block a ne (suc (suc (suc j))) lt = absurd (omega arith)

next-IsReady :
    (h : Heap) (n cr3 a : ℕ) (h' : Heap)
    → Maps h cr3 n (4096 * a) (4096 * a) h'
    → IsReady h' cr3 (a + 1)
next-IsReady h n cr3 a h' w = elim (ℕ_discrete ((a + 1) % 512) 0) [
  | yes e ↦ inl e
  | no ne ↦
      (let (x, e) = w.ready in
        inr (leaf_neighbour 3 h'.mem cr3 (4096 * a) (4096 * (a + 1)) x (same_block a ne) e))
]

-- One page more in front.
MapsRun-suc :
    (h h' : Heap) (cr3 n k a left : ℕ) (r : Option Heap)
    → a + suc left ≤ 2 ^ 36
    → Maps h cr3 k (4096 * a) (4096 * a) h'
    → MapsRun h' cr3 n (a + 1) left r
    → MapsRun h cr3 n a (suc left) r
MapsRun-suc h h' cr3 n k a left r le w run = record {
  out = run.out;
  returns = run.returns;
  space = run.space;
  root = run.root;
  inside = λ i lo hi. elim (ℕ_discrete i a) [
    | yes e ↦ rw e (run.outside a (omega arith) (inl (omega arith)) ∙ w.maps)
    | no ne ↦ run.inside i (omega arith) (omega arith)
  ];
  outside = λ i small o. run.outside i small (omega arith) ∙ w.others (4096 * i) (omega arith);
}

loop_more :
    (f : ℕ) (h : Heap) (cr3 a left : ℕ)
    → a + suc left ≤ 2 ^ 36
    → install_loop (suc f) h cr3 (4096 * a) (4096 * a) (4096 * (a + suc left))
      ≡ install_loop f
          (install_page h cr3 (4096 * a) (4096 * a)).0
          cr3
          (4096 * (a + 1))
          (4096 * (a + 1))
          (4096 * (a + 1 + left))
unfolding install_loop
loop_more f h cr3 a left le =
    let e : add64 (4096 * a) page_size ≡ 4096 * (a + 1) = omega arith in
    let t : leb (add64 (4096 * a) page_size) (4096 * (a + suc left)) ≡ true =
      leb_of_le (add64 (4096 * a) page_size) (4096 * (a + suc left)) (omega arith) in
    let d : 4096 * (a + suc left) ≡ 4096 * (a + 1 + left) = omega arith in
    rw (t, install_loop, e, d) refl

loop_done :
    (f : ℕ) (h : Heap) (cr3 a : ℕ)
    → a ≤ 2 ^ 36
    → install_loop (suc f) h cr3 (4096 * a) (4096 * a) (4096 * (a + 0)) ≡ some h
unfolding install_loop
loop_done f h cr3 a le =
    let t : leb (add64 (4096 * a) page_size) (4096 * (a + 0)) ≡ false =
      leb_of_lt (add64 (4096 * a) page_size) (4096 * (a + 0)) (omega arith) in
    rw (t, install_loop) refl

pub install_loop-MapsRun :
    (left f : ℕ) (h : Heap) (n cr3 a : ℕ) (s : Space h (n + need a left))
    → s.level cr3 ≡ 4
    → a + left ≤ 2 ^ 36
    → IsReady h cr3 a
    → left < f
    → MapsRun h cr3 n a left (install_loop f h cr3 (4096 * a) (4096 * a) (4096 * (a + left)))
install_loop-MapsRun left zero h n cr3 a s root le ready lt = absurd (omega arith)
install_loop-MapsRun zero (suc f) h n cr3 a s root le ready lt = record {
  out = h;
  returns = loop_done f h cr3 a (omega arith);
  space = weaken h (n + need a 0) n s (omega arith);
  root = root;
  inside = λ i lo hi. absurd (omega arith);
  outside = λ i small o. refl;
}
install_loop-MapsRun (suc left) (suc f) h n cr3 a s root le ready lt =
    let w = one_page h n cr3 a left s root (omega arith) ready in
    let h' : Heap = (install_page h cr3 (4096 * a) (4096 * a)).0 in
    let run =
      install_loop-MapsRun left f h' n cr3 (a + 1) w.space w.root (omega arith)
        (next-IsReady h (n + need (a + 1) left) cr3 a h' w) (omega arith) in
    subst (MapsRun h cr3 n a (suc left)) (sym (loop_more f h cr3 a left le))
      (MapsRun-suc h h' cr3 n (n + need (a + 1) left) a left _ le w run)
