-- ===== src/Vpages/Race.antt =====
-- What calls of `alloc_vpages` of x86_64/heap.c return: a call that no other one interrupts, and two that
-- interleave.
use hyper_bench.Base.{ℕ, ◌+◌, ◌≡◌, ◌≢◌, refl, ◌∙◌, true, false, arith}
use hyper_bench.Base.Memory.{update}
use hyper_bench.Vpages.{
  Place, outside, locking, loading, storing, unlocking, returning, returned, System, take_off, call,
  take, load, store, release, give, init, Run, here, more,
}
use hyper_bench.Vpages.Account.{asked}

moved : (f : ℕ → Place) (i : ℕ) (p : Place) → update f i p i ≡ p
moved f i p = ground arith

kept : (f : ℕ → Place) (i : ℕ) (p : Place) (j : ℕ) → j ≢ i → update f i p j ≡ f j
kept f i p j ne = ground arith

-- A state in which `i` has come to stand at `p`, and nothing else has changed.
abbrev at_place : System → ℕ → Place → System
at_place s i p = record s { place = update s.place i p }

-- A processor that takes off its pages without being interrupted, up to its return.
abbrev Reserves : System → ℕ → ℕ → System → Type 0
Reserves s i nr t =
    (t.place i ≡ returning)
    × (t.vfree_top ≡ take_off s.vfree_top nr)
    × (t.locked ≡ false)
    × ((j : ℕ) → j ≢ i → t.place j ≡ s.place j)

reserve :
    {z : System} (s : System) (r : Run z s) (i nr : ℕ)
    → s.place i ≡ outside
    → s.locked ≡ false
    → (t : System) × (q : Run z t) × (asked q ≡ asked r + nr) × Reserves s i nr t
reserve s r i nr e l =
    let s1 = at_place s i (locking nr) in
    let s2 : System = record s1 { locked = true; place = update s1.place i (loading nr) } in
    let s3 = at_place s2 i (storing nr s.vfree_top) in
    let s4 : System = record s3 {
      vfree_top = take_off s.vfree_top nr;
      place = update s3.place i unlocking;
    } in
    let s5 : System = record s4 { locked = false; place = update s4.place i returning } in
    let r2 = more (more r (call i nr e)) (take i nr (moved s.place i (locking nr)) l) in
    let r3 = more r2 (load i nr (moved s1.place i (loading nr))) in
    let r4 = more r3 (store i nr s.vfree_top (moved s2.place i (storing nr s.vfree_top))) in
    let r5 = more r4 (release i (moved s3.place i unlocking)) in
    let n : asked r5 ≡ asked r + nr = omega arith in
    (s5, r5, n, (moved s4.place i returning, refl, refl, λ j ne. ground arith))

-- Its return.
give_lem :
    {z : System} (s : System) (r : Run z s) (i : ℕ)
    → s.place i ≡ returning
    → (t : System) × (q : Run z t) × (asked q ≡ asked r)
      × ((t.place i ≡ returned s.vfree_top)
          × (t.vfree_top ≡ s.vfree_top)
          × (t.locked ≡ s.locked)
          × ((j : ℕ) → j ≢ i → t.place j ≡ s.place j))
give_lem s r i e = (
  at_place s i (returned s.vfree_top),
  more r (give i e),
  omega arith,
  (moved s.place i (returned s.vfree_top), refl, refl, kept s.place i (returned s.vfree_top)),
)

-- Two processors that call `alloc_vpages` for any numbers of pages can both be returned the same address,
-- although the pages of both have been taken off.
pub same_block :
    (i j n k : ℕ)
    → i ≢ j
    → (t : System) × (r : Run init t) × (asked r ≡ n + k)
      × ((a : ℕ) × (t.place i ≡ returned a) × (t.place j ≡ returned a))
same_block i j n k ne =
    let (s1, r1, n1, (p1, top1, free1, others1)) = reserve init here i n refl refl in
    let (s2, r2, n2, (p2, top2, free2, others2)) =
      reserve s1 r1 j k (others1 j (ground arith)) free1 in
    let (s3, r3, n3, (p3, top3, free3, others3)) = give_lem s2 r2 i (others2 i ne ∙ p1) in
    let (s4, r4, n4, (p4, top4, free4, others4)) =
      give_lem s3 r3 j (others3 j (ground arith) ∙ p2) in
    (s4, r4, omega (arith, n1, n2, n3, n4), (s2.vfree_top, others4 i ne ∙ p3, rw top3 at p4))
