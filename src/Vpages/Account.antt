-- ===== src/Vpages/Account.antt =====
-- What `alloc_vpages` of x86_64/heap.c keeps while processors call it at once.
use hyper_bench.Base.{ℕ, ◌+◌, ◌*◌, ◌%◌, ◌^◌, ◌≡◌, refl, Bool, true, false, arith}
use hyper_bench.Vpages.{
  Place, loading, storing, unlocking, System, take_off, Step, call, spin, take, load, store,
  release, give, leave, init, Run, here, more,
}

-- Between the end of `spin_lock` and the store of `spin_unlock`.
abbrev pub critical : Place → Bool
critical (loading nr) = true
critical (storing nr top) = true
critical unlocking = true
critical p = false

pub record Inv (s : System) : Type 0 where
  pub owner : (i j : ℕ) → critical (s.place i) ≡ true → critical (s.place j) ≡ true → i ≡ j
  pub free : (i : ℕ) → critical (s.place i) ≡ true → s.locked ≡ true
  pub loaded : (i nr top : ℕ) → s.place i ≡ storing nr top → top ≡ s.vfree_top

init-Inv : Inv init
init-Inv = record { owner = λ i j p q. cc; free = λ i p. cc; loaded = λ i nr top p. cc }

module _ {s : System} (inv : Inv s) where
  Step-owner :
      {t : System}
      → Step s t
      → (i j : ℕ) → critical (t.place i) ≡ true
      → critical (t.place j) ≡ true
      → i ≡ j
  Step-owner (call k nr e) i j p q = ground (arith, inv.owner i j)
  Step-owner (spin k nr e l) i j p q = inv.owner i j p q
  Step-owner (take k nr e l) i j p q = ground (arith, inv.owner i j, inv.free i, inv.free j)
  Step-owner (load k nr e) i j p q = ground (arith, inv.owner i j, inv.owner i k, inv.owner k j)
  Step-owner (store k nr top e) i j p q =
      ground (arith, inv.owner i j, inv.owner i k, inv.owner k j)
  Step-owner (release k e) i j p q = ground (arith, inv.owner i j)
  Step-owner (give k e) i j p q = ground (arith, inv.owner i j)
  Step-owner (leave k a e) i j p q = ground (arith, inv.owner i j)

  Step-free : {t : System} → Step s t → (i : ℕ) → critical (t.place i) ≡ true → t.locked ≡ true
  Step-free (call k nr e) i p = ground (arith, inv.free i)
  Step-free (spin k nr e l) i p = inv.free i p
  Step-free (take k nr e l) i p = refl
  Step-free (load k nr e) i p = ground (arith, inv.free i, inv.free k)
  Step-free (store k nr top e) i p = ground (arith, inv.free i, inv.free k)
  Step-free (release k e) i p = ground (arith, inv.owner i k)
  Step-free (give k e) i p = ground (arith, inv.free i)
  Step-free (leave k a e) i p = ground (arith, inv.free i)

  Step-loaded :
      {t : System} → Step s t → (i nr top : ℕ) → t.place i ≡ storing nr top → top ≡ t.vfree_top
  Step-loaded (call k n e) i nr top p = inv.loaded i nr top (ground arith)
  Step-loaded (spin k n e l) i nr top p = inv.loaded i nr top p
  Step-loaded (take k n e l) i nr top p = inv.loaded i nr top (ground arith)
  Step-loaded (load k n e) i nr top p = grind (arith, inv.loaded i nr top)
  Step-loaded (store k n top' e) i nr top p = absurd (ground (arith, inv.owner i k))
  Step-loaded (release k e) i nr top p = inv.loaded i nr top (ground arith)
  Step-loaded (give k e) i nr top p = inv.loaded i nr top (ground arith)
  Step-loaded (leave k a e) i nr top p = inv.loaded i nr top (ground arith)

  Step-Inv : {t : System} → Step s t → Inv t
  Step-Inv st = record { owner = Step-owner st; free = Step-free st; loaded = Step-loaded st }

pub Run-Inv : {t : System} → Run init t → Inv t
Run-Inv here = init-Inv
Run-Inv (more r st) = Step-Inv (Run-Inv r) st

-- The pages that a step takes off, and those that the run has taken off so far.
abbrev asked_by : {s t : System} → Step s t → ℕ
asked_by (store i nr top e) = nr
asked_by _ = 0

abbrev pub asked : {s t : System} → Run s t → ℕ
asked here = 0
asked (more r st) = asked r + asked_by st

take_off_lem :
    (top nr n : ℕ)
    → (top + 4096 * n) % 2 ^ 64 ≡ 0
    → (take_off top nr + 4096 * (n + nr)) % 2 ^ 64 ≡ 0
take_off_lem top nr n e = omega arith

Step-asked :
    {s t : System}
    → Inv s
    → (n : ℕ) (st : Step s t) → (s.vfree_top + 4096 * n) % 2 ^ 64 ≡ 0
    → (t.vfree_top + 4096 * (n + asked_by st)) % 2 ^ 64 ≡ 0
Step-asked inv n (call k nr e) h = omega (arith, h)
Step-asked inv n (spin k nr e l) h = omega (arith, h)
Step-asked inv n (take k nr e l) h = omega (arith, h)
Step-asked inv n (load k nr e) h = omega (arith, h)
Step-asked inv n (store k nr top e) h = rw (inv.loaded k nr top e) (take_off_lem _ nr n h)
Step-asked inv n (release k e) h = omega (arith, h)
Step-asked inv n (give k e) h = omega (arith, h)
Step-asked inv n (leave k a e) h = omega (arith, h)

Run-asked : {t : System} (r : Run init t) → (t.vfree_top + 4096 * asked r) % 2 ^ 64 ≡ 0
Run-asked here = refl
Run-asked (more r st) = Step-asked (Run-Inv r) (asked r) st (Run-asked r)

-- In every state that the calls reach, no two of them are between taking and leaving the lock, and
-- `vfree_top` stands below the end of the address space by the pages of all the calls that have
-- subtracted theirs: no subtraction is lost.
pub vfree_top-asked :
    {t : System} (r : Run init t)
    → ((i j : ℕ) → critical (t.place i) ≡ true → critical (t.place j) ≡ true → i ≡ j)
      × ((t.vfree_top + 4096 * asked r) % 2 ^ 64 ≡ 0)
vfree_top-asked r = ((Run-Inv r).owner, Run-asked r)
