-- ===== src/Tests/Races.antt =====
-- Calls of `alloc_vpages` on several processors: processor 2 has asked for 3 pages while processor 5 waits.
use hyper_bench.Base.{ℕ, ◌+◌, ◌*◌, ◌%◌, ◌^◌, ◌≡◌, refl, true, false, arith}
use hyper_bench.Base.Memory.{update}
use hyper_bench.Vpages.{
  locking, loading, storing, unlocking, returning, returned, release, System, take_off, call, take,
  load, store, init, Run, here, more,
}
use hyper_bench.Vpages.Account.{critical, asked, vfree_top-asked}
use hyper_bench.Vpages.Race.{same_block}

abbrev called : System
called = record init { place = update init.place 2 (locking 3) }

abbrev both : System
both = record called { place = update called.place 5 (locking 1) }

abbrev taken : System
taken = record both { locked = true; place = update both.place 2 (loading 3) }

abbrev read : System
read = record taken { place = update taken.place 2 (storing 3 0) }

abbrev stored : System
stored = record read { vfree_top = take_off 0 3; place = update read.place 2 unlocking }

abbrev to_stored : Run init stored
to_stored =
    more
      (more (more (more (more here (call 2 3 refl)) (call 5 1 refl)) (take 2 3 refl refl))
        (load 2 3 refl))
      (store 2 3 0 refl)

vfree_top-asked_example :
    ((i j : ℕ) → critical (stored.place i) ≡ true → critical (stored.place j) ≡ true → i ≡ j)
    × ((stored.vfree_top + 4096 * asked to_stored) % 2 ^ 64 ≡ 0)
vfree_top-asked_example = vfree_top-asked to_stored

-- Processor 7 is returned the page below the three of processor 2.
abbrev released : System
released = record stored { locked = false; place = update stored.place 2 returning }

abbrev to_released : Run init released
to_released = more to_stored (release 2 refl)

same_block_example :
    (t : System) × (r : Run init t) × (asked r ≡ 4)
    × ((a : ℕ) × (t.place 2 ≡ returned a) × (t.place 5 ≡ returned a))
same_block_example = same_block 2 5 3 1 (omega arith)
