-- ===== src/Vpages.antt =====
-- x86_64/heap.c: `alloc_vpages` called on several processors, with include/spinlock.h. They run
-- interleaved, one access to `lock` or `vfree_top` at a time.
pub mod Account
pub mod Race
use hyper_bench.Base.{ℕ, ◌+◌, ◌-◌, ◌*◌, ◌%◌, ◌^◌, ◌≡◌, Bool, true, false}
use hyper_bench.Base.Memory.{update}
use hyper_bench.Heap.{page_size}

-- Where a processor stands in `alloc_vpages`, with the argument `nr`.
pub data Place : Type 0 where
  outside : Place
  locking : ℕ → Place  -- `spin_lock`
  loading : ℕ → Place  -- before the load of `vfree_top -= PAGE_SIZE * nr`
  storing : ℕ → ℕ → Place  -- before its store, with what was loaded
  unlocking : Place  -- `spin_unlock`
  returning : Place  -- before the load of `return vfree_top`
  returned : ℕ → Place  -- behind the call, with its result

pub record System : Type 0 where
  pub vfree_top : ℕ
  pub locked : Bool
  pub place : ℕ → Place

-- `top - PAGE_SIZE * nr` on 64 bits.
abbrev pub take_off : ℕ → ℕ → ℕ
take_off top nr = (top + 2 ^ 64 - page_size * nr % 2 ^ 64) % 2 ^ 64

pub data Step (s : System) : System → Type 0 where
  call :
      (i nr : ℕ) → s.place i ≡ outside → Step s (record s { place = update s.place i (locking nr) })
  spin : (i nr : ℕ) → s.place i ≡ locking nr → s.locked ≡ true → Step s s
  take :
      (i nr : ℕ)
      → s.place i ≡ locking nr
      → s.locked ≡ false
      → Step s (record s { locked = true; place = update s.place i (loading nr) })
  load :
      (i nr : ℕ)
      → s.place i ≡ loading nr
      → Step s (record s { place = update s.place i (storing nr s.vfree_top) })
  store :
      (i nr top : ℕ)
      → s.place i ≡ storing nr top
      → Step s (record s { vfree_top = take_off top nr; place = update s.place i unlocking })
  release :
      (i : ℕ)
      → s.place i ≡ unlocking
      → Step s (record s { locked = false; place = update s.place i returning })
  give :
      (i : ℕ)
      → s.place i ≡ returning
      → Step s (record s { place = update s.place i (returned s.vfree_top) })
  leave :
      (i a : ℕ) → s.place i ≡ returned a → Step s (record s { place = update s.place i outside })

-- The static variables are 0 when the processors start.
abbrev pub init : System
init = record { vfree_top = 0; locked = false; place = λ i. outside }

-- A run from one state to another.
pub data Run (s : System) : System → Type 0 where
  here : Run s s
  more : {t u : System} → Run s t → Step t u → Run s u
