-- ===== src/Base/Memory.antt =====
-- Flat memory: a cell for each address. The same functions serve byte memory, indexed by byte
-- addresses, and the memory of 64-bit words, where only the address of a word's first byte is used.
use Prim.Native.Nat.{ℕ}
use mathlib.Core.Path.{◌≡◌}
use mathlib.Core.Logic.{◌≢◌}
use native.Mathlib.Omega.{arith}
use package.hyper_bench.Base.Tests.{◌==◌, if◌then◌else◌}

abbrev pub Memory : Type 0
Memory = ℕ → ℕ

-- `*a = v`
unfoldable pub poke : Memory → ℕ → ℕ → Memory
poke m a v b = if b == a then v else m b

pub poke_self : (m : Memory) (a v : ℕ) → poke m a v a ≡ v
unfolding poke
poke_self m a v = ground arith

pub poke_ne : (m : Memory) (a v b : ℕ) → b ≢ a → poke m a v b ≡ m b
unfolding poke
poke_ne m a v b h = ground arith

-- A family with another value at one index.
abbrev pub update {ℓ} : {A : Type ℓ} → (ℕ → A) → ℕ → A → ℕ → A
update f i a j = if j == i then a else f j
