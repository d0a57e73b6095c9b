-- ===== src/Boot/Start.antt =====
-- x86_64/main.c: which processors the boot processor starts.
use hyper_bench.Base.{
  ℕ, ◌+◌, ◌≤◌, ◌<◌, ◌≡◌, refl, List, [], ◌∷◌, length, arith, some, Bool-cases, inl, inr, ◌==◌,
  if◌then◌else◌,
}
use hyper_bench.Boot.{Call, lapicstartap, sipi_entry_mov, wait_started, start_loop, startothers}

-- The number of readings that find the flag set.
abbrev pub set_count : List ℕ → ℕ
set_count [] = 0
set_count (r ∷ rest) = (if r == 0 then 0 else 1) + set_count rest

wait_started-ends :
    (readings : List ℕ) (n : ℕ)
    → n < set_count readings
    → (rest : List ℕ) × (wait_started readings ≡ some rest) × (n ≤ set_count rest)
unfolding wait_started
wait_started-ends [] n lt = absurd (omega arith)
wait_started-ends (r ∷ rest) n lt = elim (Bool-cases (r == 0)) [
  | inl e ↦
      let (left, h, le) = wait_started-ends rest n (ground arith) in
      (left, rw (e, wait_started) h, le)
  | inr e ↦ (rest, rw (e, wait_started) refl, ground arith)
]

-- The processors from index `i` on, all but the one with the index `me`, in order.
abbrev pub others : ℕ → ℕ → List ℕ → List Call
others me i [] = []
others me i (apicid ∷ cpus) =
    if i == me then others me (i + 1) cpus else lapicstartap apicid ∷ others me (i + 1) cpus

start_loop-others :
    (me i : ℕ) (cpus readings : List ℕ)
    → length cpus ≤ set_count readings
    → (left : List ℕ) × (start_loop me i cpus readings ≡ some (others me i cpus, left))
unfolding start_loop
start_loop-others me i [] readings le = (readings, refl)
start_loop-others me i (apicid ∷ cpus) readings le = elim (Bool-cases (i == me)) [
  | inl e ↦
      let (left, h) = start_loop-others me (i + 1) cpus readings (omega arith) in
      (left, rw (e, start_loop) h)
  | inr e ↦
      let (rest, w, enough) = wait_started-ends readings (length cpus) (omega arith) in
      let (left, h) = start_loop-others me (i + 1) cpus rest enough in
      (left, rw (e, start_loop, w, h) refl)
]

-- When the flags of the processors come to be set, `startothers` ends, and it starts every
-- processor of the table but the one that it runs on, in order, each once, behind the copy of the
-- entry code.
pub startothers-others :
    (me : ℕ) (cpus readings : List ℕ)
    → length cpus ≤ set_count readings
    → (left : List ℕ) × (startothers me cpus readings
        ≡ some (sipi_entry_mov ∷ others me 0 cpus, left))
unfolding startothers
startothers-others me cpus readings le =
    let (left, h) = start_loop-others me 0 cpus readings le in (left, rw h refl)
