-- ===== src/Ipi/Served.antt =====
-- What a call on another processor (`on_cpu` of x86_64/mp.c) ensures.
use hyper_bench.Base.{ℕ, ◌+◌, ◌≡◌, refl, true, List, arith, ◌==◌, if◌then◌else◌}
use hyper_bench.Ipi.{
  unlocking, Handler, entered, System, Step, on_cpu, spin, take, clear, send, poll, proceed,
  release, deliver, set_done, acknowledge, init, Run, here, more, critical,
}
use hyper_bench.Ipi.Invariant.{IsOpen, Inv, init-Inv, none-IsOpen, Run-Inv}

-- No two processors are between taking the lock and leaving it.
pub mutual_exclusion :
    {cpus : List ℕ} {t : System}
    → Run cpus init t
    → (i j : ℕ) → critical (t.pc i) ≡ true
    → critical (t.pc j) ≡ true
    → i ≡ j
mutual_exclusion r = (Run-Inv init-Inv r).owner

-- Steps that send to `c`, and steps of the handler of `c` that set `ipi_done`.
abbrev sends_by : {cpus : List ℕ} {s t : System} → ℕ → Step cpus s t → ℕ
sends_by c (send i d e) = if c == d then 1 else 0
sends_by c _ = 0

abbrev answers_by : {cpus : List ℕ} {s t : System} → ℕ → Step cpus s t → ℕ
answers_by c (set_done d h) = if c == d then 1 else 0
answers_by c _ = 0

-- How often the run sends an interrupt to `c`, and how often `c` answers one.
abbrev pub sends : {cpus : List ℕ} {s t : System} → ℕ → Run cpus s t → ℕ
sends c here = 0
sends c (more r st) = sends c r + sends_by c st

abbrev pub answers : {cpus : List ℕ} {s t : System} → ℕ → Run cpus s t → ℕ
answers c here = 0
answers c (more r st) = answers c r + answers_by c st

abbrev is_entered : Handler → ℕ
is_entered entered = 1
is_entered _ = 0

abbrev open_calls : System → ℕ → ℕ
open_calls s c = (if s.requested c then 1 else 0) + is_entered (s.handler c)

Step-open_calls :
    {cpus : List ℕ} {s t : System}
    → Inv s
    → (c : ℕ) (st : Step cpus s t)
    → open_calls s c + sends_by c st ≡ open_calls t c + answers_by c st
Step-open_calls inv c (on_cpu k cpu d e g) = refl
Step-open_calls inv c (spin k d e l) = refl
Step-open_calls inv c (take k d e l) = refl
Step-open_calls inv c (clear k d e) = refl
Step-open_calls {s} inv c (send k d e) =
    let none : ¬ (IsOpen s c) = none-IsOpen inv k c (ground arith) (λ d'. cc) in grind (arith, none)
Step-open_calls inv c (poll k d e l) = refl
Step-open_calls inv c (proceed k d e l) = refl
Step-open_calls inv c (release k e) = refl
Step-open_calls inv c (deliver d q h) = ground arith
Step-open_calls inv c (set_done d h) = ground arith
Step-open_calls inv c (acknowledge d h) = ground arith

sends-answers :
    {cpus : List ℕ} {t : System} (c : ℕ) (r : Run cpus init t)
    → sends c r ≡ answers c r + open_calls t c
sends-answers c here = refl
sends-answers c (more r st) =
    omega (arith, sends-answers c r, Step-open_calls (Run-Inv init-Inv r) c st)

not_open : (s : System) (c : ℕ) → ¬ (IsOpen s c) → open_calls s c ≡ 0
not_open s c none = grind (arith, none)

-- When a processor leaves the wait for `ipi_done`, each interrupt that any processor has sent until
-- then has been answered, exactly once, by the processor that it was sent to.
pub sends-answers_unlocking :
    {cpus : List ℕ} {t : System} (r : Run cpus init t) (i c : ℕ)
    → t.pc i ≡ unlocking
    → sends c r ≡ answers c r
sends-answers_unlocking {t = t} r i c p =
    let none : ¬ (IsOpen t c) = none-IsOpen (Run-Inv init-Inv r) i c (ground arith) (λ d. cc) in
    omega (arith, sends-answers c r, not_open t c none)
