-- ===== src/Tests/Calls.antt =====
-- Processor 0 calls processor 1, whose APIC id is 4, while processor 1 waits for the lock.
use hyper_bench.Base.{ℕ, ◌≡◌, refl, true, false, List, [], ◌∷◌}
use hyper_bench.Base.Memory.{update}
use hyper_bench.Ipi.{
  outside, locking, clearing, sending, waiting, unlocking, entered, acknowledging, System, on_cpu,
  take, clear, send, proceed, deliver, set_done, init, Run, here, more,
}
use hyper_bench.Ipi.Served.{sends, answers, mutual_exclusion, sends-answers_unlocking}
use hyper_bench.Ipi.Progress.{call_returns}

abbrev cpus : List ℕ
cpus = 0 ∷ 4 ∷ []

abbrev called : System
called = record init { pc = update init.pc 0 (locking 4) }

abbrev both : System
both = record called { pc = update called.pc 1 (locking 0) }

abbrev taken : System
taken = record both { locked = true; pc = update both.pc 0 (clearing 4) }

abbrev cleared : System
cleared = record taken { ipi_done = false; pc = update taken.pc 0 (sending 4) }

abbrev sent : System
sent = record cleared {
  requested = update cleared.requested 4 true;
  pc = update cleared.pc 0 (waiting 4);
}

abbrev delivered : System
delivered = record sent {
  requested = update sent.requested 4 false;
  handler = update sent.handler 4 entered;
}

abbrev answered : System
answered = record delivered { ipi_done = true; handler = update delivered.handler 4 acknowledging }

abbrev served : System
served = record answered { pc = update answered.pc 0 unlocking }

abbrev to_sent : Run cpus init sent
to_sent =
    more
      (more
        (more (more (more here (on_cpu 0 1 4 refl refl)) (on_cpu 1 0 0 refl refl))
          (take 0 4 refl refl))
        (clear 0 4 refl))
      (send 0 4 refl)

abbrev to_served : Run cpus init served
to_served =
    more (more (more to_sent (deliver 4 refl refl)) (set_done 4 refl)) (proceed 0 4 refl refl)

mutual_exclusion_example : ◌≡◌ {A = ℕ} 0 0
mutual_exclusion_example = mutual_exclusion to_sent 0 0 refl refl

sends-answers_unlocking_example : sends 4 to_served ≡ answers 4 to_served
sends-answers_unlocking_example = sends-answers_unlocking to_served 0 4 refl

-- Processor 1 waits for the lock, which processor 0 holds.
call_returns_example : (u : System) × Run cpus sent u × (u.pc 1 ≡ outside)
call_returns_example = call_returns 1 to_sent (λ e. cc)
