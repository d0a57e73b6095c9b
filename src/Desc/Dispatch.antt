-- ===== src/Desc/Dispatch.antt =====
-- Exceptions once `setup_idt` of x86_64/desc.c has run.
use hyper_bench.Base.{
  ℕ, ◌≡◌, ◌⊎◌, inl, inr, refl, arith, true, false, ◌==◌, ◌||◌, if◌then◌else◌, none, some, List, ◌∙◌,
  ltb, Bool-cases,
}
use hyper_bench.Desc.{
  Desc, ExRegs, ExRecord, resume, hang, setup_idt, do_handle_exception, check_table, find_record,
  ex_val, check_exception_table,
}
use hyper_bench.Desc.Gate.{setup_idt-handlers}

-- The vectors that the program recovers from: #DE, #UD and #GP.
abbrev pub IsRecovered : ℕ → Type 0
IsRecovered v = (v ≡ 0) ⊎ ((v ≡ 6) ⊎ (v ≡ 13))

recovered : (v : ℕ) → IsRecovered v → ((v == 13) || ((v == 6) || (v == 0))) ≡ true
recovered v h = ground arith

not_recovered : (v : ℕ) → ¬ (IsRecovered v) → ((v == 13) || ((v == 6) || (v == 0))) ≡ false
not_recovered v h = elim (Bool-cases ((v == 13) || ((v == 6) || (v == 0)))) [
  | inl e ↦ absurd (h (ground arith))
  | inr e ↦ e
]

-- After the first `setup_idt`, from no handlers, an exception goes on at the fixup address of its
-- instruction exactly when it is #DE, #UD or #GP and the exception table names the instruction; any
-- other vector ends in the endless loop of `unhandled_exception` with its argument true, and an
-- instruction that the table does not name in the one with false.
pub do_handle_exception_recovers :
    (cs : ℕ) (fault : ℕ → ℕ) (d : Desc) (table : List ExRecord) (r : ExRegs)
    → d.idt_initialized ≡ false
    → ((v : ℕ) → d.exception_handlers v ≡ none)
    → ((to : ℕ)
        → IsRecovered r.vector
        → find_record table r.rip ≡ some to
        → do_handle_exception table (setup_idt cs fault d) r
          ≡ resume (record (setup_idt cs fault d) { gs4 = ex_val r }) (record r { rip = to }))
      × (IsRecovered r.vector
          → find_record table r.rip ≡ none
          → do_handle_exception table (setup_idt cs fault d) r ≡ hang false)
      × (¬ (IsRecovered r.vector) → do_handle_exception table (setup_idt cs fault d) r ≡ hang true)
do_handle_exception_recovers cs fault d table r first bare = (
  λ to rec found. dispatched rec ∙ (unfold check_table in rw (found, check_table)),
  λ rec missing. dispatched rec ∙ (unfold check_table in rw (missing, check_table)),
  λ other. refused (handler ∙ rw (not_recovered r.vector other) (bare r.vector)),
)
  where
    handler : (setup_idt cs fault d).exception_handlers r.vector ≡ (
        if (r.vector == 13) || ((r.vector == 6) || (r.vector == 0))
        then some check_exception_table
        else d.exception_handlers r.vector)
    handler = setup_idt-handlers cs fault d r.vector first

    small : IsRecovered r.vector → ltb r.vector 256 ≡ true
    small h = ground arith

    dispatched :
        IsRecovered r.vector
        → do_handle_exception table (setup_idt cs fault d) r
          ≡ check_table table (setup_idt cs fault d) r
    dispatched h =
        let e : (setup_idt cs fault d).exception_handlers r.vector ≡ some check_exception_table =
          handler ∙ rw (recovered r.vector h) refl in
        unfold do_handle_exception in
        rw (small h, do_handle_exception) (rw (e, do_handle_exception))

    refused :
        (setup_idt cs fault d).exception_handlers r.vector ≡ none
        → do_handle_exception table (setup_idt cs fault d) r ≡ hang true
    refused e =
        unfold do_handle_exception in
        elim (Bool-cases (ltb r.vector 256)) [
          | inl t ↦ rw (t, do_handle_exception) (rw (e, do_handle_exception))
          | inr t ↦ rw (t, do_handle_exception)
        ]
