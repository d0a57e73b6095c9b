-- ===== src/Desc/Gate.antt =====
-- The gates that x86_64/desc.c sets up.
use hyper_bench.Base.{
  ℕ, zero, suc, ◌+◌, ◌*◌, ◌^◌, ◌≡◌, refl, Bool, true, false, ◌==◌, ltb, if◌then◌else◌, Option, some,
  ◌∙◌, ◌&&◌, ◌||◌, leb, Bool-cases, inl, inr, ap,
}
use hyper_bench.Desc.{
  Desc, Handler, IdtEntry, set_idt_entry, set_gates, setup_idt, has_handler, handle_exception,
  check_exception_table,
}

-- The 64-bit address that the processor reads from the three offset fields of a gate.
abbrev pub target : IdtEntry → ℕ
target e = e.offset0 + e.offset1 * 2 ^ 16 + e.offset2 * 2 ^ 32

-- A vector that the loop reaches from `i` in `left` rounds.
abbrev in_range : ℕ → ℕ → ℕ → Bool
in_range left i v = leb i v && ltb v (i + left)

abbrev set_if : Bool → IdtEntry → IdtEntry → IdtEntry
set_if b e old = if b then e else old

one_gate_rest :
    (b : Bool) (cs i : ℕ) (fault : ℕ → ℕ) (d : Desc)
    → ((if b then set_idt_entry cs d i (fault i) 0 else d).idt_initialized ≡ d.idt_initialized)
      × ((if b then set_idt_entry cs d i (fault i) 0 else d).exception_handlers
          ≡ d.exception_handlers)
unfolding set_idt_entry
one_gate_rest true cs i fault d = (refl, refl)
one_gate_rest false cs i fault d = (refl, refl)

set_gates_rest :
    (left i cs : ℕ) (fault : ℕ → ℕ) (d : Desc)
    → ((set_gates left i cs fault d).idt_initialized ≡ d.idt_initialized)
      × ((set_gates left i cs fault d).exception_handlers ≡ d.exception_handlers)
unfolding set_gates
set_gates_rest zero i cs fault d = (refl, refl)
set_gates_rest (suc left) i cs fault d =
    let e = if has_handler i then set_idt_entry cs d i (fault i) 0 else d in
    let rest = set_gates_rest left (i + 1) cs fault e in
    let one = one_gate_rest (has_handler i) cs i fault d in (rest.0 ∙ one.0, rest.1 ∙ one.1)

setup_idt_again :
    (cs : ℕ) (fault : ℕ → ℕ) (d : Desc) → d.idt_initialized ≡ true → setup_idt cs fault d ≡ d
unfolding setup_idt
setup_idt_again cs fault d h = rw h

setup_idt-initialized :
    (cs : ℕ) (fault : ℕ → ℕ) (d : Desc) → (setup_idt cs fault d).idt_initialized ≡ true
unfolding setup_idt
setup_idt-initialized cs fault d = elim (Bool-cases d.idt_initialized) [
  | inl e ↦ ap (λ (x : Desc). x.idt_initialized) (setup_idt_again cs fault d e) ∙ e
  | inr e ↦ rw e (set_gates_rest 32 0 cs fault (record d { idt_initialized = true })).0
]

-- `setup_idt` does its work once: a second call changes nothing.
pub setup_idt_twice :
    (cs : ℕ) (fault : ℕ → ℕ) (d : Desc)
    → setup_idt cs fault (setup_idt cs fault d) ≡ setup_idt cs fault d
setup_idt_twice cs fault d =
    setup_idt_again cs fault (setup_idt cs fault d) (setup_idt-initialized cs fault d)

-- The handlers behind the first call.
pub setup_idt-handlers :
    (cs : ℕ) (fault : ℕ → ℕ) (d : Desc) (v : ℕ)
    → d.idt_initialized ≡ false
    → (setup_idt cs fault d).exception_handlers v ≡ (
        if (v == 13) || ((v == 6) || (v == 0))
        then some check_exception_table
        else d.exception_handlers v)
unfolding setup_idt handle_exception
setup_idt-handlers cs fault d v first =
    let keep = (set_gates_rest 32 0 cs fault (record d { idt_initialized = true })).1 in
    rw (first, keep)
      (or_if (v == 13) (v == 6) (v == 0) (some check_exception_table) (d.exception_handlers v))
  where
    or_if :
        (a b c : Bool) (x y : Option Handler)
        → (if a then x else if b then x else if c then x else y) ≡ (if a || (b || c) then x else y)
    or_if true b c x y = refl
    or_if false true c x y = refl
    or_if false false true x y = refl
    or_if false false false x y = refl
