-- ===== src/Apic/Mode.antt =====
-- The two modes of the local APIC in x86_64/apic.c.
use hyper_bench.Base.{ℕ, ◌/◌, ◌%◌, ◌^◌, ◌≡◌, refl, arith, ◌∙◌, false, List, [], ◌∷◌, ◌⊎◌, ap}
use hyper_bench.Base.Memory.{poke_self}
use hyper_bench.Apic.{Apic, bit, set_bit, clear_bit, disable_apic, reset_apic, msr_ia32_apicbase}

-- `reset_apic` leaves the xAPIC mode: the enable bit is 1, the x2APIC bit is 0, and no other bit of
-- the base register changes.
pub reset_apic_bits :
    (s : Apic)
    → ((reset_apic s).use_x2apic ≡ false)
      × (bit 11 ((reset_apic s).msr msr_ia32_apicbase) ≡ 1)
      × (bit 10 ((reset_apic s).msr msr_ia32_apicbase) ≡ 0)
      × ((reset_apic s).msr msr_ia32_apicbase % 2 ^ 10 ≡ s.msr msr_ia32_apicbase % 2 ^ 10)
      × ((reset_apic s).msr msr_ia32_apicbase / 2 ^ 12 ≡ s.msr msr_ia32_apicbase / 2 ^ 12)
reset_apic_bits s =
    let e : (reset_apic s).msr msr_ia32_apicbase
        ≡ set_bit 11 (clear_bit 10 (clear_bit 11 (s.msr msr_ia32_apicbase))) =
      final in
    (
      unfold reset_apic in refl,
      omega (arith, e),
      omega (arith, e),
      omega (arith, e),
      omega (arith, e),
    )
  where
    final :
        (reset_apic s).msr msr_ia32_apicbase
        ≡ set_bit 11 (clear_bit 10 (clear_bit 11 (s.msr msr_ia32_apicbase)))
    final =
        unfold reset_apic in
        poke_self (disable_apic s).msr msr_ia32_apicbase
          (set_bit 11 ((disable_apic s).msr msr_ia32_apicbase))
        ∙ ap (set_bit 11) (
            poke_self s.msr msr_ia32_apicbase
              (clear_bit 10 (clear_bit 11 (s.msr msr_ia32_apicbase))))

-- The readings of the busy bit: any number of 1, then a 0.
abbrev pub BusyThenFree : List ℕ → Type 0
BusyThenFree [] = ⊥
BusyThenFree (v ∷ rest) = (bit 12 v ≡ 0) ⊎ BusyThenFree rest
