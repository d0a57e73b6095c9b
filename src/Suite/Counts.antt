-- ===== src/Suite/Counts.antt =====
-- How often the benchmarks do what they measure.
use hyper_bench.Base.{
  ℕ, zero, suc, ◌+◌, ◌*◌, ◌≡◌, refl, ◌∙◌, List, [], ◌∷◌, ◌++◌, map, length, arith, ◌==◌, ◌%◌, ◌^◌,
  if◌then◌else◌,
}
use hyper_bench.Heap.{add64}
use hyper_bench.Suite.{
  Op, vmcall, pushf, popf, smsw, ud2, read_cr0, restore_cr3, set_idt, start_smp, lgdt, sgdt, sidt,
  load_cr3, inb, read8, read_gs, write_gs, map_memory, take_vpages, on_cpu, outb, outbs, map_page,
  Globals, Program, loop, hypercall, lgdt_benchmark, sgdt_benchmark, sidt_benchmark, memory_pt,
  cold_loop, cold_addresses, memory_cold, hot_loop, hot_addresses, memory_hot, in_serial,
  out_serial, print_benchmark, set_cr3, ipi, ud2_benchmark, pushf_popf, smsw_benchmark,
}

-- A number for each kind of operation.
abbrev pub kind : Op → ℕ
kind vmcall = 0
kind pushf = 1
kind popf = 2
kind smsw = 3
kind ud2 = 4
kind read_cr0 = 5
kind restore_cr3 = 6
kind set_idt = 7
kind start_smp = 8
kind (lgdt mem) = 9
kind (sgdt mem) = 10
kind (sidt mem) = 11
kind (load_cr3 cr3) = 12
kind (inb port) = 13
kind (read8 address) = 14
kind (read_gs offset) = 15
kind (write_gs offset value) = 22
kind (map_memory end) = 16
kind (take_vpages nr) = 17
kind (on_cpu cpu) = 18
kind (outb value port) = 19
kind (outbs len port) = 20
kind (map_page phys virt) = 21

-- The number of operations of a kind.
abbrev pub count : ℕ → List Op → ℕ
count k [] = 0
count k (o ∷ os) = (if kind o == k then 1 else 0) + count k os

count-append : (k : ℕ) (os rs : List Op) → count k (os ++ rs) ≡ count k os + count k rs
count-append k [] rs = omega arith
count-append k (o ∷ os) rs = omega (arith, count-append k os rs)

-- Each round counts what its body counts.
count-loop : (k n c : ℕ) (body : List Op) → count k body ≡ c → count k (loop n body) ≡ n * c
unfolding loop
count-loop k zero c body e = omega arith
count-loop k (suc n) c body e =
    count-append k body (loop n body) ∙ grind (arith, e, count-loop k n c body e)

loop-nil : (n : ℕ) → loop n [] ≡ []
unfolding loop
loop-nil zero = refl
loop-nil (suc n) = loop-nil n

count-read8 : (addresses : List ℕ) → count 14 (map read8 addresses) ≡ length addresses
count-read8 [] = refl
count-read8 (a ∷ addresses) = omega (arith, count-read8 addresses)

length-cold_loop : (n ptr : ℕ) → length (cold_loop n ptr) ≡ n
unfolding cold_loop
length-cold_loop zero ptr = refl
length-cold_loop (suc n) ptr = omega (arith, length-cold_loop n (add64 ptr 1 % 2 ^ 30))

length-hot_loop : (n address : ℕ) → length (hot_loop n address) ≡ n
unfolding hot_loop
length-hot_loop zero address = refl
length-hot_loop (suc n) address = omega (arith, length-hot_loop n (add64 address 0x1000 % 2 ^ 30))

-- The kernel does the operation of the kind as often as the benchmark says, and the control does
-- nothing.
pub record Measures (k : ℕ) (b : Program) : Type 0 where
  pub kernel : count k b.kernel ≡ b.iteration_count
  pub control : b.control ≡ []

-- Each benchmark that counts operations with its kind.
abbrev pub measured : Globals → List (ℕ × Program)
measured g =
    (0, hypercall g)
    ∷ (9, lgdt_benchmark g)
    ∷ (10, sgdt_benchmark g)
    ∷ (11, sidt_benchmark g)
    ∷ (16, memory_pt g)
    ∷ (14, memory_cold g)
    ∷ (14, memory_hot g)
    ∷ (13, in_serial g)
    ∷ (19, out_serial g)
    ∷ (20, print_benchmark g)
    ∷ (12, set_cr3 g)
    ∷ (18, ipi g)
    ∷ (4, ud2_benchmark g)
    ∷ (1, pushf_popf g)
    ∷ (2, pushf_popf g)
    ∷ (3, smsw_benchmark g)
    ∷ []

abbrev pub AllMeasure : List (ℕ × Program) → Type 0
AllMeasure [] = Unit {0}
AllMeasure ((k, b) ∷ bs) = Measures k b × AllMeasure bs

-- Each benchmark, `idle` excepted, does the operation that it measures exactly as often as its
-- `iteration_count` says, and its control does no operation at all.
pub measured-AllMeasure : (g : Globals) → AllMeasure (measured g)
unfolding cold_addresses hot_addresses
measured-AllMeasure g = (
  record { kernel = count-loop 0 1000 1 _ refl; control = loop-nil 1000 },
  (
    record { kernel = count-loop 9 100000 1 _ refl; control = loop-nil 100000 },
    (
      record { kernel = count-loop 10 100000 1 _ refl; control = loop-nil 100000 },
      (
        record { kernel = count-loop 11 100000 1 _ refl; control = loop-nil 100000 },
        (
          record { kernel = refl; control = refl },
          (
            record {
              kernel = count-read8 cold_addresses ∙ length-cold_loop 100000 0x4000;
              control = loop-nil 100000;
            },
            (
              record {
                kernel = count-read8 hot_addresses ∙ length-hot_loop 100000 0x100000;
                control = loop-nil 100000;
              },
              (
                record { kernel = count-loop 13 1000 1 _ refl; control = loop-nil 1000 },
                (
                  record { kernel = count-loop 19 1000 1 _ refl; control = loop-nil 1000 },
                  (
                    record { kernel = count-loop 20 1000 1 _ refl; control = loop-nil 1000 },
                    (
                      record { kernel = count-loop 12 100000 1 _ refl; control = loop-nil 100000 },
                      (
                        record { kernel = count-loop 18 100 1 _ refl; control = loop-nil 100 },
                        (
                          record { kernel = refl; control = refl },
                          (
                            record {
                              kernel = count-loop 1 100000 10 _ refl;
                              control = loop-nil 100000;
                            },
                            (
                              record {
                                kernel = count-loop 2 100000 10 _ refl;
                                control = loop-nil 100000;
                              },
                              (
                                record {
                                  kernel = count-loop 3 100000 10 _ refl;
                                  control = loop-nil 100000;
                                },
                                tt,
                              ),
                            ),
                          ),
                        ),
                      ),
                    ),
                  ),
                ),
              ),
            ),
          ),
        ),
      ),
    ),
  ),
)
