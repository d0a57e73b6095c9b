-- ===== src/Suite.antt =====
-- benchmark/*.c: what the four functions of each benchmark do to the machine, as the list of their
-- operations in order. A `for` loop whose body is empty, or is the empty instruction, does nothing.
pub mod Counts
pub mod Accesses
use hyper_bench.Base.{ℕ, zero, suc, ◌+◌, ◌*◌, ◌%◌, ◌^◌, List, [], ◌∷◌, ◌++◌, map}
use hyper_bench.Heap.{add64}

-- One instruction on the machine, or one call into the kernel.
pub data Op : Type 0 where
  vmcall pushf popf smsw ud2 read_cr0 restore_cr3 set_idt start_smp : Op
  lgdt sgdt sidt load_cr3 inb read8 read_gs map_memory take_vpages on_cpu : ℕ → Op
  outb outbs map_page write_gs : ℕ → ℕ → Op

-- What the functions `init` leave in the globals: `mem`, `cr3`, `lcr` and `len`.
pub record Globals : Type 0 where
  pub mem : ℕ
  pub cr3 : ℕ
  pub lcr : ℕ
  pub len : ℕ

-- A benchmark: its name, its count, and what its functions do.
pub record Program : Type 0 where
  pub iteration_count : ℕ
  pub init : List Op
  pub kernel : List Op
  pub control : List Op
  pub cleanup : List Op

-- `for(i = 0; i < n; i++) body`
pub loop : ℕ → List Op → List Op
loop zero body = []
loop (suc n) body = body ++ loop n body

abbrev pub ioram_base_phys : ℕ
ioram_base_phys = 0xff000000

-- The functions `init` of the benchmarks on descriptor tables.
abbrev pub init_table : Globals → List Op
init_table g =
    map_memory (2 ^ 32)
    ∷ take_vpages 2
    ∷ map_page ioram_base_phys g.mem
    ∷ map_page ioram_base_phys (g.mem + 4096)
    ∷ []

abbrev pub hypercall : Globals → Program
hypercall g = record {
  iteration_count = 1000;
  init = [];
  kernel = loop 1000 (vmcall ∷ []);
  control = loop 1000 [];
  cleanup = [];
}

abbrev pub lgdt_benchmark : Globals → Program
lgdt_benchmark g = record {
  iteration_count = 100000;
  init = init_table g ++ (sgdt g.mem ∷ []);
  kernel = loop 100000 (lgdt g.mem ∷ []);
  control = loop 100000 [];
  cleanup = restore_cr3 ∷ [];
}

abbrev pub sgdt_benchmark : Globals → Program
sgdt_benchmark g = record {
  iteration_count = 100000;
  init = init_table g;
  kernel = loop 100000 (sgdt g.mem ∷ []);
  control = loop 100000 [];
  cleanup = restore_cr3 ∷ [];
}

abbrev pub sidt_benchmark : Globals → Program
sidt_benchmark g = record {
  iteration_count = 100000;
  init = init_table g;
  kernel = loop 100000 (sidt g.mem ∷ []);
  control = loop 100000 [];
  cleanup = restore_cr3 ∷ [];
}

abbrev pub memory_pt : Globals → Program
memory_pt g = record {
  iteration_count = 1;
  init = [];
  kernel = map_memory (2 ^ 32) ∷ [];
  control = [];
  cleanup = restore_cr3 ∷ [];
}

-- The addresses of the rounds, from the page number `ptr` on.
pub cold_loop : ℕ → ℕ → List ℕ
cold_loop zero ptr = []
cold_loop (suc left) ptr = ptr * 4096 % 2 ^ 64 ∷ cold_loop left (add64 ptr 1 % 2 ^ 30)

unfoldable pub cold_addresses : List ℕ
cold_addresses = cold_loop 100000 0x4000

abbrev pub memory_cold : Globals → Program
memory_cold g = record {
  iteration_count = 100000;
  init = map_memory (2 ^ 33) ∷ [];
  kernel = map read8 cold_addresses;
  control = loop 100000 [];
  cleanup = restore_cr3 ∷ [];
}

-- The addresses of the rounds, from `address` on.
pub hot_loop : ℕ → ℕ → List ℕ
hot_loop zero address = []
hot_loop (suc left) address = address ∷ hot_loop left (add64 address 0x1000 % 2 ^ 30)

unfoldable pub hot_addresses : List ℕ
hot_addresses = hot_loop 100000 0x100000

abbrev pub memory_hot : Globals → Program
memory_hot g = record {
  iteration_count = 100000;
  init = map_memory (2 ^ 32) ∷ map read8 hot_addresses;
  kernel = map read8 hot_addresses;
  control = loop 100000 [];
  cleanup = restore_cr3 ∷ [];
}

abbrev pub in_serial : Globals → Program
in_serial g = record {
  iteration_count = 1000;
  init = [];
  kernel = loop 1000 (inb (0x3f8 + 0x03) ∷ []);
  control = loop 1000 [];
  cleanup = [];
}

abbrev pub out_serial : Globals → Program
out_serial g = record {
  iteration_count = 1000;
  init = inb (0x3f8 + 0x03) ∷ [];
  kernel = loop 1000 (outb g.lcr (0x3f8 + 0x03) ∷ []);
  control = loop 1000 [];
  cleanup = [];
}

abbrev pub print_benchmark : Globals → Program
print_benchmark g = record {
  iteration_count = 1000;
  init = [];
  kernel = loop 1000 (outbs g.len 0x3f8 ∷ []);
  control = loop 1000 [];
  cleanup = [];
}

abbrev pub set_cr3 : Globals → Program
set_cr3 g = record {
  iteration_count = 100000;
  init = map_memory (2 ^ 32) ∷ [];
  kernel = loop 100000 (load_cr3 g.cr3 ∷ []);
  control = loop 100000 [];
  cleanup = restore_cr3 ∷ [];
}

abbrev pub idle : Globals → Program
idle g = record {
  iteration_count = 1;
  init = [];
  kernel = loop 1 [];
  control = loop 1 [];
  cleanup = [];
}

abbrev pub ipi : Globals → Program
ipi g = record {
  iteration_count = 100;
  init = start_smp ∷ map_memory (2 ^ 32) ∷ [];
  kernel = loop 100 (on_cpu 1 ∷ []);
  control = loop 100 [];
  cleanup = restore_cr3 ∷ [];
}

abbrev pub ud2_benchmark : Globals → Program
ud2_benchmark g = record {
  iteration_count = 1;
  init = [];
  kernel = set_idt ∷ write_gs 4 0 ∷ ud2 ∷ read_gs 5 ∷ read_gs 4 ∷ [];
  control = [];
  cleanup = [];
}

abbrev pub pushf_popf : Globals → Program
pushf_popf g = record {
  iteration_count = 100000 * 10;
  init = [];
  kernel = loop 100000 (
      pushf ∷ popf ∷ pushf ∷ popf ∷ pushf ∷ popf ∷ pushf ∷ popf ∷ pushf ∷ popf ∷ pushf ∷ popf
      ∷ pushf ∷ popf ∷ pushf ∷ popf ∷ pushf ∷ popf ∷ pushf ∷ popf ∷ []);
  control = loop 100000 [];
  cleanup = [];
}

abbrev pub smsw_benchmark : Globals → Program
smsw_benchmark g = record {
  iteration_count = 100000 * 10;
  init = read_cr0 ∷ [];
  kernel = loop 100000 (smsw ∷ smsw ∷ smsw ∷ smsw ∷ smsw ∷ smsw ∷ smsw ∷ smsw ∷ smsw ∷ smsw ∷ []);
  control = loop 100000 [];
  cleanup = [];
}
