-- ===== src/Tests/Kernel.antt =====
-- The benchmarks, the serial port and the start of the processors.
use hyper_bench.Base.{◌≡◌, [], ◌∷◌, ◌++◌, some, arith, false, true}
use hyper_bench.Suite.{Globals}
use hyper_bench.Suite.Counts.{AllMeasure, measured, measured-AllMeasure}
use hyper_bench.Serial.{Serial, puts}
use hyper_bench.Serial.Output.{init_writes, sent, puts-sent}

abbrev globals : Globals
globals = record { mem = 0xffffe000; cr3 = 0x5000; lcr = 3; len = 26 }

measured-AllMeasure_example : AllMeasure (measured globals)
measured-AllMeasure_example = measured-AllMeasure globals

-- The transmitter is busy at first and between the two bytes.
abbrev port : Serial
port = record { lcr = 3; serial_inited = false; readings = 0 ∷ 32 ∷ 0 ∷ 96 ∷ []; writes = [] }

puts-sent_example :
    (s' : Serial) × (puts port (72 ∷ 105 ∷ []) ≡ some s')
    × (s'.serial_inited ≡ true)
    × (s'.writes ≡ init_writes 3 ++ sent (72 ∷ 105 ∷ []))
puts-sent_example = puts-sent port (72 ∷ 105 ∷ []) (omega arith)
