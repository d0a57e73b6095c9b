-- ===== src/Tests/Traces.antt =====
-- A stack of two frames.
use hyper_bench.Base.{ℕ, ◌+◌, ◌≡◌, false, some, List, ◌∷◌, [], ◌++◌, map, drop, ◌==◌, if◌then◌else◌}
use hyper_bench.Stack.{max_depth, heading, address, line_end, dump_stack}
use hyper_bench.Stack.Trace.{IsTrace, dump_stack-IsTrace}

abbrev return_address : ℕ → ℕ
return_address i = if i == 2 then 0 else 4096 + i

abbrev extract : ℕ → ℕ
extract a = a

dump_stack-IsTrace_example :
    (addrs : List ℕ) × IsTrace return_address extract 0 max_depth addrs
    × (dump_stack return_address extract false
        ≡ some (false, heading ∷ (map address (drop 1 addrs) ++ (line_end ∷ []))))
dump_stack-IsTrace_example = dump_stack-IsTrace return_address extract
