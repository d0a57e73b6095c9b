-- ===== src/Tests.antt =====
-- Runs of the theorems on concrete inputs.
use hyper_bench.Base.{ℕ, ◌-◌, List, leb, get_or, if◌then◌else◌}
use hyper_bench.Base.Memory.{Memory}
mod Strings
mod Formats
mod Pages
mod Tables
mod Machine
mod Devices
mod Runs
mod Kernel
mod Calls
mod Traces
mod Lines
mod Starts
mod Races
mod Globs

-- A memory with the bytes `s` at `p` and zeros elsewhere.
abbrev bytes_at : ℕ → List ℕ → Memory
bytes_at p s a = if leb p a then get_or s (a - p) 0 else 0
