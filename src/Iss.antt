-- ===== src/Iss.antt =====
-- The golden instruction-set simulator, model/iss.h and model/iss.cpp. A signed overflow and a shift
-- of a negative number, which C++ leaves open, are taken as two's complement.
pub mod Decode
pub mod Fields
pub mod Encoding
pub mod EncodingStore
pub mod EncodingUpper
pub mod Memory
pub mod Bytes
pub mod RoundTrip
pub mod Alu
pub mod Execute
pub mod Bounds
pub mod Invariant
pub mod Effect
pub mod SingleStep
mod Tests
use rv64_ooo_core.Prelude.{ℕ, ◌==◌, if◌then◌else◌, Option, none, Bool}

-- `Iss::Exit`
pub data Exit : Type 0 where
  nothing ecall ebreak illegal : Exit

-- The members of `Iss`. The registers and the 64 KiB of memory are functions: a register number has
-- five bits, and each access to `mem` masks its address to 16. `last_rd` is `none` where the source
-- has -1.
pub record State : Type 0 where
  pub x : ℕ → ℕ
  pub pc : ℕ
  pub mem : ℕ → ℕ
  pub exit_reason : Exit
  pub last_insn : ℕ
  pub last_rd : Option ℕ
  pub last_rd_val : ℕ

-- An assignment to an element of an array.
abbrev pub update : (ℕ → ℕ) → ℕ → ℕ → ℕ → ℕ
update f i v j = if i == j then v else f j
