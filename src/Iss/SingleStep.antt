-- ===== src/Iss/SingleStep.antt =====
-- One instruction run alone: `run1` of model/test_iss.cpp, and `golden` of sim/muldiv/tb_muldiv.cpp,
-- which is how the multiplier and divider are compared with the simulator.
use rv64_ooo_core.Prelude.{
  ℕ, ◌+◌, ◌-◌, ◌%◌, ◌^◌, ◌<◌, ◌≡◌, refl, ◌∙◌, ap, arith, ltb, if◌then◌else◌, Option, none, some,
  Bool, true, false, lt→ltb,
}
use rv64_ooo_core.Prelude.Digits.{byte, byte-lt, assembled_four}
use rv64_ooo_core.Iss.{State, update}
use rv64_ooo_core.Iss.Memory.{Memory, fetch}
use rv64_ooo_core.Iss.Bytes.{IsBytes, load32-word}
use rv64_ooo_core.Iss.RoundTrip.{word-eq-assembled}
use rv64_ooo_core.Iss.Decode.{opcode_of, rd_of, funct3_of, rs1_of, rs2_of, funct7_of, enc_r}
use rv64_ooo_core.Iss.Encoding.{decode-enc_r, enc_r-eq}
use rv64_ooo_core.Iss.Alu.{op, op_m, op_w, op_m_w}
use rv64_ooo_core.Iss.Execute.{reset, write_rd, finish, execute, fetched, commit, step}

abbrev pub code_addr : ℕ
code_addr = 0x100

-- The `memcpy` of an instruction word to `code_addr`, on a little-endian machine.
unfoldable pub place : ℕ → Memory → Memory
place insn mem a =
    if ltb a code_addr
    then mem a
    else if ltb (a - code_addr) 4
    then byte insn (a - code_addr)
    else mem a

unfoldable pub run1 : State → ℕ → State × Bool
run1 s insn = step (record s { pc = code_addr; mem = place insn s.mem })

-- The result in x3 of an instruction of the M extension on `a` in x1 and `b` in x2.
unfoldable pub golden : ℕ → ℕ → ℕ → Bool → ℕ
golden a b funct3 is_word =
    let s = reset (λ i. 0) in
    let insn = enc_r 0x01 2 1 funct3 3 (if is_word then 0x3b else 0x33) in
    (run1 (record s { x = update (update s.x 1 a) 2 b }) insn).0.x 3

place-IsBytes : (insn : ℕ) (mem : Memory) → IsBytes mem → IsBytes (place insn mem)
unfolding place
place-IsBytes insn mem h a = ground (arith, h a, byte-lt insn (a - code_addr))

place-at :
    (insn : ℕ) (mem : Memory) (k : ℕ)
    → k < 4
    → place insn mem ((code_addr + k) % 2 ^ 16) ≡ byte insn k
unfolding place
place-at insn mem k h =
    let e : (code_addr + k) % 2 ^ 16 ≡ code_addr + k = omega arith in
    let e' : code_addr + k - code_addr ≡ k = omega arith in
    let no : ltb (code_addr + k) code_addr ≡ false = ground arith in rw (e, e', no, lt→ltb k 4 h)

-- The word that was placed is fetched.
pub fetch-place :
    (insn : ℕ) (mem : Memory)
    → IsBytes mem
    → insn < 2 ^ 32
    → fetch (place insn mem) code_addr ≡ insn
unfolding fetch
fetch-place insn mem h small =
    load32-word _ (place-IsBytes insn mem h) code_addr
    ∙ (word-eq-assembled 4 _ code_addr insn (place-at insn mem)
        ∙ omega (arith, assembled_four insn))

execute-op :
    (s : State) (insn : ℕ)
    → opcode_of insn ≡ 0x33
    → execute s insn
      ≡ finish s insn (op (funct3_of insn) (funct7_of insn) (s.x (rs1_of insn)) (s.x (rs2_of insn)))
unfolding execute
execute-op s insn e = rw e refl

execute-op_w :
    (s : State) (insn : ℕ)
    → opcode_of insn ≡ 0x3b
    → execute s insn
      ≡ finish s insn
          (op_w (funct3_of insn) (funct7_of insn) (s.x (rs1_of insn)) (s.x (rs2_of insn)))
unfolding execute
execute-op_w s insn e = rw e refl

-- What x3 holds after a result, or after an illegal instruction when it held 0.
abbrev pub in_x3 : Option ℕ → ℕ
in_x3 none = 0
in_x3 (some v) = v

commit-finish :
    (s : State) (insn : ℕ) (r : Option ℕ)
    → rd_of insn ≡ 3
    → s.x 3 ≡ 0
    → (commit s (finish s insn r)).0.x 3 ≡ in_x3 r
unfolding commit finish write_rd
commit-finish s insn none e h = h
commit-finish s insn (some v) e h = rw e refl

-- x1 and x2 as `golden` sets them.
abbrev operands : ℕ → ℕ → State
operands a b = record (reset (λ i. 0)) { x = update (update (reset (λ i. 0)).x 1 a) 2 b }

module _ (a b funct3 : ℕ) (f3 : funct3 < 2 ^ 3) where
  module _ (opcode : ℕ) (o : opcode < 2 ^ 7) where
    abbrev insn : ℕ
    insn = enc_r 0x01 2 1 funct3 3 opcode

    -- The state in which the instruction is executed.
    abbrev before : State
    before = fetched (record (operands a b) { pc = code_addr; mem = place insn (λ i. 0) })

    insn-lt : insn < 2 ^ 32
    insn-lt = omega (
      arith,
      enc_r-eq 1 funct3 3 opcode (omega arith) f3 (omega arith) o 1 2 (omega arith) (omega arith),
    )

    fields :
        (funct7_of insn ≡ 1)
        × (rs2_of insn ≡ 2)
        × (rs1_of insn ≡ 1)
        × (funct3_of insn ≡ funct3)
        × (rd_of insn ≡ 3)
        × (opcode_of insn ≡ opcode)
    fields =
        decode-enc_r 1 funct3 3 opcode (omega arith) f3 (omega arith) o 1 2 (omega arith)
          (omega arith)

    -- x3 after it, for an instruction that ends in `finish`.
    run1-finish :
        (r : Option ℕ)
        → execute before insn ≡ finish before insn r
        → (run1 (operands a b) insn).0.x 3 ≡ in_x3 r
    unfolding run1 step fetched reset
    run1-finish r e =
        ap (λ w. (commit before (execute before w)).0.x 3)
          (fetch-place insn (λ i. 0) (λ i. omega arith) insn-lt)
        ∙ (ap (λ z. (commit before z).0.x 3) e ∙ commit-finish before insn r fields.4 refl)

  golden_double : golden a b funct3 false ≡ op_m funct3 a b
  unfolding golden fetched reset op
  golden_double =
      let (f7, r2, r1, g3, d, o) = fields 0x33 (omega arith) in
      run1-finish 0x33 (omega arith) (some (op_m funct3 a b)) (
        execute-op (before 0x33 (omega arith)) (insn 0x33 (omega arith)) o
        ∙ ap (finish (before 0x33 (omega arith)) (insn 0x33 (omega arith)))
            (rw (f7, r2, r1, g3) refl))

  golden_word : golden a b funct3 true ≡ in_x3 (op_m_w funct3 a b)
  unfolding golden fetched reset op_w
  golden_word =
      let (f7, r2, r1, g3, d, o) = fields 0x3b (omega arith) in
      run1-finish 0x3b (omega arith) (op_m_w funct3 a b) (
        execute-op_w (before 0x3b (omega arith)) (insn 0x3b (omega arith)) o
        ∙ ap (finish (before 0x3b (omega arith)) (insn 0x3b (omega arith)))
            (rw (f7, r2, r1, g3) refl))

-- What the testbench takes as the reference for the multiplier and divider, the instruction encoded,
-- placed in memory and run, is the arithmetic function of the instruction: `op_m`, or for the 32-bit
-- instructions `op_m_w`, and 0 for the three `funct3` that have no 32-bit instruction.
pub golden_lem :
    (a b funct3 : ℕ)
    → funct3 < 2 ^ 3
    → (golden a b funct3 false ≡ op_m funct3 a b)
      × (golden a b funct3 true ≡ in_x3 (op_m_w funct3 a b))
golden_lem a b funct3 f3 = (golden_double a b funct3 f3, golden_word a b funct3 f3)
