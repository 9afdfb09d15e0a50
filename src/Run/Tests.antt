-- ===== src/Run/Tests.antt =====
-- A program of one instruction, `addi x31, x0, 1`, which passes.
use rv64_ooo_core.Prelude.{ℕ, List, [], ◌∷◌}
use rv64_ooo_core.Iss.Memory.{load_image}
use rv64_ooo_core.Iss.Execute.{reset}
use rv64_ooo_core.Run.{main, Verdict, main-Verdict}

abbrev program : List ℕ
program = 0x93 ∷ 0x0f ∷ 0x10 ∷ 0x00 ∷ []

main-Verdict_example : Verdict 10 0 (reset (load_image program)) (main 10 program)
main-Verdict_example = main-Verdict 10 program
