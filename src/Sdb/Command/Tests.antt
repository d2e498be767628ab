-- ===== src/Sdb/Command/Tests.antt =====
-- Sessions with the debugger.
use soc_fpga_bjtu_hwct.Common.{ℕ, ◌≡◌, refl, arith, some, List, ◌∷◌, [], false}
use soc_fpga_bjtu_hwct.Common.Outcome.{Outcome, ok, ◌>>=◌}
use soc_fpga_bjtu_hwct.Isa.Pattern.{codes}
use soc_fpga_bjtu_hwct.Isa.Inst.{decode}
use soc_fpga_bjtu_hwct.Isa.Operand.{decode_operand, imm_i}
use soc_fpga_bjtu_hwct.Isa.Alu.{alu_value}
use soc_fpga_bjtu_hwct.Common.Word.{bits, sext}
use soc_fpga_bjtu_hwct.Cpu.Exec.{cpu_exec}
use soc_fpga_bjtu_hwct.Cpu.Tests.{config0, emulator1, decode2, emulator1-IsSound}
use soc_fpga_bjtu_hwct.Sdb.Token.{initial_tokens, rules}
use soc_fpga_bjtu_hwct.Sdb.Tests.{initial-IsTokens, watched, watched-Holds}
use soc_fpga_bjtu_hwct.Sdb.Watch.{init_wp_pool, nr_wp, check_watch_points}
use soc_fpga_bjtu_hwct.Sdb.Watch.Check.{Round, changed, report, check_watch_points-report}
use soc_fpga_bjtu_hwct.Sdb.Watch.Pool.{range, init_wp_pool-Holds}
use soc_fpga_bjtu_hwct.Sdb.Run.{
  Debugger, Evaluation, evaluation, with_emulator, watch_expr, watched_cpu_exec,
}
use soc_fpga_bjtu_hwct.Sdb.Run.Plain.{watched_cpu_exec-cpu_exec}
use soc_fpga_bjtu_hwct.Sdb.Run.Invariant.{IsWell}
use soc_fpga_bjtu_hwct.Sdb.Command.{Output, sdb_mainloop}
use soc_fpga_bjtu_hwct.Sdb.Command.Invariant.{sdb_mainloop-IsWell}

abbrev debugger1 : Debugger
debugger1 = record { emulator = emulator1; tokens = initial_tokens; wp = init_wp_pool }

debugger1-IsWell : IsWell debugger1
debugger1-IsWell = record {
  registers = emulator1-IsSound;
  tokens = initial-IsTokens;
  pool = record { active = []; others = range nr_wp 0; holds = init_wp_pool-Holds };
}

abbrev lines1 : List (List ℕ)
lines1 = codes "w ra" ∷ codes "si" ∷ codes "info w" ∷ codes "p ra * 2" ∷ codes "q" ∷ codes "c" ∷ []

session : Outcome (List Output × Debugger)
unfolding sdb_mainloop init_wp_pool
session = sdb_mainloop config0 [] false lines1 decode2 debugger1

abbrev outputs_of : Outcome (List Output × Debugger) → List Output
outputs_of (ok r) = r.0
outputs_of _ = []

abbrev end_of : Outcome (List Output × Debugger) → Debugger
end_of (ok r) = r.1
end_of _ = debugger1

-- The instruction puts 5 into ra, which the watchpoint reports.
session_outputs :
    outputs_of session
    ≡ Output.silent
      ∷ Output.silent
      ∷ Output.watchpoints ((0, codes "ra", 5) ∷ [])
      ∷ Output.value 10
      ∷ Output.silent
      ∷ []
unfolding session rules decode decode_operand bits alu_value imm_i sext
session_outputs = refl

session_run : session ≡ ok (outputs_of session, end_of session)
unfolding session rules decode decode_operand bits alu_value imm_i sext
session_run = refl

sdb_mainloop-IsWell_example : IsWell (end_of session)
unfolding session
sdb_mainloop-IsWell_example =
    sdb_mainloop-IsWell config0 [] false lines1 decode2 debugger1 debugger1-IsWell session_run

watched_cpu_exec-cpu_exec_example :
    watched_cpu_exec config0 [] 1 decode2 debugger1
    ≡ (cpu_exec config0 [] 1 decode2 emulator1 >>= (λ e. ok (with_emulator debugger1 e)))
unfolding init_wp_pool
watched_cpu_exec-cpu_exec_example = watched_cpu_exec-cpu_exec config0 [] 1 decode2 debugger1 refl

-- The evaluation of "ra" in the program's memory.
abbrev ra_state : Outcome (ℕ × Evaluation) → Evaluation
ra_state (ok r) = r.1
ra_state _ = evaluation debugger1

ra_value :
    watch_expr config0 [] emulator1.machine.cpu (codes "ra") (evaluation debugger1)
    ≡ ok (
      0,
      ra_state (watch_expr config0 [] emulator1.machine.cpu (codes "ra") (evaluation debugger1)),
    )
unfolding watch_expr rules
ra_value = refl

-- The watchpoint has the old value 3.
ra-Round :
    Round
      (watch_expr config0 [] emulator1.machine.cpu)
      watched
      (0 ∷ [])
      (evaluation debugger1)
      (some (0, 0))
      (ra_state (watch_expr config0 [] emulator1.machine.cpu (codes "ra") (evaluation debugger1)))
unfolding init_wp_pool
ra-Round = changed {i = 0} {v = 0} ra_value (λ e. omega (arith, e))

check_watch_points-report_example :
    check_watch_points (watch_expr config0 [] emulator1.machine.cpu) watched (evaluation debugger1)
    ≡ ok (
        report (some (0, 0)) watched (
          ra_state
            (watch_expr config0 [] emulator1.machine.cpu (codes "ra") (evaluation debugger1))))
check_watch_points-report_example =
    check_watch_points-report (watch_expr config0 [] emulator1.machine.cpu) watched (0 ∷ [])
      (range 31 1) (evaluation debugger1) _ (some (0, 0)) watched-Holds ra-Round
