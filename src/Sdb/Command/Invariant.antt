-- ===== src/Sdb/Command/Invariant.antt =====
-- No command of nemu/src/monitor/sdb/sdb.c breaks the state of the emulator or of the debugger.
use soc_fpga_bjtu_hwct.Common.{
  ℕ, ◌^◌, ◌-◌, ◌≡◌, Bool, true, false, Option, none, some, List, [], ◌∷◌, ◌==◌, if_both,
}
use soc_fpga_bjtu_hwct.Common.Int.{pos, negsuc, pos_part}
use soc_fpga_bjtu_hwct.Common.Outcome.{
  Outcome, ok, fault, ◌>>=◌, Ensures, Ensures-bind, Ensures-then, Ensures-elim,
}
use soc_fpga_bjtu_hwct.Isa.Pattern.{codes}
use soc_fpga_bjtu_hwct.Isa.Exec.{Decode}
use soc_fpga_bjtu_hwct.Memory.Config.{Config}
use soc_fpga_bjtu_hwct.Memory.Paddr.{Memory}
use soc_fpga_bjtu_hwct.Device.Map.{IoMap}
use soc_fpga_bjtu_hwct.Device.Board.{Board, Callback}
use soc_fpga_bjtu_hwct.Sdb.CString.{str_eq, atoi}
use soc_fpga_bjtu_hwct.Sdb.Token.Scan.{IsTokens}
use soc_fpga_bjtu_hwct.Sdb.Expr.{ExprResult, is_zero}
use soc_fpga_bjtu_hwct.Sdb.Expr.Kept.{expr-IsTokens}
use soc_fpga_bjtu_hwct.Sdb.Watch.{delete_wp, display_wp, add_wp}
use soc_fpga_bjtu_hwct.Sdb.Watch.Kept.{IsPool, Kept, delete_wp-IsPool, add_wp-Kept}
use soc_fpga_bjtu_hwct.Sdb.Run.{Debugger, evaluation, read_word, watch_expr, watched_cpu_exec}
use soc_fpga_bjtu_hwct.Sdb.Run.Invariant.{
  IsWell, HasTokens, watch_expr-HasTokens, watched_cpu_exec-IsWell,
}
use soc_fpga_bjtu_hwct.Sdb.Command.{
  Output, Result, args_of, cmd_q, cmd_info, cmd_d, cmd_help, cmd_table, find_command, run_for,
  cmd_c, cmd_si, read_words, cmd_expr, examine, cmd_x_words, cmd_x, cmd_p, cmd_w, handler,
  run_command, run_line, run_lines, sdb_mainloop, strtok, u64_of,
}

abbrev Leaves : Result → Type 0
Leaves r = IsWell r.2

cmd_q-Leaves : (d : Debugger) → IsWell d → Leaves (cmd_q d)
unfolding cmd_q
cmd_q-Leaves d v = record { registers = v.registers; tokens = v.tokens; pool = v.pool }

cmd_info-Leaves :
    (args : Option (List ℕ)) (d : Debugger) → IsWell d → Ensures Leaves (cmd_info args d)
unfolding cmd_info
cmd_info-Leaves none d v = tt
cmd_info-Leaves (some args) d v = if_both (Ensures Leaves) (str_eq args (codes "r")) v (
    if_both (Ensures Leaves) (str_eq args (codes "w"))
      (Ensures-then Leaves (display_wp d.wp) _ (λ ws. v)) v)

cmd_d-Leaves : (args : Option (List ℕ)) (d : Debugger) → IsWell d → Ensures Leaves (cmd_d args d)
unfolding cmd_d
cmd_d-Leaves none d v = tt
cmd_d-Leaves (some args) d v =
    elim (atoi args)
      as (λ z. Ensures Leaves (elim z [
        | pos index ↦ delete_wp index d.wp >>= (λ w. ok (false, Output.silent, record d { wp = w }))
        | negsuc _ ↦ fault
      ])) [
        | pos index ↦
            Ensures-bind IsPool Leaves (delete_wp index d.wp) _ (delete_wp-IsPool index d.wp v.pool)
              (λ w p. record { registers = v.registers; tokens = v.tokens; pool = p })
        | negsuc _ ↦ tt
      ]

module _ (cfg : Config) (maps : List (IoMap Callback)) where
  run_for-Leaves :
      (n : ℕ) (s : Decode) (d : Debugger) → IsWell d → Ensures Leaves (run_for cfg maps n s d)
  unfolding run_for
  run_for-Leaves n s d v =
      Ensures-bind IsWell Leaves (watched_cpu_exec cfg maps n s d) _
        (watched_cpu_exec-IsWell cfg maps n s d v) (λ d' v'. v')

  cmd_c-Leaves : (s : Decode) (d : Debugger) → IsWell d → Ensures Leaves (cmd_c cfg maps s d)
  unfolding cmd_c
  cmd_c-Leaves s d v = run_for-Leaves (2 ^ 64 - 1) s d v

  cmd_si-Leaves :
      (args : Option (List ℕ)) (s : Decode) (d : Debugger)
      → IsWell d
      → Ensures Leaves (cmd_si cfg maps args s d)
  unfolding cmd_si
  cmd_si-Leaves none s d v = run_for-Leaves 1 s d v
  cmd_si-Leaves (some args) s d v =
      if_both (Ensures Leaves) (is_zero (atoi args)) v (run_for-Leaves (u64_of (atoi args)) s d v)

  abbrev LeavesWell : ExprResult (Memory Board) → Type 0
  LeavesWell r = IsTokens r.left

  cmd_expr-LeavesWell :
      (args : List ℕ) (d : Debugger) → IsWell d → Ensures LeavesWell (cmd_expr cfg maps args d)
  unfolding cmd_expr
  cmd_expr-LeavesWell args d v =
      expr-IsTokens (read_word cfg maps) d.emulator.machine.cpu args d.tokens d.emulator.machine.mem
        v.tokens

  examine-Leaves :
      (n : ℕ) (word : Option (List ℕ × List ℕ)) (d : Debugger)
      → IsWell d
      → Ensures Leaves (examine cfg maps n word d)
  unfolding examine
  examine-Leaves n none d v = tt
  examine-Leaves n (some (arg, rest)) d v =
      Ensures-bind LeavesWell Leaves (cmd_expr cfg maps arg d) _ (cmd_expr-LeavesWell arg d v)
        (λ r h.
          Ensures-then Leaves (read_words cfg maps n r.value 0 r.state) _
            (λ ws. record { registers = v.registers; tokens = h; pool = v.pool }))

  cmd_x_words-Leaves :
      (word : Option (List ℕ × List ℕ)) (d : Debugger)
      → IsWell d
      → Ensures Leaves (cmd_x_words cfg maps word d)
  unfolding cmd_x_words
  cmd_x_words-Leaves none d v = tt
  cmd_x_words-Leaves (some (count_word, rest)) d v =
      examine-Leaves (pos_part (atoi count_word)) (strtok rest) d v

  cmd_p-Leaves :
      (args : Option (List ℕ)) (d : Debugger) → IsWell d → Ensures Leaves (cmd_p cfg maps args d)
  unfolding cmd_p
  cmd_p-Leaves none d v = tt
  cmd_p-Leaves (some args) d v =
      Ensures-bind LeavesWell Leaves (cmd_expr cfg maps args d) _ (cmd_expr-LeavesWell args d v)
        (λ r h. record { registers = v.registers; tokens = h; pool = v.pool })

  cmd_w-Leaves :
      (args : Option (List ℕ)) (d : Debugger) → IsWell d → Ensures Leaves (cmd_w cfg maps args d)
  unfolding cmd_w
  cmd_w-Leaves none d v = tt
  cmd_w-Leaves (some args) d v =
      let e = watch_expr cfg maps d.emulator.machine.cpu in
      let keeps = watch_expr-HasTokens cfg maps d.emulator.machine.cpu in
      Ensures-bind (Kept e HasTokens keeps) Leaves (add_wp e args d.wp (evaluation d)) _
        (add_wp-Kept e HasTokens keeps args d.wp (evaluation d) v.pool v.tokens)
        (λ r h. record { registers = v.registers; tokens = h.1; pool = h.0 })

  handler-Leaves :
      (i : ℕ) (rest : List ℕ) (s : Decode) (d : Debugger)
      → IsWell d
      → Ensures Leaves (handler cfg maps i rest s d)
  unfolding handler cmd_help cmd_x
  handler-Leaves i rest s d v =
      let P : Outcome Result → Type 0 = Ensures Leaves in
      if_both P (i == 0) v (
        if_both P (i == 1) (cmd_c-Leaves s d v) (
          if_both P (i == 2) (cmd_q-Leaves d v) (
            if_both P (i == 3) (cmd_info-Leaves (args_of rest) d v) (
              if_both P (i == 4) (cmd_x_words-Leaves (strtok rest) d v) (
                if_both P (i == 5) (cmd_si-Leaves (args_of rest) s d v) (
                  if_both P (i == 6) (cmd_p-Leaves (args_of rest) d v) (
                    if_both P (i == 7) (cmd_w-Leaves (args_of rest) d v)
                      (cmd_d-Leaves (args_of rest) d v))))))))

  run_command-Leaves :
      (command : Option ℕ) (rest : List ℕ) (s : Decode) (d : Debugger)
      → IsWell d
      → Ensures Leaves (run_command cfg maps command rest s d)
  unfolding run_command
  run_command-Leaves none rest s d v = v
  run_command-Leaves (some i) rest s d v = handler-Leaves i rest s d v

  run_line-Leaves :
      (word : Option (List ℕ × List ℕ)) (s : Decode) (d : Debugger)
      → IsWell d
      → Ensures Leaves (run_line cfg maps word s d)
  unfolding run_line
  run_line-Leaves none s d v = v
  run_line-Leaves (some (cmd, rest)) s d v =
      run_command-Leaves (find_command cmd cmd_table 0) rest s d v

  abbrev Ends : List Output × Debugger → Type 0
  Ends r = IsWell r.1

  run_lines-Ends :
      (lines : List (List ℕ)) (s : Decode) (d : Debugger)
      → IsWell d
      → Ensures Ends (run_lines cfg maps lines s d)
  unfolding run_lines
  run_lines-Ends [] s d v = v
  run_lines-Ends (line ∷ lines) s d v =
      Ensures-bind Leaves Ends (run_line cfg maps (strtok line) s d) _
        (run_line-Leaves (strtok line) s d v)
        (λ (quits, out, d') v'.
          elim quits
            as (λ b. Ensures Ends (elim b [
              | true ↦ ok (out ∷ [], d')
              | false ↦ run_lines cfg maps lines s d' >>= (λ rest. ok (out ∷ rest.0, rest.1))
            ])) [
              | true ↦ v'
              | false ↦
                  Ensures-bind Ends Ends (run_lines cfg maps lines s d') _
                    (run_lines-Ends lines s d' v') (λ rest v''. v'')
            ])

  -- Whatever lines the user types, in batch mode or not: if the debugger ends normally, the registers
  -- are well-formed, the tokens stay inside of their arrays, and the pool of watchpoints still
  -- consists of its two lists.
  pub sdb_mainloop-IsWell :
      (is_batch_mode : Bool) (lines : List (List ℕ)) (s : Decode) (d : Debugger)
      {outputs : List Output} {d' : Debugger}
      → IsWell d
      → sdb_mainloop cfg maps is_batch_mode lines s d ≡ ok (outputs, d')
      → IsWell d'
  unfolding sdb_mainloop
  sdb_mainloop-IsWell is_batch_mode lines s d v run =
      Ensures-elim Ends (sdb_mainloop cfg maps is_batch_mode lines s d)
        (if_both (Ensures Ends) is_batch_mode
          (Ensures-bind Leaves Ends (cmd_c cfg maps s d) _ (cmd_c-Leaves s d v) (λ r v'. v'))
          (run_lines-Ends lines s d v))
        run
