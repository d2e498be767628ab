-- ===== src/Sdb/Command.antt =====
-- The commands of the debugger: nemu/src/monitor/sdb/sdb.c, with CONFIG_TEST_EXPR not set. The lines
-- that readline hands over are a list; what a command prints is a value.
pub mod Invariant
pub mod Tests
use soc_fpga_bjtu_hwct.Common.{
  ℕ, zero, suc, ◌+◌, ◌-◌, ◌*◌, ◌%◌, ◌^◌, Bool, true, false, Option, none, some, List, [], ◌∷◌, ◌++◌,
  ◌==◌, if◌then◌else◌, get_elem?,
}
use soc_fpga_bjtu_hwct.Common.Outcome.{Outcome, ok, failed, fault, ◌>>=◌}
use soc_fpga_bjtu_hwct.Common.Word.{u32}
use soc_fpga_bjtu_hwct.Common.Int.{ℤ, pos, negsuc, pos_part}
use soc_fpga_bjtu_hwct.Isa.Pattern.{codes}
use soc_fpga_bjtu_hwct.Isa.State.{Cpu, RunState, reg, csr_pr_at}
use soc_fpga_bjtu_hwct.Isa.Exec.{Decode}
use soc_fpga_bjtu_hwct.Memory.Config.{Config}
use soc_fpga_bjtu_hwct.Memory.Paddr.{Memory}
use soc_fpga_bjtu_hwct.Device.Map.{IoMap}
use soc_fpga_bjtu_hwct.Device.Board.{Board, Callback}
use soc_fpga_bjtu_hwct.Cpu.Emulator.{with_state}
use soc_fpga_bjtu_hwct.Sdb.CString.{str_eq, atoi}
use soc_fpga_bjtu_hwct.Sdb.Expr.{ExprResult, expr, is_zero}
use soc_fpga_bjtu_hwct.Sdb.Watch.{add_wp, delete_wp, display_wp}
use soc_fpga_bjtu_hwct.Sdb.Run.{
  Debugger, Evaluation, with_emulator, with_evaluation, evaluation, read_word, watch_expr,
  watched_cpu_exec,
}

-- `strtok` with the blank as the only delimiter: the word at the front, and what is left behind the
-- blank that ends it.
unfoldable pub skip_blanks : List ℕ → List ℕ
skip_blanks [] = []
skip_blanks (c ∷ cs) = let rest = skip_blanks cs in if c == 32 then rest else c ∷ cs

unfoldable pub split_word : List ℕ → List ℕ × List ℕ
split_word [] = ([], [])
split_word (c ∷ cs) =
    let (word, rest) = split_word cs in if c == 32 then ([], cs) else (c ∷ word, rest)

unfoldable pub word_of_line : List ℕ → Option (List ℕ × List ℕ)
unfolding split_word
word_of_line [] = none
word_of_line (c ∷ cs) = some (split_word (c ∷ cs))

unfoldable pub strtok : List ℕ → Option (List ℕ × List ℕ)
unfolding skip_blanks word_of_line
strtok s = word_of_line (skip_blanks s)

-- `args` of a handler: NULL if nothing is left of the line.
abbrev pub args_of : List ℕ → Option (List ℕ)
args_of [] = none
args_of (c ∷ cs) = some (c ∷ cs)

-- What is printed: the registers of `info r`, the watchpoints of `info w`, the words of `x` with
-- their addresses, the value of `p`, the number of a command that `help` describes, or a message.
pub data Output : Type 0 where
  silent : Output
  registers : List ℕ → Output
  watchpoints : List (ℕ × List ℕ × ℕ) → Output
  words : List (ℕ × ℕ) → Output
  value : ℕ → Output
  description : ℕ → Output
  descriptions : Output
  message : Output

-- The general registers, five control registers and the pc, as `isa_reg_display` prints them.
unfoldable pub read_registers : Cpu → ℕ → ℕ → List ℕ
read_registers c zero i = []
read_registers c (suc n) i = reg c i ∷ read_registers c n (i + 1)

unfoldable pub isa_reg_display : Cpu → List ℕ
unfolding read_registers
isa_reg_display c =
    read_registers c 32 0
    ++ (csr_pr_at c 0
        ∷ csr_pr_at c 1
        ∷ csr_pr_at c 2
        ∷ csr_pr_at c 3
        ∷ csr_pr_at c 4
        ∷ c.true_pc
        ∷ [])

-- The result of a handler: if the debugger ends, what is printed, and the state.
abbrev pub Result : Type 0
Result = Bool × Output × Debugger

-- `(uint64_t)z`
unfoldable pub u64_of : ℤ → ℕ
u64_of (pos n) = n % 2 ^ 64
u64_of (negsuc n) = 2 ^ 64 - 1 - n % 2 ^ 64

unfoldable pub cmd_q : Debugger → Result
cmd_q d = (true, silent, with_emulator d (with_state d.emulator RunState.quit))

unfoldable pub cmd_info : Option (List ℕ) → Debugger → Outcome Result
unfolding str_eq isa_reg_display display_wp
cmd_info none d = fault
cmd_info (some args) d =
    if str_eq args (codes "r")
    then ok (false, registers (isa_reg_display d.emulator.machine.cpu), d)
    else if str_eq args (codes "w")
    then (display_wp d.wp >>= (λ ws. ok (false, watchpoints ws, d)))
    else ok (false, message, d)

-- `atoi` of a number that selects an element of an array; a negative one is outside of it.
unfoldable pub cmd_d : Option (List ℕ) → Debugger → Outcome Result
unfolding atoi delete_wp
cmd_d none d = fault
cmd_d (some args) d = elim (atoi args) [
  | pos index ↦ delete_wp index d.wp >>= (λ w. ok (false, silent, record d { wp = w }))
  | negsuc _ ↦ fault
]

-- The number of a command in the table.
unfoldable pub cmd_table : List (List ℕ)
cmd_table =
    codes "help"
    ∷ codes "c"
    ∷ codes "q"
    ∷ codes "info"
    ∷ codes "x"
    ∷ codes "si"
    ∷ codes "p"
    ∷ codes "w"
    ∷ codes "d"
    ∷ []

unfoldable pub find_command : List ℕ → List (List ℕ) → ℕ → Option ℕ
unfolding str_eq
find_command cmd [] i = none
find_command cmd (name ∷ names) i =
    let rest = find_command cmd names (i + 1) in if str_eq cmd name then some i else rest

unfoldable pub help_about : Option (List ℕ × List ℕ) → Output
unfolding find_command cmd_table
help_about none = descriptions
help_about (some (arg, rest)) = elim (find_command arg cmd_table 0) [
  | some i ↦ description i
  | none ↦ message
]

unfoldable pub cmd_help : List ℕ → Debugger → Result
unfolding strtok help_about
cmd_help line d = (false, help_about (strtok line), d)

module _ (cfg : Config) (maps : List (IoMap Callback)) where
  -- `s` is what the uninitialised `Decode` of `execute` holds.
  unfoldable pub run_for : ℕ → Decode → Debugger → Outcome Result
  unfolding watched_cpu_exec
  run_for n s d = watched_cpu_exec cfg maps n s d >>= (λ d'. ok (false, silent, d'))

  unfoldable pub cmd_c : Decode → Debugger → Outcome Result
  unfolding run_for
  cmd_c s d = run_for (2 ^ 64 - 1) s d

  unfoldable pub cmd_si : Option (List ℕ) → Decode → Debugger → Outcome Result
  unfolding atoi is_zero u64_of run_for
  cmd_si none s d = run_for 1 s d
  cmd_si (some args) s d =
      if is_zero (atoi args) then ok (false, message, d) else run_for (u64_of (atoi args)) s d

  -- The loop of `cmd_x` over `n` words from the `i`th on.
  unfoldable pub read_words : ℕ → ℕ → ℕ → Memory Board → Outcome (List (ℕ × ℕ) × Memory Board)
  unfolding read_word
  read_words zero addr i m = ok ([], m)
  read_words (suc n) addr i m = do
    (w, m') ← read_word cfg maps (u32 (addr + i * 4)) m
    (ws, m'') ← read_words n addr (i + 1) m'
    ok ((u32 (addr + i * 4), w) ∷ ws, m'')

  unfoldable pub cmd_expr : List ℕ → Debugger → Outcome (ExprResult (Memory Board))
  unfolding expr read_word
  cmd_expr args d =
      expr (read_word cfg maps) d.emulator.machine.cpu args d.tokens d.emulator.machine.mem

  -- The second word is the expression for the address.
  unfoldable pub examine : ℕ → Option (List ℕ × List ℕ) → Debugger → Outcome Result
  unfolding cmd_expr read_words
  examine n none d = fault
  examine n (some (arg, rest)) d = do
    r ← cmd_expr arg d
    (ws, m) ← read_words n r.value 0 r.state
    ok (false, words ws, with_evaluation d (r.left, m))

  unfoldable pub cmd_x_words : Option (List ℕ × List ℕ) → Debugger → Outcome Result
  unfolding atoi strtok examine
  cmd_x_words none d = fault
  cmd_x_words (some (count_word, rest)) d = examine (pos_part (atoi count_word)) (strtok rest) d

  unfoldable pub cmd_x : List ℕ → Debugger → Outcome Result
  unfolding strtok cmd_x_words
  cmd_x line d = cmd_x_words (strtok line) d

  unfoldable pub cmd_p : Option (List ℕ) → Debugger → Outcome Result
  unfolding cmd_expr
  cmd_p none d = fault
  cmd_p (some args) d = do
    r ← cmd_expr args d
    ok (false, (if r.success then value r.value else silent), with_evaluation d (r.left, r.state))

  unfoldable pub cmd_w : Option (List ℕ) → Debugger → Outcome Result
  unfolding add_wp watch_expr
  cmd_w none d = fault
  cmd_w (some args) d = do
    (done, w, s) ← add_wp (watch_expr cfg maps d.emulator.machine.cpu) args d.wp (evaluation d)
    ok (false, (if done == 1 then silent else message), with_evaluation (record d { wp = w }) s)

  -- The handler of a number of the table, on what the line holds behind the command.
  unfoldable pub handler : ℕ → List ℕ → Decode → Debugger → Outcome Result
  unfolding cmd_help cmd_c cmd_q cmd_info cmd_x cmd_si cmd_p cmd_w cmd_d
  handler i rest s d =
      if i == 0
      then ok (cmd_help rest d)
      else if i == 1
      then cmd_c s d
      else if i == 2
      then ok (cmd_q d)
      else if i == 3
      then cmd_info (args_of rest) d
      else if i == 4
      then cmd_x rest d
      else if i == 5
      then cmd_si (args_of rest) s d
      else if i == 6
      then cmd_p (args_of rest) d
      else if i == 7
      then cmd_w (args_of rest) d
      else cmd_d (args_of rest) d

  unfoldable pub run_command : Option ℕ → List ℕ → Decode → Debugger → Outcome Result
  unfolding handler
  run_command none rest s d = ok (false, message, d)
  run_command (some i) rest s d = handler i rest s d

  -- One line: an empty one is skipped.
  unfoldable pub run_line : Option (List ℕ × List ℕ) → Decode → Debugger → Outcome Result
  unfolding find_command cmd_table run_command
  run_line none s d = ok (false, silent, d)
  run_line (some (cmd, rest)) s d = run_command (find_command cmd cmd_table 0) rest s d

  unfoldable pub run_lines : List (List ℕ) → Decode → Debugger → Outcome (List Output × Debugger)
  unfolding strtok run_line
  run_lines [] s d = ok ([], d)
  run_lines (line ∷ lines) s d = run_line (strtok line) s d >>= (λ r. elim (r.0) [
    | true ↦ ok (r.1 ∷ [], r.2)
    | false ↦ run_lines lines s r.2 >>= (λ rest. ok (r.1 ∷ rest.0, rest.1))
  ])

  unfoldable pub sdb_mainloop :
      Bool → List (List ℕ) → Decode → Debugger → Outcome (List Output × Debugger)
  unfolding cmd_c run_lines
  sdb_mainloop is_batch_mode lines s d =
      if is_batch_mode then (cmd_c s d >>= (λ r. ok (r.1 ∷ [], r.2))) else run_lines lines s d
