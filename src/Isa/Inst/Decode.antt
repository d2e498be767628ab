-- ===== src/Isa/Inst/Decode.antt =====
-- The whole table of nemu/src/isa/riscv32/inst.c, line by line, against the fields that it tests.
use soc_fpga_bjtu_hwct.Common.{ℕ, ◌^◌, ◌<◌, ◌≡◌, refl, List, Option, none, some, arith}
use soc_fpga_bjtu_hwct.Common.{Bool-cases, inl, inr}
use soc_fpga_bjtu_hwct.Common.Outcome.{ok}
use soc_fpga_bjtu_hwct.Isa.Pattern.{pattern_decode}
use soc_fpga_bjtu_hwct.Isa.Operand.{Format}
use soc_fpga_bjtu_hwct.Isa.Inst.{Inst, Entry, table, select, decode}
use soc_fpga_bjtu_hwct.Isa.Inst.Fields.{Row, opcode_map, look_up, has_fields, IsMap, nil, row}
use soc_fpga_bjtu_hwct.Isa.Inst.Fields.{opcode-matches, funct3-matches, funct7-matches}
use soc_fpga_bjtu_hwct.Isa.Inst.Fields.{whole-matches, any-matches}

table-IsMap : IsMap table opcode_map
unfolding pattern_decode
table-IsMap = row _ refl (opcode-matches 0x37 (omega arith)) (
    row _ refl (opcode-matches 0x17 (omega arith)) (
      row _ refl (funct3-matches 0x63 0 (omega arith)) (
        row _ refl (funct3-matches 0x63 1 (omega arith)) (
          row _ refl (funct3-matches 0x63 4 (omega arith)) (
            row _ refl (funct3-matches 0x63 5 (omega arith)) (
              row _ refl (funct3-matches 0x63 6 (omega arith)) (
                row _ refl (funct3-matches 0x63 7 (omega arith)) (
                  row _ refl (funct3-matches 0x23 0 (omega arith)) (
                    row _ refl (funct3-matches 0x23 2 (omega arith)) (
                      row _ refl (funct3-matches 0x23 1 (omega arith)) (
                        row _ refl (opcode-matches 0x6f (omega arith)) (
                          row _ refl (funct3-matches 0x67 0 (omega arith)) (
                            row _ refl (whole-matches 0x100073) (
                              row _ refl (whole-matches 0x73) (
                                row _ refl (funct3-matches 0x73 1 (omega arith)) (
                                  row _ refl (funct3-matches 0x73 2 (omega arith)) (
                                    row _ refl (funct3-matches 0x73 3 (omega arith)) (
                                      row _ refl (funct3-matches 0x73 5 (omega arith)) (
                                        row _ refl (funct3-matches 0x73 6 (omega arith)) (
                                          row _ refl (funct3-matches 0x73 7 (omega arith)) (
                                            row _ refl (whole-matches 0x30200073) (
                                              row _ refl (funct3-matches 0x13 0 (omega arith)) (
                                                row _ refl (funct3-matches 0x13 2 (omega arith)) (
                                                  row _ refl (funct3-matches 0x13 3 (omega arith)) (
                                                    row _ refl (funct3-matches 0x13 4 (omega arith))
                                                      (row _ refl
                                                        (funct3-matches 0x13 6 (omega arith))
                                                        (row _ refl
                                                          (funct3-matches 0x13 7 (omega arith))
                                                          (row _ refl
                                                            (funct7-matches 0x13 1 0x0
                                                            (omega arith))
                                                            (row _ refl
                                                            (funct7-matches 0x13 5 0x0
                                                            (omega arith))
                                                            (row _ refl
                                                            (funct7-matches 0x13 5 0x20
                                                            (omega arith))
                                                            (row _ refl
                                                            (funct3-matches 0x3 0 (omega arith))
                                                            (row _ refl
                                                            (funct3-matches 0x3 1 (omega arith))
                                                            (row _ refl
                                                            (funct3-matches 0x3 2 (omega arith))
                                                            (row _ refl
                                                            (funct3-matches 0x3 4 (omega arith))
                                                            (row _ refl
                                                            (funct3-matches 0x3 5 (omega arith))
                                                            (row _ refl
                                                            (funct7-matches 0x33 0 0x0
                                                            (omega arith))
                                                            (row _ refl
                                                            (funct7-matches 0x33 0 0x20
                                                            (omega arith))
                                                            (row _ refl
                                                            (funct7-matches 0x33 1 0x0
                                                            (omega arith))
                                                            (row _ refl
                                                            (funct7-matches 0x33 2 0x0
                                                            (omega arith))
                                                            (row _ refl
                                                            (funct7-matches 0x33 3 0x0
                                                            (omega arith))
                                                            (row _ refl
                                                            (funct7-matches 0x33 4 0x0
                                                            (omega arith))
                                                            (row _ refl
                                                            (funct7-matches 0x33 5 0x0
                                                            (omega arith))
                                                            (row _ refl
                                                            (funct7-matches 0x33 5 0x20
                                                            (omega arith))
                                                            (row _ refl
                                                            (funct7-matches 0x33 6 0x0
                                                            (omega arith))
                                                            (row _ refl
                                                            (funct7-matches 0x33 7 0x0
                                                            (omega arith))
                                                            (row _ refl
                                                            (funct7-matches 0x33 0 0x1
                                                            (omega arith))
                                                            (row _ refl
                                                            (funct7-matches 0x33 1 0x1
                                                            (omega arith))
                                                            (row _ refl
                                                            (funct7-matches 0x33 2 0x1
                                                            (omega arith))
                                                            (row _ refl
                                                            (funct7-matches 0x33 3 0x1
                                                            (omega arith))
                                                            (row _ refl
                                                            (funct7-matches 0x33 4 0x1
                                                            (omega arith))
                                                            (row _ refl
                                                            (funct7-matches 0x33 5 0x1
                                                            (omega arith))
                                                            (row _ refl
                                                            (funct7-matches 0x33 6 0x1
                                                            (omega arith))
                                                            (row _ refl
                                                            (funct7-matches 0x33 7 0x1
                                                            (omega arith))
                                                            (row _ refl any-matches nil)))))))))))))
                                                            ))))))))))))))))))))))))))))))))))))))))
                                                            )

-- What an entry says, as a row says it.
abbrev pub chosen : Option Entry → Option (Inst × Format)
chosen none = none
chosen (some e) = some (e.inst, e.format)

select-look_up :
    {es : List Entry} {rows : List Row} (w : ℕ)
    → w < 2 ^ 32
    → IsMap es rows
    → (o : Option Entry) × (select es w ≡ ok o) × (chosen o ≡ look_up rows w)
unfolding select
select-look_up w fits nil = (none, refl, refl)
select-look_up w fits (row {e} {f} {es} {rows} p decoded same rest) =
    let (o, s, c) = select-look_up w fits rest in
    elim (Bool-cases (has_fields f w)) [
      | inl hit ↦ (some e, rw (decoded, same w fits, hit), rw hit)
      | inr miss ↦ (o, rw (decoded, same w fits, miss) s, rw miss c)
    ]

-- On every 32-bit word the table of patterns, tried in its order, selects the instruction and the
-- format of the first row whose fields the word has.
pub decode-look_up :
    (w : ℕ)
    → w < 2 ^ 32
    → (o : Option Entry) × (decode w ≡ ok o) × (chosen o ≡ look_up opcode_map w)
unfolding decode
decode-look_up w fits = select-look_up w fits table-IsMap
