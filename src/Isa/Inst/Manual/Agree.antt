-- ===== src/Isa/Inst/Manual/Agree.antt =====
-- The table of nemu/src/isa/riscv32/inst.c against the manual's listing.
use soc_fpga_bjtu_hwct.Common.{
  ℕ, ◌^◌, ◌<◌, ◌≡◌, ◌∙◌, refl, sym, Bool, true, false, List, [], ◌∷◌, Option, none, some, arith,
  ◌==◌, ◌&&◌, if◌then◌else◌, Bool-cases, inl, inr, ==_iff, if_same,
}
use mathlib.Core.Path.{subst}
use soc_fpga_bjtu_hwct.Common.Outcome.{ok}
use soc_fpga_bjtu_hwct.Isa.Operand.{Format}
use soc_fpga_bjtu_hwct.Isa.Inst.{Inst, Entry, decode}
use soc_fpga_bjtu_hwct.Isa.Inst.Fields.{
  Fields, opcode_is, funct3_is, funct7_is, whole, any_word, opcode, funct3, funct7, Row, opcode_map,
  look_up,
}
use soc_fpga_bjtu_hwct.Isa.Inst.Decode.{chosen, decode-look_up}
use soc_fpga_bjtu_hwct.Isa.Inst.Manual.{major, manual, executed_as}

abbrev has_at : Fields → ℕ → ℕ → ℕ → (ℕ → Bool) → Bool
has_at (opcode_is o) op f3 f7 is_word = op == o
has_at (funct3_is o f) op f3 f7 is_word = (op == o) && (f3 == f)
has_at (funct7_is o f g) op f3 f7 is_word = (op == o) && (f3 == f) && (f7 == g)
has_at (whole k) op f3 f7 is_word = is_word k
has_at any_word op f3 f7 is_word = true

abbrev look_at : List Row → ℕ → ℕ → ℕ → (ℕ → Bool) → Option (Inst × Format)
look_at [] op f3 f7 is_word = none
look_at ((i, f, p) ∷ rows) op f3 f7 is_word =
    if has_at p op f3 f7 is_word then some (i, f) else look_at rows op f3 f7 is_word

-- The two maps agree at these fields.
abbrev Agree : ℕ → ℕ → ℕ → (ℕ → Bool) → Type 0
Agree op f3 f7 is_word = look_at opcode_map op f3 f7 is_word ≡ executed_as (major op f3 f7 is_word)

-- The word is none of the three that are compared as a whole.
record IsOther (is_word : ℕ → Bool) : Type 0 where
  not_ebreak : is_word 0x00100073 ≡ false
  not_ecall : is_word 0x00000073 ≡ false
  not_mret : is_word 0x30200073 ≡ false

module _ (f3 f7 : ℕ) (is_word : ℕ → Bool) (o : IsOther is_word) where
  load-Agree : Agree 0x03 f3 f7 is_word
  load-Agree = rw (o.not_ebreak, o.not_ecall, o.not_mret) (ground arith)

  fence-Agree : Agree 0x0f f3 f7 is_word
  fence-Agree = rw (o.not_ebreak, o.not_ecall, o.not_mret) (ground arith)

  op_imm-Agree : Agree 0x13 f3 f7 is_word
  op_imm-Agree = rw (o.not_ebreak, o.not_ecall, o.not_mret) (ground arith)

  store-Agree : Agree 0x23 f3 f7 is_word
  store-Agree = rw (o.not_ebreak, o.not_ecall, o.not_mret) (ground arith)

  op-Agree : Agree 0x33 f3 f7 is_word
  op-Agree = rw (o.not_ebreak, o.not_ecall, o.not_mret) (ground arith)

  auipc-Agree : Agree 0x17 f3 f7 is_word
  auipc-Agree = refl

  lui-Agree : Agree 0x37 f3 f7 is_word
  lui-Agree = refl

  branch-Agree : Agree 0x63 f3 f7 is_word
  branch-Agree = rw (o.not_ebreak, o.not_ecall, o.not_mret) (ground arith)

  jalr-Agree : Agree 0x67 f3 f7 is_word
  jalr-Agree = rw (o.not_ebreak, o.not_ecall, o.not_mret) (ground arith)

  jal-Agree : Agree 0x6f f3 f7 is_word
  jal-Agree = refl

  -- A SYSTEM instruction with a funct3.
  csr-Agree : (f3 == 0) ≡ false → Agree 0x73 f3 f7 is_word
  csr-Agree h = rw (o.not_ebreak, o.not_ecall, o.not_mret) (ground arith)

system-Agree : (f7 w : ℕ) → Agree 0x73 0 f7 (λ k. w == k)
system-Agree f7 w = ground arith

-- Opcodes that the manual leaves to extensions.
unlisted-Agree :
    (op f3 f7 : ℕ) (is_word : ℕ → Bool)
    → IsOther is_word
    → (op == 0x03) ≡ false
    → (op == 0x0f) ≡ false
    → (op == 0x13) ≡ false
    → (op == 0x17) ≡ false
    → (op == 0x23) ≡ false
    → (op == 0x33) ≡ false
    → (op == 0x37) ≡ false
    → (op == 0x63) ≡ false
    → (op == 0x67) ≡ false
    → (op == 0x6f) ≡ false
    → (op == 0x73) ≡ false
    → Agree op f3 f7 is_word
unlisted-Agree op f3 f7 is_word o not_load not_fence not_imm not_auipc not_store not_op not_lui
      not_branch not_jalr not_jal not_system =
    rw
      (
        o.not_ebreak, o.not_ecall, o.not_mret, not_load, not_fence, not_imm, not_auipc, not_store,
        not_op, not_lui, not_branch, not_jalr, not_jal, not_system,
      )
      refl

-- A test on the opcode is decided: it is this one, or the test fails.
by_test {ℓ} : (P : ℕ → Type ℓ) (a k : ℕ) → P k → ((a == k) ≡ false → P a) → P a
by_test P a k here there = elim (Bool-cases (a == k)) [
  | inl hit ↦ subst P (sym ((==_iff a k).0 hit)) here
  | inr miss ↦ there miss
]

module _ (f3 f7 : ℕ) (is_word : ℕ → Bool) (o : IsOther is_word) where
  by_opcode : (op : ℕ) → (op == 0x73) ≡ false → Agree op f3 f7 is_word
  by_opcode op not_system =
      let P : ℕ → Type 0 = λ k. Agree k f3 f7 is_word in
      by_test P op 0x03 (load-Agree f3 f7 is_word o) (λ not_load.
        by_test P op 0x0f (fence-Agree f3 f7 is_word o) (λ not_fence.
          by_test P op 0x13 (op_imm-Agree f3 f7 is_word o) (λ not_imm.
            by_test P op 0x17 (auipc-Agree f3 f7 is_word o) (λ not_auipc.
              by_test P op 0x23 (store-Agree f3 f7 is_word o) (λ not_store.
                by_test P op 0x33 (op-Agree f3 f7 is_word o) (λ not_op.
                  by_test P op 0x37 (lui-Agree f3 f7 is_word o) (λ not_lui.
                    by_test P op 0x63 (branch-Agree f3 f7 is_word o) (λ not_branch.
                      by_test P op 0x67 (jalr-Agree f3 f7 is_word o) (λ not_jalr.
                        by_test P op 0x6f (jal-Agree f3 f7 is_word o) (λ not_jal.
                          unlisted-Agree op f3 f7 is_word o not_load not_fence not_imm not_auipc
                            not_store not_op not_lui not_branch not_jalr not_jal
                            not_system))))))))))

opcode-IsOther : (w : ℕ) → (opcode w == 0x73) ≡ false → IsOther (λ k. w == k)
opcode-IsOther w h = record {
  not_ebreak = ground arith;
  not_ecall = ground arith;
  not_mret = ground arith;
}

funct3-IsOther : (w : ℕ) → (funct3 w == 0) ≡ false → IsOther (λ k. w == k)
funct3-IsOther w h = record {
  not_ebreak = ground arith;
  not_ecall = ground arith;
  not_mret = ground arith;
}

word-Agree : (w : ℕ) → Agree (opcode w) (funct3 w) (funct7 w) (λ k. w == k)
word-Agree w =
    let f3 = funct3 w in
    let f7 = funct7 w in
    let is_word : ℕ → Bool = λ k. w == k in
    by_test (λ op. Agree op f3 f7 is_word) (opcode w) 0x73
      (by_test (λ f. Agree 0x73 f f7 is_word) f3 0 (system-Agree f7 w)
        (λ h. csr-Agree f3 f7 is_word (funct3-IsOther w h) h))
      (λ not_system. by_opcode f3 f7 is_word (opcode-IsOther w not_system) (opcode w) not_system)

look_up-look_at :
    (rows : List Row) (w : ℕ)
    → look_up rows w ≡ look_at rows (opcode w) (funct3 w) (funct7 w) (λ k. w == k)
look_up-look_at [] w = refl
look_up-look_at ((i, f, opcode_is o) ∷ rows) w =
    if_same (opcode w == o) (λ _. refl) (λ _. look_up-look_at rows w)
look_up-look_at ((i, f, funct3_is o g) ∷ rows) w =
    if_same ((opcode w == o) && (funct3 w == g)) (λ _. refl) (λ _. look_up-look_at rows w)
look_up-look_at ((i, f, funct7_is o g h) ∷ rows) w =
    if_same ((opcode w == o) && (funct3 w == g) && (funct7 w == h)) (λ _. refl)
      (λ _. look_up-look_at rows w)
look_up-look_at ((i, f, whole k) ∷ rows) w =
    if_same (w == k) (λ _. refl) (λ _. look_up-look_at rows w)
look_up-look_at ((i, f, any_word) ∷ rows) w = refl

-- On every 32-bit word the table of patterns, tried in its order, selects the instruction and the
-- format that the manual's listing of RV32IM, Zicsr and MRET gives by opcode, funct3 and funct7; but
-- FENCE, like the words that the listing does not know, selects the invalid instruction.
pub decode-manual :
    (w : ℕ)
    → w < 2 ^ 32
    → (o : Option Entry) × (decode w ≡ ok o) × (chosen o ≡ executed_as (manual w))
decode-manual w fits =
    let (o, run, same) = decode-look_up w fits in
    (o, run, same ∙ look_up-look_at opcode_map w ∙ word-Agree w)
