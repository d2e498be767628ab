-- ===== src/Isa/Exec/Progress.antt =====
-- An instruction runs to its end as long as the memory system answers.
use soc_fpga_bjtu_hwct.Common.{
  ℕ, ◌+◌, ◌-◌, ◌^◌, ◌≡◌, refl, arith, Bool, true, false, ◌&&◌, not, List, [], ◌∷◌, Option, none,
  some, Bool-cases, inl, inr, ◌∙◌, sym, ◌⊎◌,
}
use mathlib.Core.Path.{subst}
use soc_fpga_bjtu_hwct.Common.Outcome.{Outcome, ok, failed, fault, Returns, Returns-bind}
use soc_fpga_bjtu_hwct.Common.Word.{u32, IsWord}
use soc_fpga_bjtu_hwct.Isa.State.{Cpu, RunState, Bus, Machine}
use soc_fpga_bjtu_hwct.Isa.Inst.{Inst, Entry, store, load, inv, decode}
use soc_fpga_bjtu_hwct.Isa.Inst.Fields.{Row, opcode_map, look_up, has_fields}
use soc_fpga_bjtu_hwct.Isa.Inst.Decode.{chosen, decode-look_up}
use soc_fpga_bjtu_hwct.Isa.Operand.{Format, Operands, decode_operand}
use soc_fpga_bjtu_hwct.Isa.Exec.{
  Decode, store_len, load_len, inst_fetch, invalid_inst, exec_inst, exec_entry, set_nemu_state,
  decode_exec, isa_exec_once,
}
use soc_fpga_bjtu_hwct.Isa.Exec.Invariant.{IsWordBus}

abbrev is_m : Format → Bool
is_m Format.m = true
is_m _ = false

no_m : List Row → Bool
no_m [] = true
no_m ((i, f, p) ∷ rows) = not (is_m f) && no_m rows

look_up-no_m :
    (rows : List Row) (w : ℕ) (i : Inst) (f : Format)
    → no_m rows ≡ true
    → look_up rows w ≡ some (i, f)
    → is_m f ≡ false
unfolding no_m
look_up-no_m [] w i f n e = cc
look_up-no_m ((j, g, p) ∷ rows) w i f n e = elim (Bool-cases (has_fields p w)) [
  | inl hit ↦ ground (arith, (rw hit at e))
  | inr miss ↦ look_up-no_m rows w i f (ground arith) (rw miss at e)
]

decode_operand-Returns :
    (c : Cpu) (w : ℕ) (f : Format) → is_m f ≡ false → Returns (decode_operand c w f)
unfolding decode_operand
decode_operand-Returns c w Format.m h = cc
decode_operand-Returns c w _ h = (_, refl)

opcode_map-no_m : no_m opcode_map ≡ true
unfolding no_m
opcode_map-no_m = refl

ok-injective {ℓ} : {A : Type ℓ} {a b : A} → ok a ≡ ok b → a ≡ b
ok-injective e = cc

Returns-cases {ℓ} : {A : Type ℓ} (m : Outcome A) → Returns m ⊎ ¬ Returns m
Returns-cases (ok a) = inl (a, refl)
Returns-cases failed = inr (λ (a, e). cc)
Returns-cases fault = inr (λ (a, e). cc)

module _ {S : Type 0} (bus : Bus S) where
  -- The memory system refuses the access that the instruction makes: the one of a load or a store, or
  -- one of the two words that are read for the message about an invalid instruction.
  abbrev pub Refuses : Inst → Operands → ℕ → S → Type 0
  Refuses (store op) o pc mem =
      ¬ Returns (bus.write (u32 (o.src1 + o.imm)) (store_len op) o.src2 mem)
  Refuses (load op) o pc mem = ¬ Returns (bus.read (u32 (o.src1 + o.imm)) (load_len op) mem)
  Refuses inv o pc mem =
      ¬ Returns (bus.read pc 4 mem)
      ⊎ ((v : ℕ) × (mem' : S) × (bus.read pc 4 mem ≡ ok (v, mem'))
          × (¬ Returns (bus.read (u32 (pc + 4)) 4 mem')))
  Refuses _ o pc mem = ⊥

  -- The word `w` selects an instruction whose access is refused.
  abbrev pub IsRefused : ℕ → ℕ → Cpu → S → Type 0
  IsRefused w pc c mem =
      (e : Entry) × (o : Operands) × (decode w ≡ ok (some e))
      × (decode_operand c w e.format ≡ ok o)
      × Refuses e.inst o pc mem

  exec_inv-Returns :
      (o : Operands) (s : Decode) (m : Machine S)
      → Returns (exec_inst bus inv o s m) ⊎ Refuses inv o s.pc m.mem
  unfolding exec_inst invalid_inst inst_fetch
  exec_inv-Returns o s m = elim (Returns-cases (bus.read s.pc 4 m.mem)) [
    | inr refused ↦ inr (inl refused)
    | inl ((v, mem), e) ↦ elim (Returns-cases (bus.read (u32 (s.pc + 4)) 4 mem)) [
      | inr refused ↦ inr (inr (v, mem, e, refused))
      | inl ((v', mem'), e') ↦ inl (
        (s, set_nemu_state RunState.abort s.pc (2 ^ 32 - 1) (record m { mem = mem' })),
        rw (e, e'),
      )
    ]
  ]

  exec_inst-Returns :
      (i : Inst) (o : Operands) (s : Decode) (m : Machine S)
      → Returns (exec_inst bus i o s m) ⊎ Refuses i o s.pc m.mem
  unfolding exec_inst
  exec_inst-Returns (store op) o s m =
      elim (Returns-cases (bus.write (u32 (o.src1 + o.imm)) (store_len op) o.src2 m.mem)) [
        | inr refused ↦ inr refused
        | inl r ↦ inl (Returns-bind _ _ r (λ mem e. (_, refl)))
      ]
  exec_inst-Returns (load op) o s m =
      elim (Returns-cases (bus.read (u32 (o.src1 + o.imm)) (load_len op) m.mem)) [
        | inr refused ↦ inr refused
        | inl r ↦ inl (Returns-bind _ _ r (λ (v, mem) e. (_, refl)))
      ]
  exec_inst-Returns inv o s m = exec_inv-Returns o s m
  exec_inst-Returns _ o s m = inl (_, refl)

  exec_entry-Returns :
      (e : Option Entry) (rows : List Row) (s : Decode) (m : Machine S)
      → no_m rows ≡ true
      → chosen e ≡ look_up rows s.inst
      → decode s.inst ≡ ok e
      → Returns (exec_entry bus e s m) ⊎ IsRefused s.inst s.pc m.cpu m.mem
  unfolding exec_entry
  exec_entry-Returns none rows s m n c d = inl (_, refl)
  exec_entry-Returns (some e) rows s m n c d =
      let (o, h) =
        decode_operand-Returns m.cpu s.inst e.format
          (look_up-no_m rows s.inst e.inst e.format n (sym c)) in
      elim (exec_inst-Returns e.inst o s m) [
        | inl r ↦ inl (
            Returns-bind _ _ (o, h)
              (λ o' h'.
                subst (λ x. Returns (exec_inst bus e.inst x s m)) (ok-injective (sym h ∙ h')) r))
        | inr refused ↦ inr (e, o, d, h, refused)
      ]

  decode_exec-Returns :
      (s : Decode) (m : Machine S)
      → IsWord s.inst
      → Returns (decode_exec bus s m) ⊎ IsRefused s.inst s.pc m.cpu m.mem
  unfolding decode_exec
  decode_exec-Returns s m w =
      let (o, d, c) = decode-look_up s.inst w in
      let s1 = record s { dnpc = s.snpc } in
      elim (exec_entry-Returns o opcode_map s1 m opcode_map-no_m c d) [
        | inr refused ↦ inr refused
        | inl r ↦ inl (
            Returns-bind (decode s.inst) _ (o, d)
              (λ e d'.
                Returns-bind (exec_entry bus e s1 m) _
                  (subst (λ x. Returns (exec_entry bus x s1 m)) (ok-injective (sym d ∙ d')) r)
                  (λ (s', m') _. (_, refl))))
      ]

  -- An instruction runs to its end, or the memory system refuses one of its own accesses: the fetch,
  -- or the access of the instruction that the word selects. The decoder and the bodies themselves
  -- stop the emulator on no word.
  pub isa_exec_once-Returns :
      IsWordBus bus
      → (s : Decode) (m : Machine S)
      → (¬ Returns (bus.read s.snpc 4 m.mem))
        ⊎ ((w : ℕ) × (mem : S) × (bus.read s.snpc 4 m.mem ≡ ok (w, mem))
            × (Returns (isa_exec_once bus s m) ⊎ IsRefused w s.pc m.cpu mem))
  unfolding isa_exec_once inst_fetch
  isa_exec_once-Returns is_word s m = elim (Returns-cases (bus.read s.snpc 4 m.mem)) [
    | inr refused ↦ inl refused
    | inl ((w, mem), e) ↦
        let s1 = record s { inst = w; snpc = u32 (s.snpc + 4) } in
        let m1 : Machine S = record m { mem = mem } in
        let fits : IsWord w = is_word.read_word s.snpc 4 m.mem w mem e in
        inr (
          w,
          mem,
          e,
          elim (decode_exec-Returns s1 m1 fits) [
            | inr refused ↦ inr refused
            | inl (r, run) ↦ inl (r, rw e run)
          ],
        )
  ]
