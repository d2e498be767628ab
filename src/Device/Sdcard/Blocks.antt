-- ===== src/Device/Sdcard/Blocks.antt =====
-- Reads and writes of blocks through the registers of nemu/src/device/sdcard.c.
use soc_fpga_bjtu_hwct.Common.{
  ℕ, zero, suc, ◌+◌, ◌*◌, ◌^◌, ◌≡◌, ◌∙◌, refl, sym, ap, arith, Bool, true, false, List, [], ◌∷◌,
  All, Option, none, some, bit_and, length, length-set, get_or, set, get_or-set_self, get_or-set_ne,
}
use mathlib.Core.Path.{subst}
use soc_fpga_bjtu_hwct.Common.Outcome.{Outcome, ok, ◌>>=◌}
use soc_fpga_bjtu_hwct.Common.Word.{IsWord, u32}
use soc_fpga_bjtu_hwct.Device.Sdcard.{
  File, Sdcard, word_bytes, fwrite, fseek, sdcmd, sdarg, sddata, with_reg, prepare_rw,
  sdcard_handle_cmd, sdcard_io_handler,
}
use soc_fpga_bjtu_hwct.Device.Sdcard.Stream.{Stored, StoredWords, put_words, put_words-StoredWords}
use soc_fpga_bjtu_hwct.Device.Sdcard.Transfer.{IsTransfer, transfer_write, transfer_read}

-- What the bus does for the processor: a word is stored in the space, then the handler runs.
unfoldable pub write_reg : ℕ → ℕ → Sdcard → Outcome Sdcard
write_reg i v c = sdcard_io_handler (i * 4) 4 true (with_reg i v c)

-- The handler runs, then the word is loaded.
unfoldable pub read_reg : ℕ → Sdcard → Outcome (ℕ × Sdcard)
read_reg i c = do c' ← sdcard_io_handler (i * 4) 4 false c; ok (get_or c'.base i 0, c')

-- A command with its argument.
unfoldable pub command : ℕ → ℕ → Sdcard → Outcome Sdcard
unfolding write_reg
command cmd arg c = do c' ← write_reg sdarg arg c; write_reg sdcmd cmd c'

unfoldable pub write_words : List ℕ → Sdcard → Outcome Sdcard
unfolding write_reg
write_words [] c = ok c
write_words (w ∷ ws) c = do c' ← write_reg sddata w c; write_words ws c'

unfoldable pub read_words : ℕ → Sdcard → Outcome (List ℕ)
unfolding read_reg
read_words zero c = ok []
read_words (suc n) c = do (w, c') ← read_reg sddata c; ws ← read_words n c'; ok (w ∷ ws)

-- MMC_WRITE_MULTIPLE_BLOCK and MMC_READ_MULTIPLE_BLOCK, from block `blk` on.
unfoldable pub write_blocks : ℕ → List ℕ → Sdcard → Outcome Sdcard
unfolding command write_words
write_blocks blk ws c = do c' ← command 25 blk c; write_words ws c'

unfoldable pub read_blocks : ℕ → ℕ → Sdcard → Outcome (List ℕ)
unfolding command read_words
read_blocks blk n c = do c' ← command 18 blk c; read_words n c'

-- The card after a word was written to SDDATA.
abbrev after_write : ℕ → File → Sdcard → Sdcard
after_write w f c = record c {
  fp = some (fwrite w f);
  base = set c.base sddata w;
  addr = u32 (c.addr + 4);
}

abbrev after_read : ℕ → File → Sdcard → Sdcard
after_read w f c = record c {
  fp = some (record f { position = f.position + 4 });
  base = set c.base sddata w;
  addr = u32 (c.addr + 4);
}

write_reg-after :
    (w : ℕ) (f : File) (c : Sdcard)
    → IsTransfer true f c
    → write_reg sddata w c ≡ ok (after_write w f c)
unfolding write_reg sdcard_io_handler
write_reg-after w f c t =
    let at : get_or (set c.base sddata w) sddata 0 ≡ w =
      get_or-set_self c.base sddata w 0 (rw (t.size) (omega arith)) in
    let t' : IsTransfer true f (with_reg sddata w c) = record {
      file = t.file;
      no_ext_csd = t.no_ext_csd;
      direction = t.direction;
      size = length-set c.base sddata w ∙ t.size;
    } in
    ap ok (transfer_write f (with_reg sddata w c) t')
    ∙ ap (λ v. ok (record (after_write w f c) { fp = some (fwrite v f) })) at

read_reg-after :
    (w : ℕ) (f : File) (c : Sdcard)
    → IsTransfer false f c
    → IsWord w
    → Stored f.bytes f.position (word_bytes w)
    → read_reg sddata c ≡ ok (w, after_read w f c)
unfolding read_reg sdcard_io_handler
read_reg-after w f c t h s =
    let at : get_or (set c.base sddata w) sddata 0 ≡ w =
      get_or-set_self c.base sddata w 0 (rw (t.size) (omega arith)) in
    ap (λ d. ok (get_or d.base sddata 0, d)) (transfer_read w f c t h s)
    ∙ ap (λ v. ok (v, after_read w f c)) at

IsTransfer-after :
    (is_write : Bool) (w : ℕ) (f g : File) (c : Sdcard)
    → IsTransfer is_write f c
    → IsTransfer is_write g
        (record c { fp = some g; base = set c.base sddata w; addr = u32 (c.addr + 4) })
IsTransfer-after is_write w f g c t = record {
  file = refl;
  no_ext_csd = t.no_ext_csd;
  direction = t.direction;
  size = length-set c.base sddata w ∙ t.size;
}

write_words-file :
    (ws : List ℕ) (f : File) (c : Sdcard)
    → IsTransfer true f c
    → (c' : Sdcard) × (g : File) × (write_words ws c ≡ ok c')
      × IsTransfer true g c'
      × (g.bytes ≡ put_words f.bytes f.position ws)
unfolding write_words put_words fwrite
write_words-file [] f c t = (c, f, refl, t, refl)
write_words-file (w ∷ ws) f c t =
    let (c', g, run, t', bytes) =
      write_words-file ws (fwrite w f) (after_write w f c)
        (IsTransfer-after true w f (fwrite w f) c t) in
    (c', g, ap (λ r. r >>= write_words ws) (write_reg-after w f c t) ∙ run, t', bytes)

read_words-file :
    (ws : List ℕ) (f : File) (c : Sdcard)
    → IsTransfer false f c
    → All IsWord ws
    → StoredWords f.bytes f.position ws
    → read_words (length ws) c ≡ ok ws
unfolding read_words
read_words-file [] f c t h s = refl
read_words-file (w ∷ ws) f c t h s = rw (
  read_reg-after w f c t h.0 s.0,
  read_words-file ws (record f { position = f.position + 4 }) (after_read w f c)
      (IsTransfer-after false w f (record f { position = f.position + 4 }) c t) h.1 s.1,
)

-- The card when the command `cmd`, a transfer from block `blk` on, has been handled.
abbrev started : ℕ → Bool → ℕ → Sdcard → Sdcard
started cmd is_write blk c = prepare_rw is_write (with_reg sdcmd cmd (with_reg sdarg blk c))

command-started :
    (cmd : ℕ) (is_write : Bool) (blk : ℕ) (c : Sdcard)
    → length c.base ≡ 32
    → bit_and cmd 0x3f ≡ cmd
    → ((d : Sdcard) → sdcard_handle_cmd cmd d ≡ ok (prepare_rw is_write d))
    → command cmd blk c ≡ ok (started cmd is_write blk c)
unfolding command write_reg sdcard_io_handler
command-started cmd is_write blk c size small handled =
    let d = with_reg sdcmd cmd (with_reg sdarg blk c) in
    let at : get_or d.base sdcmd 0 ≡ cmd =
      get_or-set_self (set c.base sdarg blk) sdcmd cmd 0
        (omega (arith, length-set c.base sdarg blk, size)) in
    ap (λ v. sdcard_handle_cmd (bit_and v 0x3f) d) at
    ∙ ap (λ v. sdcard_handle_cmd v d) small
    ∙ handled d

started-IsTransfer :
    (cmd : ℕ) (is_write : Bool) (blk : ℕ) (f : File) (c : Sdcard)
    → length c.base ≡ 32
    → c.fp ≡ some f
    → c.read_ext_csd ≡ false
    → IsTransfer is_write (fseek (blk * 2 ^ 9) f) (started cmd is_write blk c)
unfolding prepare_rw
started-IsTransfer cmd is_write blk f c size file no_ext_csd =
    let at : get_or (set (set c.base sdarg blk) sdcmd cmd) sdarg 0 ≡ blk =
      get_or-set_ne (set c.base sdarg blk) sdcmd sdarg cmd 0 (λ e. omega (arith, e))
      ∙ get_or-set_self c.base sdarg blk 0 (rw size (omega arith)) in
    record {
      file =
          ap
            (λ o. elim o as (λ o'. Option File) [
              | none ↦ none
              | some g ↦
                  some (fseek (get_or (set (set c.base sdarg blk) sdcmd cmd) sdarg 0 * 2 ^ 9) g)
            ])
            file
          ∙ ap (λ b. some (fseek (b * 2 ^ 9) f)) at;
      no_ext_csd = no_ext_csd;
      direction = refl;
      size = length-set (set c.base sdarg blk) sdcmd cmd ∙ length-set c.base sdarg blk ∙ size;
    }

handle_read : (d : Sdcard) → sdcard_handle_cmd 18 d ≡ ok (prepare_rw false d)
unfolding sdcard_handle_cmd
handle_read d = refl

handle_write : (d : Sdcard) → sdcard_handle_cmd 25 d ≡ ok (prepare_rw true d)
unfolding sdcard_handle_cmd
handle_write d = refl

-- Words that MMC_WRITE_MULTIPLE_BLOCK and accesses to SDDATA write are what
-- MMC_READ_MULTIPLE_BLOCK and accesses to SDDATA read at the same block, if there is an image and
-- the EXT_CSD register is not being read.
pub read_blocks-write_blocks :
    (blk : ℕ) (ws : List ℕ) (f : File) (c : Sdcard)
    → c.fp ≡ some f
    → c.read_ext_csd ≡ false
    → length c.base ≡ 32
    → All IsWord ws
    → (c' : Sdcard) × (write_blocks blk ws c ≡ ok c') × (read_blocks blk (length ws) c' ≡ ok ws)
unfolding write_blocks read_blocks
read_blocks-write_blocks blk ws f c file no_ext_csd size words =
    let start = blk * 2 ^ 9 in
    let (c', g, run, t', stored) =
      write_words-file ws (fseek start f) (started 25 true blk c)
        (started-IsTransfer 25 true blk f c size file no_ext_csd) in
    (
      c',
      ap (λ r. r >>= write_words ws) (command-started 25 true blk c size refl handle_write) ∙ run,
      ap (λ r. r >>= read_words (length ws))
            (command-started 18 false blk c' t'.size refl handle_read)
          ∙ read_words-file ws (fseek start g) (started 18 false blk c')
              (started-IsTransfer 18 false blk g c' t'.size t'.file t'.no_ext_csd) words
              (subst (λ bytes. StoredWords bytes start ws) (sym stored)
                (put_words-StoredWords ws f.bytes start)),
    )
