-- ===== src/Device/Sdcard/Transfer.antt =====
-- What an access to SDDATA does to the file in nemu/src/device/sdcard.c.
use soc_fpga_bjtu_hwct.Common.{
  ℕ, ◌+◌, ◌≡◌, ◌∙◌, ap, Bool, true, false, if◌then◌else◌, none, some, length, get_or, set,
}
use soc_fpga_bjtu_hwct.Common.Word.{IsWord, u32}
use soc_fpga_bjtu_hwct.Device.Sdcard.{
  File, Sdcard, word_bytes, fread, fwrite, sddata, transfer, transfer_file, transfer_ext_csd,
}
use soc_fpga_bjtu_hwct.Device.Sdcard.Stream.{Stored, fread-Stored}

-- The card transfers a file, and not its EXT_CSD register.
pub record IsTransfer (is_write : Bool) (f : File) (c : Sdcard) : Type 0 where
  pub file : c.fp ≡ some f
  pub no_ext_csd : c.read_ext_csd ≡ false
  pub direction : c.write_cmd ≡ is_write
  pub size : length c.base ≡ 32

transfer-transfer_file :
    (f : File) (c : Sdcard)
    → c.fp ≡ some f
    → c.read_ext_csd ≡ false
    → transfer c ≡ record (transfer_file f c) { addr = u32 (c.addr + 4) }
unfolding transfer
transfer-transfer_file f c file no_ext_csd =
    ap
      (λ b.
        let moved =
          if b then transfer_ext_csd c else elim c.fp [ none ↦ c | some g ↦ transfer_file g c ] in
        record moved { addr = u32 (c.addr + 4) })
      no_ext_csd
    ∙ ap
        (λ o.
          let moved = elim o as (λ o'. Sdcard) [ none ↦ c | some g ↦ transfer_file g c ] in
          record moved { addr = u32 (c.addr + 4) })
        file

transfer_file-write :
    (f : File) (c : Sdcard)
    → c.write_cmd ≡ true
    → transfer_file f c ≡ record c { fp = some (fwrite (get_or c.base sddata 0) f) }
unfolding transfer_file
transfer_file-write f c direction =
    let word = get_or c.base sddata 0 in
    let (v, f') = fread word f in
    ap
      (λ b.
        if b
        then record c { fp = some (fwrite word f) }
        else record c { fp = some f'; base = set c.base sddata v })
      direction

transfer_file-read :
    (v : ℕ) (f : File) (c : Sdcard)
    → c.write_cmd ≡ false
    → IsWord v
    → Stored f.bytes f.position (word_bytes v)
    → transfer_file f c
      ≡ record c { fp = some (record f { position = f.position + 4 }); base = set c.base sddata v }
unfolding transfer_file
transfer_file-read v f c direction h s =
    let word = get_or c.base sddata 0 in
    let (v', f') = fread word f in
    ap
      (λ b.
        if b
        then record c { fp = some (fwrite word f) }
        else record c { fp = some f'; base = set c.base sddata v' })
      direction
    ∙ ap (λ r. record c { fp = some (r.1); base = set c.base sddata (r.0) })
        (fread-Stored v word f h s)

pub transfer_write :
    (f : File) (c : Sdcard)
    → IsTransfer true f c
    → transfer c
      ≡ record c { fp = some (fwrite (get_or c.base sddata 0) f); addr = u32 (c.addr + 4) }
transfer_write f c t =
    transfer-transfer_file f c t.file t.no_ext_csd
    ∙ ap {A = Sdcard} (λ d. record d { addr = u32 (c.addr + 4) })
        (transfer_file-write f c t.direction)

pub transfer_read :
    (v : ℕ) (f : File) (c : Sdcard)
    → IsTransfer false f c
    → IsWord v
    → Stored f.bytes f.position (word_bytes v)
    → transfer c ≡ record c {
      fp = some (record f { position = f.position + 4 });
      base = set c.base sddata v;
      addr = u32 (c.addr + 4);
    }
transfer_read v f c t h s =
    transfer-transfer_file f c t.file t.no_ext_csd
    ∙ ap {A = Sdcard} (λ d. record d { addr = u32 (c.addr + 4) })
        (transfer_file-read v f c t.direction h s)
