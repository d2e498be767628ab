-- ===== src/Device/Sdcard.antt =====
-- The sdcard: nemu/src/device/sdcard.c, with the commands of mmc.h. Its registers, which the code
-- reaches as `base`, are the 32 words of its space. The image is a stream of C's library: its bytes
-- and its position; a write behind the end fills the gap with zeros, and a read at the end leaves
-- the rest of its buffer as it was. `init_sdcard` is not modelled but for the file, which may be
-- missing.
pub mod Stream
pub mod Tests
pub mod Transfer
pub mod Blocks
use soc_fpga_bjtu_hwct.Common.{
  ℕ, zero, suc, ◌+◌, ◌-◌, ◌*◌, ◌/◌, ◌%◌, ◌^◌, Bool, true, false, ◌||◌, List, [], ◌∷◌, Option, none,
  some, bit_and, bit_or, length, get_elem?, get_or, set, ◌==◌, if◌then◌else◌,
}
use soc_fpga_bjtu_hwct.Common.Outcome.{Outcome, ok, failed}
use soc_fpga_bjtu_hwct.Common.Word.{u32}

pub record File : Type 0 where
  pub bytes : List ℕ
  pub position : ℕ

pub record Sdcard : Type 0 where
  pub fp : Option File
  pub base : List ℕ
  pub blkcnt : ℕ
  pub blk_addr : ℕ
  pub addr : ℕ
  pub write_cmd : Bool
  pub read_ext_csd : Bool

abbrev pub memory_size : ℕ
memory_size = 16 * 1024 * 1024 * 1024

abbrev pub read_bl_len : ℕ
read_bl_len = 15

abbrev pub c_size : ℕ
c_size = memory_size / 2 ^ read_bl_len / 2 ^ (7 + 2) - 1

-- The indices of the registers.
abbrev pub sdcmd : ℕ
sdcmd = 0

abbrev pub sdarg : ℕ
sdarg = 1

abbrev pub sdrsp0 : ℕ
sdrsp0 = 4

abbrev pub sdrsp1 : ℕ
sdrsp1 = 5

abbrev pub sdrsp2 : ℕ
sdrsp2 = 6

abbrev pub sdrsp3 : ℕ
sdrsp3 = 7

abbrev pub sddata : ℕ
sddata = 16

-- A byte is stored in a file.
unfoldable pub put_byte : List ℕ → ℕ → ℕ → List ℕ
put_byte [] zero b = b ∷ []
put_byte [] (suc p) b = 0 ∷ put_byte [] p b
put_byte (x ∷ xs) zero b = b ∷ xs
put_byte (x ∷ xs) (suc p) b = x ∷ put_byte xs p b

-- The bytes of the file with a buffer stored from `p` on.
unfoldable pub put_bytes : List ℕ → ℕ → List ℕ → List ℕ
put_bytes bytes p [] = bytes
put_bytes bytes p (b ∷ buffer) = put_bytes (put_byte bytes p b) (p + 1) buffer

-- The buffer after a read from `p` on, and the new position.
unfoldable pub get_bytes : List ℕ → ℕ → List ℕ → List ℕ × ℕ
get_bytes bytes p [] = ([], p)
get_bytes bytes p (b ∷ buffer) =
    let rest = get_bytes bytes (p + 1) buffer in
    elim (get_elem? bytes p) [ none ↦ (b ∷ buffer, p) | some b' ↦ (b' ∷ rest.0, rest.1) ]

abbrev pub word_bytes : ℕ → List ℕ
word_bytes v = v % 2 ^ 8 ∷ (v / 2 ^ 8) % 2 ^ 8 ∷ (v / 2 ^ 16) % 2 ^ 8 ∷ (v / 2 ^ 24) % 2 ^ 8 ∷ []

unfoldable pub bytes_word : List ℕ → ℕ
bytes_word [] = 0
bytes_word (b ∷ bs) = b + 2 ^ 8 * bytes_word bs

abbrev pub fseek : ℕ → File → File
fseek p f = record f { position = p }

-- The word at `&base[SDDATA]` was `v`.
unfoldable pub fread : ℕ → File → ℕ × File
unfolding get_bytes bytes_word
fread v f =
    let (buffer, p) = get_bytes f.bytes f.position (word_bytes v) in
    (bytes_word buffer, record f { position = p })

unfoldable pub fwrite : ℕ → File → File
unfolding put_bytes
fwrite v f = record {
  bytes = put_bytes f.bytes f.position (word_bytes v);
  position = f.position + 4;
}

abbrev pub with_reg : ℕ → ℕ → Sdcard → Sdcard
with_reg i v c = record c { base = set c.base i v }

-- The four words of an answer.
abbrev pub respond : ℕ → ℕ → ℕ → ℕ → Sdcard → Sdcard
respond v0 v1 v2 v3 c =
    with_reg sdrsp3 v3 (with_reg sdrsp2 v2 (with_reg sdrsp1 v1 (with_reg sdrsp0 v0 c)))

unfoldable pub prepare_rw : Bool → Sdcard → Sdcard
prepare_rw is_write c =
    let blk = get_or c.base sdarg 0 in
    record c {
      blk_addr = blk;
      addr = 0;
      fp = elim c.fp [ none ↦ none | some f ↦ some (fseek (blk * 2 ^ 9) f) ];
      write_cmd = is_write;
    }

unfoldable pub sdcard_handle_cmd : ℕ → Sdcard → Outcome Sdcard
unfolding prepare_rw
sdcard_handle_cmd cmd c =
    if cmd == 0
    then ok c
    else if cmd == 1
    then ok (with_reg sdrsp0 0x80ff8000 c)
    else if cmd == 2
    then ok (respond 0x00000001 0x00000000 0x00000000 0x15000000 c)
    else if cmd == 52
    then ok c
    else if cmd == 9
    then ok (
        respond 0x92404001 (bit_or 0x124b97e3 (u32 (bit_and c_size 0x3 * 2 ^ 30)))
          (bit_or (bit_or 0x0f508000 (c_size / 2 ^ 2)) (read_bl_len * 2 ^ 16)) 0x9026012a c)
    else if cmd == 8
    then ok (record c { read_ext_csd = true; addr = 0 })
    else if cmd == 5 || cmd == 55 || cmd == 3 || cmd == 7
    then ok c
    else if cmd == 23
    then ok (record c { blkcnt = bit_and (get_or c.base sdarg 0) 0xffff })
    else if cmd == 18
    then ok (prepare_rw false c)
    else if cmd == 25
    then ok (prepare_rw true c)
    else if cmd == 13
    then ok (respond 0x900 0 0 0 c)
    else if cmd == 12
    then ok c
    else failed

-- A word of the register that `MMC_SEND_EXT_CSD` asks for.
unfoldable pub ext_csd_word : ℕ → ℕ
ext_csd_word a = if a == 192 then 2 else if a == 212 then memory_size / 512 else 0

unfoldable pub transfer_ext_csd : Sdcard → Sdcard
unfolding ext_csd_word
transfer_ext_csd c = record c {
  base = set c.base sddata (ext_csd_word c.addr);
  read_ext_csd = if c.addr == 512 - 4 then false else c.read_ext_csd;
}

unfoldable pub transfer_file : File → Sdcard → Sdcard
unfolding fread fwrite
transfer_file f c =
    let word = get_or c.base sddata 0 in
    if c.write_cmd
    then record c { fp = some (fwrite word f) }
    else let (v, f') = fread word f in record c { fp = some f'; base = set c.base sddata v }

-- An access to SDDATA.
unfoldable pub transfer : Sdcard → Sdcard
unfolding transfer_ext_csd transfer_file
transfer c =
    let moved =
      if c.read_ext_csd
      then transfer_ext_csd c
      else elim c.fp [ none ↦ c | some f ↦ transfer_file f c ] in
    record moved { addr = u32 (c.addr + 4) }

unfoldable pub sdcard_io_handler : ℕ → ℕ → Bool → Sdcard → Outcome Sdcard
unfolding sdcard_handle_cmd transfer
sdcard_io_handler offset len is_write c =
    let idx = offset / 4 in
    if idx == sdcmd
    then sdcard_handle_cmd (bit_and (get_or c.base sdcmd 0) 0x3f) c
    else if idx == sdarg || idx == sdrsp0 || idx == sdrsp1 || idx == sdrsp2 || idx == sdrsp3
    then ok c
    else if idx == sddata
    then ok (transfer c)
    else failed
