-- ===== src/Fs/Mount/Bpb.antt =====
-- The fields of the BPB of fs/fs.h that are used, at their offsets in the packed struct: of the
-- file system's type the offset.
use ten_os.Fs.Table.{load_u16}
use ten_os.Prelude.{ℕ}

abbrev pub bytes_per_sector : (ℕ → ℕ) → ℕ
bytes_per_sector bpb = load_u16 bpb 0x0B

abbrev pub sectors_per_cluster : (ℕ → ℕ) → ℕ
sectors_per_cluster bpb = bpb 0x0D

abbrev pub reserved_sectors : (ℕ → ℕ) → ℕ
reserved_sectors bpb = load_u16 bpb 0x0E

abbrev pub num_fats : (ℕ → ℕ) → ℕ
num_fats bpb = bpb 0x10

abbrev pub root_entries : (ℕ → ℕ) → ℕ
root_entries bpb = load_u16 bpb 0x11

abbrev pub sectors_per_fat : (ℕ → ℕ) → ℕ
sectors_per_fat bpb = load_u16 bpb 0x16

abbrev pub filesystem_type : ℕ
filesystem_type = 0x36
