-- ===== src/Fs/Create/Sync.antt =====
-- The two copies of the file allocation table that `sync_fat` writes.
use ten_os.Fs.Create.{sync_from, sync_fat}
use ten_os.Fs.Volume.{Volume, MountInfo, write_sector}
use native.Mathlib.Decide.{ℕ_discrete}
use ten_os.Word.{u32}
use ten_os.Prelude.{
  ℕ, zero, suc, ◌+◌, ◌*◌, ◌^◌, ◌≤◌, ◌<◌, ◌≡◌, ◌≢◌, ◌⊎◌, refl, ap, ◌∙◌, arith, inl, inr, ne→==-false,
}

-- The tables stand in front of the root directory, the clusters that the table can name behind it,
-- and no sector's number wraps.
pub record IsLaidOut (m : MountInfo) : Type 0 where
  pub tables : m.fat_start + 2 * m.sectors_per_fat ≤ m.root_start
  pub directory : m.root_start + m.root_size ≤ m.data_start
  pub clusters : m.data_start + 4082 * m.sectors_per_cluster < 2 ^ 32

pub write_sector_other :
    (v : Volume) (lba other : ℕ) (bytes : ℕ → ℕ)
    → lba ≢ other
    → (write_sector v lba bytes).disk other ≡ v.disk other
unfolding write_sector
write_sector_other v lba other bytes apart = rw (ne→==-false lba other apart) refl

pub write_sector_self :
    (v : Volume) (lba j : ℕ) (bytes : ℕ → ℕ)
    → j < 512
    → (write_sector v lba bytes).disk lba j ≡ bytes j
unfolding write_sector
write_sector_self v lba j bytes bound = ground arith

same_number : (n : ℕ) → n < 2 ^ 32 → u32 n ≡ n
same_number n h = omega arith

-- The writes of a round.
abbrev synced : Volume → ℕ → Volume
synced v i =
    let m = v.mount_info in
    let bytes : ℕ → ℕ = λ j. m.fat_buffer (i * 512 + j) in
    write_sector (write_sector v (u32 (m.fat_start + i)) bytes)
      (u32 (m.fat_start + m.sectors_per_fat + i)) bytes

pub mount_info-sync_from : (n i : ℕ) (v : Volume) → (sync_from n i v).mount_info ≡ v.mount_info
unfolding sync_from write_sector
mount_info-sync_from zero i v = refl
mount_info-sync_from (suc n) i v = mount_info-sync_from n (i + 1) (synced v i)

-- A sector is not among those that rounds `i` and later write.
abbrev IsPast : MountInfo → ℕ → ℕ → Type 0
IsPast m i lba =
    (lba < m.fat_start + i)
    ⊎ ((m.fat_start + m.sectors_per_fat ≤ lba) × (lba < m.fat_start + m.sectors_per_fat + i))
    ⊎ (m.fat_start + 2 * m.sectors_per_fat ≤ lba)

sync_from_past :
    (n i : ℕ) (v : Volume) (lba : ℕ)
    → IsLaidOut v.mount_info
    → i + n ≡ v.mount_info.sectors_per_fat
    → IsPast v.mount_info i lba
    → (sync_from n i v).disk lba ≡ v.disk lba
unfolding sync_from
sync_from_past zero i v lba laid e past = refl
sync_from_past (suc n) i v lba laid e past =
    sync_from_past n (i + 1) (synced v i) lba (unfold write_sector in laid)
      (unfold write_sector in omega arith) (unfold write_sector in next past)
    ∙ write_sector_other _ _ lba _ (apart past)
    ∙ write_sector_other v _ lba _ (apart_first past)
  where
    next : IsPast v.mount_info i lba → IsPast v.mount_info (i + 1) lba
    next p = ground (arith, p)

    apart :
        IsPast v.mount_info i lba
        → u32 (v.mount_info.fat_start + v.mount_info.sectors_per_fat + i) ≢ lba
    apart p same = ground (arith, p, laid.tables, laid.directory, laid.clusters)

    apart_first : IsPast v.mount_info i lba → u32 (v.mount_info.fat_start + i) ≢ lba
    apart_first p same = ground (arith, p, laid.tables, laid.directory, laid.clusters)

-- What round `i` leaves in each copy.
synced_copies :
    (i j : ℕ) (v : Volume)
    → IsLaidOut v.mount_info
    → i < v.mount_info.sectors_per_fat
    → j < 512
    → let m = v.mount_info in
      ((synced v i).disk (m.fat_start + i) j ≡ m.fat_buffer (i * 512 + j))
      × ((synced v i).disk (m.fat_start + m.sectors_per_fat + i) j ≡ m.fat_buffer (i * 512 + j))
unfolding write_sector
synced_copies i j v laid bound in_sector =
    let first : u32 (v.mount_info.fat_start + i) ≡ v.mount_info.fat_start + i =
      omega (arith, laid.tables, laid.directory, laid.clusters) in
    let second : u32 (v.mount_info.fat_start + v.mount_info.sectors_per_fat + i)
        ≡ v.mount_info.fat_start + v.mount_info.sectors_per_fat + i =
      omega (arith, laid.tables, laid.directory, laid.clusters) in
    rw (first, second) (ground arith, ground arith)

-- What round `q`, not before round `i`, leaves in each copy.
sync_from_copies :
    (n i q j : ℕ) (v : Volume)
    → IsLaidOut v.mount_info
    → i + n ≡ v.mount_info.sectors_per_fat
    → i ≤ q
    → q < v.mount_info.sectors_per_fat
    → j < 512
    → let m = v.mount_info in
      ((sync_from n i v).disk (m.fat_start + q) j ≡ m.fat_buffer (q * 512 + j))
      × ((sync_from n i v).disk (m.fat_start + m.sectors_per_fat + q) j
          ≡ m.fat_buffer (q * 512 + j))
unfolding sync_from write_sector
sync_from_copies zero i q j v laid e below bound in_sector = absurd (omega arith)
sync_from_copies (suc n) i q j v laid e below bound in_sector =
    let laid' : IsLaidOut (synced v i).mount_info = laid in
    let e' : i + 1 + n ≡ (synced v i).mount_info.sectors_per_fat = omega arith in
    elim (ℕ_discrete i q) [
      | yes here ↦
          let m = v.mount_info in
          let kept : (lba : ℕ)
              → IsPast m (i + 1) lba
              → (sync_from n (i + 1) (synced v i)).disk lba ≡ (synced v i).disk lba =
            λ lba past. sync_from_past n (i + 1) (synced v i) lba laid' e' past in
          let copies = synced_copies i j v laid (omega arith) in_sector in
          rw (← here) (
            ap (λ (f : ℕ → ℕ). f j) (kept (m.fat_start + i) (inl (omega arith))) ∙ copies.0,
            ap (λ (f : ℕ → ℕ). f j)
                  (kept (m.fat_start + m.sectors_per_fat + i)
                    (inr (inl (omega arith, omega arith))))
                ∙ copies.1,
          )
      | no apart ↦
          sync_from_copies n (i + 1) q j (synced v i) laid' e' (omega arith) bound in_sector
    ]

pub mount_info-sync_fat : (v : Volume) → (sync_fat v).mount_info ≡ v.mount_info
unfolding sync_fat
mount_info-sync_fat v = mount_info-sync_from v.mount_info.sectors_per_fat 0 v

-- `sync_fat` changes no sector from the root directory on.
pub sync_fat_behind :
    (v : Volume) (lba : ℕ)
    → IsLaidOut v.mount_info
    → v.mount_info.root_start ≤ lba
    → (sync_fat v).disk lba ≡ v.disk lba
unfolding sync_fat
sync_fat_behind v lba laid behind =
    sync_from_past v.mount_info.sectors_per_fat 0 v lba laid (omega arith)
      (inr (inr (omega (arith, laid.tables))))

-- Each sector of the two tables on the drive is that of the table in memory.
pub sync_fat_copies :
    (v : Volume) (q j : ℕ)
    → IsLaidOut v.mount_info
    → q < v.mount_info.sectors_per_fat
    → j < 512
    → let m = v.mount_info in
      ((sync_fat v).disk (m.fat_start + q) j ≡ m.fat_buffer (q * 512 + j))
      × ((sync_fat v).disk (m.fat_start + m.sectors_per_fat + q) j ≡ m.fat_buffer (q * 512 + j))
unfolding sync_fat
sync_fat_copies v q j laid bound in_sector =
    sync_from_copies v.mount_info.sectors_per_fat 0 q j v laid (omega arith) (omega arith) bound
      in_sector
