-- ===== src/Fs/Create/Fill.antt =====
-- The bytes of the entry that `fat12_create` fills in.
use ten_os.Fs.Create.{fill_entry}
use ten_os.Fs.Directory.{
  attr_archive, entry_attributes, entry_first_cluster, entry_file_size, has_name, filename_0,
  is_same,
}
use ten_os.Util.Copy.{memcpy_lem}
use ten_os.Util.Compare.{memcmp-equal}
use ten_os.Prelude.{
  ℕ, ◌+◌, ◌-◌, ◌*◌, ◌^◌, ◌≤◌, ◌<◌, ◌≡◌, ◌⊎◌, ◌∙◌, refl, ap, List, true, get_or, arith,
}

-- The entry's number and what is stored in it.
module _ (buf : ℕ → ℕ) (i : ℕ) (dos_name : List ℕ) (cluster size : ℕ) where
  -- The first 11 bytes are those of the name.
  fill_entry-name :
      (j : ℕ) → j < 11 → fill_entry buf i dos_name cluster size (32 * i + j) ≡ get_or dos_name j 0
  unfolding fill_entry
  fill_entry-name j bound = ground (
    arith,
    memcpy_lem 11 (32 * i) 0 buf (λ k. get_or dos_name k 0) (32 * i + j),
    ap (λ k. get_or dos_name k 0) {x = 0 + (32 * i + j - 32 * i)} {y = j},
  )

  -- The bytes of the other entries stay.
  pub fill_entry_outside :
      (j : ℕ) → (j < 32 * i) ⊎ (32 * i + 32 ≤ j) → fill_entry buf i dos_name cluster size j ≡ buf j
  unfolding fill_entry
  fill_entry_outside j outside =
      ground (arith, outside, memcpy_lem 11 (32 * i) 0 buf (λ k. get_or dos_name k 0) j)

  pub has_name-fill_entry : has_name (fill_entry buf i dos_name cluster size) i dos_name ≡ true
  unfolding is_same
  has_name-fill_entry =
      rw
        (memcmp-equal 11 (32 * i) 0 (fill_entry buf i dos_name cluster size)
          (λ j. get_or dos_name j 0)
          (λ j bound.
            fill_entry-name j bound
            ∙ ap (λ k. get_or dos_name k 0) {x = j} {y = 0 + j} (omega arith)))
        refl

  pub entry_attributes-fill_entry :
      entry_attributes (fill_entry buf i dos_name cluster size) i ≡ attr_archive
  unfolding fill_entry
  entry_attributes-fill_entry = ground arith

  pub entry_first_cluster-fill_entry :
      cluster < 2 ^ 16 → entry_first_cluster (fill_entry buf i dos_name cluster size) i ≡ cluster
  unfolding fill_entry
  entry_first_cluster-fill_entry bound = ground arith

  pub entry_file_size-fill_entry :
      size < 2 ^ 32 → entry_file_size (fill_entry buf i dos_name cluster size) i ≡ size
  unfolding fill_entry
  entry_file_size-fill_entry bound = ground arith

  pub filename_0-fill_entry :
      filename_0 (fill_entry buf i dos_name cluster size) i ≡ get_or dos_name 0 0
  filename_0-fill_entry =
      ap (fill_entry buf i dos_name cluster size) {x = 32 * i} {y = 32 * i + 0} (omega arith)
      ∙ fill_entry-name 0 (omega arith)
