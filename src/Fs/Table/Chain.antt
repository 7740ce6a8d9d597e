-- ===== src/Fs/Table/Chain.antt =====
-- What the allocation of clusters in `fat12_create` leaves in the table.
use ten_os.Fs.Table.{
  get_next_cluster, set_cluster_value, find_free_from, find_free_cluster, allocate_clusters,
  fat12_eof,
}
use ten_os.Fs.Table.Entries.{IsBytes, get_next_cluster-set_cluster_value, set_cluster_value-IsBytes}
use ten_os.Prelude.Least.{IsLeast}
use native.Mathlib.Decide.{ℕ_discrete}
use ten_os.Prelude.{
  ℕ, zero, suc, ◌+◌, ◌-◌, ◌%◌, ◌^◌, ◌≤◌, ◌<◌, ◌≡◌, refl, ap, ◌≢◌, ◌⊎◌, ◌==◌, if◌then◌else◌, Option,
  some, Bool-cases, inl, inr, true, false, arith, ne→==-false, ==-false→ne, ==_iff,
}

-- `r` is 0 and no entry from `lo` up to `hi` is free, or it is the lowest free one.
abbrev pub FreeFrom : (ℕ → ℕ) → ℕ → ℕ → ℕ → Type 0
FreeFrom fat lo hi r =
    ((r ≡ 0) × ((d : ℕ) → lo ≤ d → d < hi → get_next_cluster fat d ≢ 0))
    ⊎ ((lo ≤ r)
        × (r < hi)
        × (get_next_cluster fat r ≡ 0)
        × ((d : ℕ) → lo ≤ d → d < r → get_next_cluster fat d ≢ 0))

not_free_from :
    (fat : ℕ → ℕ) (c d : ℕ)
    → get_next_cluster fat c ≢ 0
    → c ≤ d
    → (c + 1 ≤ d → get_next_cluster fat d ≢ 0)
    → get_next_cluster fat d ≢ 0
not_free_from fat c d ne h later = elim (ℕ_discrete c d) [
  | yes e ↦ rw (← e) ne
  | no apart ↦ later (omega arith)
]

find_free_from-FreeFrom :
    (left c : ℕ) (fat : ℕ → ℕ) → FreeFrom fat c (c + left) (find_free_from left c fat)
unfolding find_free_from
find_free_from-FreeFrom zero c fat = inl (refl, λ d p q. absurd (omega arith))
find_free_from-FreeFrom (suc left) c fat = elim (Bool-cases (get_next_cluster fat c == 0)) [
  | inl free ↦
      rw free (inr (omega arith, omega arith, (==_iff _ _).0 free, λ d p q. absurd (omega arith)))
  | inr taken ↦ rw taken (skip (==-false→ne _ _ taken) (find_free_from-FreeFrom left (c + 1) fat))
]
  where
    skip :
        get_next_cluster fat c ≢ 0
        → FreeFrom fat (c + 1) (c + 1 + left) (find_free_from left (c + 1) fat)
        → FreeFrom fat c (c + suc left) (find_free_from left (c + 1) fat)
    skip ne (inl (z, none_free)) =
        inl (z, λ d p q. not_free_from fat c d ne p (λ k. none_free d k (omega arith)))
    skip ne (inr (p, q, free, below)) =
        inr
          (omega arith, omega arith, free, λ d k q. not_free_from fat c d ne k (λ k'. below d k' q))

-- `find_free_cluster` returns the lowest free cluster from 2 to 4083, and 0 exactly when there
-- is none.
find_free_cluster_lem : (fat : ℕ → ℕ) → FreeFrom fat 2 4084 (find_free_cluster fat)
unfolding find_free_cluster
find_free_cluster_lem fat = find_free_from-FreeFrom 4082 2 fat

-- A free cluster is found, and it is the lowest.
pub find_free_cluster-IsLeast :
    (fat : ℕ → ℕ)
    → find_free_cluster fat ≢ 0
    → IsLeast (λ c. get_next_cluster fat c == 0) 2 4084 (some (find_free_cluster fat))
find_free_cluster-IsLeast fat found = elim (find_free_cluster_lem fat) [
  | inl (z, _) ↦ absurd (found z)
  | inr (p, q, free, below) ↦ (p, q, ground arith, λ d k h. ne→==-false _ _ (below d k h))
]

pub find_free_cluster-lt : (fat : ℕ → ℕ) → find_free_cluster fat < 4084
find_free_cluster-lt fat = ground (arith, find_free_cluster_lem fat)

pub le-find_free_cluster : (fat : ℕ → ℕ) → find_free_cluster fat ≢ 0 → 2 ≤ find_free_cluster fat
le-find_free_cluster fat found = ground (arith, find_free_cluster_lem fat)

-- Two tables that read alike.
abbrev pub ReadsAs : (ℕ → ℕ) → (ℕ → ℕ) → Type 0
ReadsAs fat fat' = (d : ℕ) → get_next_cluster fat d ≡ get_next_cluster fat' d

find_free_from-ext :
    (left c : ℕ) (fat fat' : ℕ → ℕ)
    → ReadsAs fat fat'
    → find_free_from left c fat ≡ find_free_from left c fat'
unfolding find_free_from
find_free_from-ext zero c fat fat' same = refl
find_free_from-ext (suc left) c fat fat' same =
    rw (same c, find_free_from-ext left (c + 1) fat fat' same)

find_free_cluster-ext :
    (fat fat' : ℕ → ℕ) → ReadsAs fat fat' → find_free_cluster fat ≡ find_free_cluster fat'
unfolding find_free_cluster
find_free_cluster-ext fat fat' same = find_free_from-ext 4082 2 fat fat' same

-- The table `out` is `fat` with the entry `c` set to `v`.
abbrev pub Differs : (ℕ → ℕ) → ℕ → ℕ → (ℕ → ℕ) → Type 0
Differs fat c v out =
    (d : ℕ) → get_next_cluster out d ≡ (if c == d then v else get_next_cluster fat d)

-- A round of the loop after the first, in a table that reads as `fat` and where the cluster of
-- the round before is still free: it takes the same cluster again.
again :
    (fat now : ℕ → ℕ) (c v d : ℕ)
    → IsBytes now
    → ReadsAs now fat
    → get_next_cluster (set_cluster_value (set_cluster_value now c c) c v) d
      ≡ (if c == d then v % 2 ^ 12 else get_next_cluster fat d)
again fat now c v d bytes same = ground (
  arith,
  get_next_cluster-set_cluster_value (set_cluster_value now c c) c v d
      (set_cluster_value-IsBytes now c c bytes),
  get_next_cluster-set_cluster_value now c c d bytes,
  same d,
)

-- What the loop returns: the first cluster is `c`, the only one that it allocated.
record AllocatesOne (fat : ℕ → ℕ) (c : ℕ) (out : (ℕ → ℕ) × Option ℕ) : Type 0 where
  pub first : out.1 ≡ some c
  pub bytes : IsBytes out.0
  pub only : Differs fat c fat12_eof out.0

module _ (fat : ℕ → ℕ) (c : ℕ) (found : find_free_cluster fat ≡ c)
    (free : get_next_cluster fat c ≡ 0) (some_free : c ≢ 0) where
  still_free : (out : ℕ → ℕ) → Differs fat c 0 out → ReadsAs out fat
  still_free out differs d =
      ground (arith, differs d, free, ap (get_next_cluster fat) {x = c} {y = d})

  -- One round, in a table that reads as `fat`.
  round :
      (left i needed : ℕ) (now : ℕ → ℕ)
      → 0 < i
      → ReadsAs now fat
      → allocate_clusters (suc left) i needed now c c
        ≡ allocate_clusters left
            (i + 1)
            needed
            (set_cluster_value
              (set_cluster_value now c c)
              c
              (if i == needed - 1 then fat12_eof else 0))
            c
            c
  unfolding allocate_clusters
  round left i needed now pos same = rw (
    find_free_cluster-ext now fat same,
    found,
    ne→==-false i 0 (omega arith),
    ne→==-false c 0 some_free,
  )

  later_rounds :
      (left i needed : ℕ) (now : ℕ → ℕ)
      → 0 < i
      → i + suc left ≡ needed
      → IsBytes now
      → ReadsAs now fat
      → AllocatesOne fat c (allocate_clusters (suc left) i needed now c c)
  later_rounds zero i needed now pos e bytes same =
      let last : (i == needed - 1) ≡ true = ground arith in
      rw (round zero i needed now pos same, last)
        (record {
          first = unfold allocate_clusters in refl;
          bytes =
              unfold allocate_clusters in
              set_cluster_value-IsBytes _ c fat12_eof (set_cluster_value-IsBytes now c c bytes);
          only = unfold allocate_clusters in λ d. again fat now c fat12_eof d bytes same;
        })
  later_rounds (suc left) i needed now pos e bytes same =
      let more : (i == needed - 1) ≡ false = ground arith in
      rw (round (suc left) i needed now pos same, more)
        (later_rounds left (i + 1) needed (set_cluster_value (set_cluster_value now c c) c 0)
          (omega arith) (omega arith)
          (set_cluster_value-IsBytes _ c 0 (set_cluster_value-IsBytes now c c bytes))
          (still_free _ (λ d. again fat now c 0 d bytes same)))

  first_step :
      (left : ℕ)
      → allocate_clusters (suc left) 0 (suc left) fat 0 0
        ≡ allocate_clusters left 1
            (suc left)
            (set_cluster_value fat c (if 0 == suc left - 1 then fat12_eof else 0))
            c
            c
  unfolding allocate_clusters
  first_step left = rw (found, ne→==-false c 0 some_free)

  first_round :
      (left : ℕ)
      → IsBytes fat
      → AllocatesOne fat c (allocate_clusters (suc left) 0 (suc left) fat 0 0)
  first_round zero bytes = rw (first_step 0) (record {
    first = unfold allocate_clusters in refl;
    bytes = unfold allocate_clusters in set_cluster_value-IsBytes fat c fat12_eof bytes;
    only =
        unfold allocate_clusters in λ d. get_next_cluster-set_cluster_value fat c fat12_eof d bytes;
  })
  first_round (suc left) bytes =
      let more : (0 == suc (suc left) - 1) ≡ false = ground arith in
      rw (first_step (suc left), more)
        (later_rounds left 1 (suc (suc left)) (set_cluster_value fat c 0) (omega arith)
          (omega arith) (set_cluster_value-IsBytes fat c 0 bytes)
          (still_free _ (λ d. get_next_cluster-set_cluster_value fat c 0 d bytes)))

-- Whatever the number of clusters that a file needs, at least one: if a cluster is free, the loop
-- succeeds with the lowest free cluster and marks it as the end of a chain, and it changes no
-- other entry of the table, so the chain has this one cluster.
pub allocate_clusters_single :
    (fat : ℕ → ℕ) (needed : ℕ)
    → IsBytes fat
    → 0 < needed
    → find_free_cluster fat ≢ 0
    → let (fat', first) = allocate_clusters needed 0 needed fat 0 0 in
      (first ≡ some (find_free_cluster fat))
      × ((d : ℕ)
          → get_next_cluster fat' d
            ≡ (if find_free_cluster fat == d then fat12_eof else get_next_cluster fat d))
allocate_clusters_single fat zero bytes pos found = absurd (omega arith)
allocate_clusters_single fat (suc left) bytes pos found = elim (find_free_cluster_lem fat) [
  | inl (z, _) ↦ absurd (found z)
  | inr (_, _, free, _) ↦
      let one = first_round fat (find_free_cluster fat) refl free found left bytes in
      (one.first, one.only)
]
