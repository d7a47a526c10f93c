-- ===== src/Fs/Fat16/Chain/Results.antt =====
-- What the operations on clusters return.
use dosfs.Prelude.{
  ℕ, zero, suc, ◌+◌, ◌*◌, ◌/◌, ◌%◌, ◌≤◌, ◌<◌, ◌≡◌, ◌⊎◌, refl, ap, inl, inr, true, false, some, List,
  is_zero, arith, Bool-cases, Option-cases,
}
use dosfs.Fs.Disk.{Disk}
use dosfs.Fs.Fat16.{Fat, cluster_size, get16, put16, u32}
use dosfs.Fs.Fat16.Chain.{fat16_write_cluster, fat16_allocate_cluster, free_entry, allocate_from}

module _ (D : Disk) where
  open D use {Sectors, read_sector}

  -- `fat16_write_cluster` returns the number of bytes or -1, never 0 when there is a byte to write.
  pub write_cluster-nonzero :
      (fs : Fat) (cluster : ℕ) (bytes : List ℕ) (size : ℕ) (d : Sectors)
      → 0 < size
      → 0 < cluster_size fs
      → is_zero (fat16_write_cluster D fs cluster bytes size d).0 ≡ false
  unfolding fat16_write_cluster
  write_cluster-nonzero fs cluster bytes size d h k = ground arith

  -- The entry that is found is in range and free.
  pub free_entry-some :
      (fs : Fat) (sector : List ℕ) (idx n i e : ℕ)
      → free_entry D fs sector idx n i ≡ some e
      → (i ≤ e)
        × (e < i + n)
        × (2 ≤ idx * 256 + e)
        × (idx * 256 + e < 2 + fs.total_clusters)
        × (get16 sector (e * 2) ≡ 0)
  unfolding free_entry
  free_entry-some fs sector idx zero i e h = ground arith
  free_entry-some fs sector idx (suc n) i e h =
      ground (arith, free_entry-some fs sector idx n (i + 1) e)

  -- A cluster that `fat16_allocate_cluster` returns is one of the volume's, its entry was free on the
  -- disk, and the sector of that entry was written with the end mark in it.
  pub record Allocated (fs : Fat) (d : Sectors) (c : ℕ) (d' : Sectors) : Type 0 where
    pub lower : 2 ≤ c
    pub upper : c < 2 + fs.total_clusters
    pub sector : List ℕ
    pub was_read : read_sector (u32 (fs.fat_start + c / 256)) d ≡ some sector
    pub was_free : get16 sector (c % 256 * 2) ≡ 0
    pub marked :
        D.write_sector (u32 (fs.fat_start + c / 256)) (put16 sector (c % 256 * 2) 0xFFFF) d
        ≡ (true, d')

  found :
      (fs : Fat) (idx e : ℕ) (d d' : Sectors) (sector : List ℕ)
      → read_sector (u32 (fs.fat_start + idx)) d ≡ some sector
      → free_entry D fs sector idx 256 0 ≡ some e
      → D.write_sector (u32 (fs.fat_start + idx)) (put16 sector (e * 2) 0xFFFF) d ≡ (true, d')
      → Allocated fs d (idx * 256 + e) d'
  found fs idx e d d' sector r f w =
      let (a, b, low, high, free) = free_entry-some fs sector idx 256 0 e f in
      let q : (idx * 256 + e) / 256 ≡ idx = omega arith in
      let m : (idx * 256 + e) % 256 ≡ e = omega arith in
      record {
        lower = low;
        upper = high;
        sector = sector;
        was_read = rw q r;
        was_free = rw m free;
        marked = rw (q, m) w;
      }

  pub allocate_from-Allocated :
      (fs : Fat) (n idx : ℕ) (d : Sectors)
      → ((allocate_from D fs n idx d).0 ≡ 0)
        ⊎ Allocated fs d (allocate_from D fs n idx d).0 (allocate_from D fs n idx d).1
  unfolding allocate_from
  allocate_from-Allocated fs zero idx d = inl refl
  allocate_from-Allocated fs (suc n) idx d =
      let lba : ℕ = u32 (fs.fat_start + idx) in
      let rest = allocate_from-Allocated fs n (idx + 1) d in
      elim (Option-cases (read_sector lba d)) [
        | inl e ↦ rw (allocate_from, e) rest
        | inr (sector, e) ↦ elim (Option-cases (free_entry D fs sector idx 256 0)) [
          | inl f ↦ rw (allocate_from, e, f) rest
          | inr (i, f) ↦
              let w = D.write_sector lba (put16 sector (i * 2) 0xFFFF) d in
              elim (Bool-cases w.0) [
                | inl ok ↦
                    rw (allocate_from, e, f, ok)
                      (inr (found fs idx i d w.1 sector e f (ap (λ b. (b, w.1)) ok)))
                | inr failed ↦ rw (allocate_from, e, f, failed) (inl refl)
              ]
        ]
      ]

  -- `fat16_allocate_cluster` returns 0, or a cluster of the volume whose entry was free on the disk
  -- and for which the end mark was written.
  pub fat16_allocate_cluster-Allocated :
      (fs : Fat) (d : Sectors)
      → ((fat16_allocate_cluster D fs d).0 ≡ 0)
        ⊎ Allocated fs d (fat16_allocate_cluster D fs d).0 (fat16_allocate_cluster D fs d).1
  unfolding fat16_allocate_cluster
  fat16_allocate_cluster-Allocated fs d = allocate_from-Allocated fs fs.bpb.fat_size_16 0 d
