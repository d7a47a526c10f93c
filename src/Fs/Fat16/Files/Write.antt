-- ===== src/Fs/Fat16/Files/Write.antt =====
-- What becomes of a write of a file that is not empty.
use dosfs.Prelude.{
  ℕ, suc, ◌+◌, ◌-◌, ◌/◌, ◌^◌, ◌<◌, ◌≡◌, ◌⊎◌, refl, inl, inr, true, Option, none, some, List, ltb,
  leb, ◌==◌, if◌then◌else◌, ℤ, negsuc, arith, Bool-cases, Option-cases,
}
use dosfs.Fs.Disk.{Disk}
use dosfs.Fs.Fat16.{Fat, u32, cluster_size}
use dosfs.Fs.Fat16.Chain.{fat16_allocate_cluster}
use dosfs.Fs.Fat16.Chain.Results.{write_cluster-nonzero}
use dosfs.Fs.Fat16.Files.{write_clusters, write_new, fat16_write_file, fat16_delete_file, drop_file}

module _ (D : Disk) where
  open D use {Sectors}

  -- The success of the first cluster, a number of bytes, is taken for a failure.
  write_clusters-fails :
      (n : ℕ) (fs : Fat) (first : ℕ) (bytes : List ℕ) (size : ℕ) (d : Sectors)
      → 0 < size
      → 0 < cluster_size fs
      → (write_clusters D (suc n) 0 fs first first bytes size d).0 ≡ true
  unfolding write_clusters
  write_clusters-fails n fs first bytes size d h k =
      let to_write : ℕ = if ltb size (cluster_size fs) then size else cluster_size fs in
      let nz = write_cluster-nonzero D fs first bytes to_write d (ground arith) k in
      ground (arith, nz)

  -- The run is over with -1, or out of fuel.
  pub Fails : Option (ℤ × Fat × Sectors) → Type 0
  Fails o = (o ≡ none) ⊎ ((fs : Fat) × (d : Sectors) × (o ≡ some (negsuc 0, fs, d)))

  freed-Fails :
      (fs : Fat) (o : Option Sectors)
      → Fails (elim o [ none ↦ none | some d3 ↦ some (negsuc 0, fs, d3) ])
  unfolding Fails
  freed-Fails fs none = inl refl
  freed-Fails fs (some d3) = inr (fs, d3, refl)

  write_new-Fails :
      (fuel : ℕ) (fs : Fat) (name bytes : List ℕ) (size : ℕ) (d : Sectors)
      → 0 < size
      → 0 < cluster_size fs
      → Fails (write_new D fuel fs name bytes size d)
  unfolding write_new Fails
  write_new-Fails fuel fs name bytes size d h k =
      let counted : ℕ = u32 (size + cluster_size fs + 2 ^ 32 - 1) / cluster_size fs in
      let needed : ℕ = if counted == 0 then 1 else counted in
      let one_more : needed ≡ suc (needed - 1) = ground arith in
      let (allocated, d1) = fat16_allocate_cluster D fs d in
      elim (Bool-cases (ltb allocated 2)) [
        | inl small ↦
            let go : ltb 0 size ≡ true = ground arith in
            rw (write_new, small, go) (inr (fs, d1, refl))
        | inr big ↦
            let failed = write_clusters-fails (needed - 1) fs allocated bytes size d1 h k in
            let enough : leb 2 allocated ≡ true = ground arith in
            rw (write_new, big, one_more, failed, enough) (freed-Fails fs _)
      ]

  -- Deleting a file leaves the volume's parameters as they are.
  drop_file-bpb : (name : List ℕ) (fs : Fat) → (drop_file name fs).bpb ≡ fs.bpb
  unfolding drop_file
  drop_file-bpb name fs = ground arith

  fat16_delete_file-bpb :
      (fuel : ℕ) (fs : Fat) (name : List ℕ) (d : Sectors) (res : ℤ × Fat × Sectors)
      → fat16_delete_file D fuel fs name d ≡ some res
      → res.1.bpb ≡ fs.bpb
  unfolding fat16_delete_file
  fat16_delete_file-bpb fuel fs name d res e = elim (Bool-cases fs.mounted) [
    | inr off ↦ ground arith
    | inl on ↦ ground (arith, drop_file-bpb name fs)
  ]

  -- For a file that is not empty, on a volume whose clusters have a size, `fat16_write_file` returns -1
  -- or has not ended within its fuel.
  pub fat16_write_file-Fails :
      (fuel : ℕ) (fs : Fat) (name bytes : List ℕ) (size : ℕ) (d : Sectors)
      → 0 < size
      → 0 < cluster_size fs
      → Fails (fat16_write_file D fuel fs name bytes size d)
  unfolding fat16_write_file Fails
  fat16_write_file-Fails fuel fs name bytes size d h k = elim (Bool-cases fs.mounted) [
    | inr off ↦ inr (fs, d, ground arith)
    | inl on ↦ elim (Option-cases (fat16_delete_file D fuel fs name d)) [
      | inl e ↦ rw (fat16_write_file, e, on) (inl refl)
      | inr (res, e) ↦
          let same = fat16_delete_file-bpb fuel fs name d res e in
          rw (fat16_write_file, e, on)
            (write_new-Fails fuel res.1 name bytes size res.2 h (rw same k))
    ]
  ]
