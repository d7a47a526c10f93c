-- ===== src/Fs/Fat16/Files/Read.antt =====
-- When the loop of a read ends.
use dosfs.Prelude.{
  sym, ap, ◌∙◌, ℕ, zero, suc, ◌+◌, ◌-◌, ◌^◌, ◌<◌, ◌≤◌, ◌≡◌, refl, inl, inr, Bool, true, false, not,
  ◌&&◌, Option, none, some, List, ltb, if◌then◌else◌, pos, arith, Bool-cases, Option-cases, take,
  drop, ◌++◌,
}
use dosfs.Libc.{memcpy}
use dosfs.Fs.Disk.{Disk}
use dosfs.Fs.Fat16.{Fat, FatFile, u32, cluster_size, find_file, file_at}
use dosfs.Fs.Fat16.Chain.{in_chain, fat16_get_next_cluster, fat16_read_cluster}
use dosfs.Fs.Fat16.Files.{read_from, fat16_read_file}

module _ (D : Disk) where
  open D use {Sectors}

  -- the cluster `n` places behind another in its chain
  unfoldable pub follow : ℕ → Fat → ℕ → Sectors → ℕ
  follow zero fs cluster d = cluster
  follow (suc n) fs cluster d = follow n fs (fat16_get_next_cluster D fs cluster d) d

  -- the run has a result
  pub Returns : Option (ℕ × List ℕ) → Type 0
  Returns o = (n : ℕ) × (buf : List ℕ) × (o ≡ some (n, buf))

  read_from-Returns :
      (kmalloc_gives : ℕ → Bool) (n k : ℕ) (fs : Fat) (file : FatFile) (buf : List ℕ)
      (max_size cluster bytes_read : ℕ) (d : Sectors)
      → in_chain (follow n fs cluster d) ≡ false
      → Returns (read_from D kmalloc_gives n k fs file buf max_size cluster bytes_read d)
  unfolding read_from follow Returns
  read_from-Returns kmalloc_gives zero k fs file buf max_size cluster bytes_read d h =
      (bytes_read, buf, rw h refl)
  read_from-Returns kmalloc_gives (suc n) k fs file buf max_size cluster bytes_read d h =
      elim (Bool-cases (not (in_chain cluster && ltb bytes_read max_size && kmalloc_gives k))) [
        | inl stop ↦ (bytes_read, buf, rw stop refl)
        | inr go ↦ elim (Option-cases (fat16_read_cluster D fs cluster d)) [
          | inl failed ↦ (bytes_read, buf, rw (go, failed) refl)
          | inr (bytes, e) ↦
              let left = u32 (file.size + 2 ^ 32 - bytes_read) in
              let clipped = if ltb (cluster_size fs) left then cluster_size fs else left in
              let to_copy : ℕ =
                if ltb max_size (u32 (bytes_read + clipped))
                then max_size - bytes_read
                else clipped in
              let buf' : List ℕ =
                take bytes_read buf ++ memcpy (drop bytes_read buf) bytes to_copy in
              rw (go, e)
                (read_from-Returns kmalloc_gives n (k + 1) fs file buf' max_size
                  (fat16_get_next_cluster D fs cluster d) (u32 (bytes_read + to_copy)) d h)
        ]
      ]

  -- A file whose chain leaves the data clusters after `n` of them is read in `n` rounds at most,
  -- whatever the sizes and the answers of `kmalloc` and the disk are.
  pub fat16_read_file-Returns :
      (kmalloc_gives : ℕ → Bool) (n i : ℕ) (fs : Fat) (name buf : List ℕ) (max_size : ℕ)
      (d : Sectors)
      → fs.mounted ≡ true
      → find_file fs.file_count 0 name fs ≡ some i
      → in_chain (follow n fs (file_at fs i).first_cluster d) ≡ false
      → (bytes_read : ℕ) × (buf' : List ℕ) × (fat16_read_file D kmalloc_gives n fs name buf max_size
            d
          ≡ some (pos bytes_read, buf'))
  unfolding fat16_read_file Returns
  fat16_read_file-Returns kmalloc_gives n i fs name buf max_size d mounted found ends =
      let (bytes_read, buf', e) =
        read_from-Returns kmalloc_gives n 0 fs (file_at fs i) buf max_size
          (file_at fs i).first_cluster 0 d ends in
      (bytes_read, buf', rw (fat16_read_file, found, e, mounted) refl)

  -- The clusters of a chain that can be read and lie among the data clusters.
  unfoldable pub Readable : Fat → Sectors → ℕ → Type 0
  Readable fs d cluster =
      (in_chain cluster ≡ true)
      × ((bytes : List ℕ) × (fat16_read_cluster D fs cluster d ≡ some bytes))

  -- A chain that never leaves the readable clusters keeps the loop running: behind the end of the
  -- file it is followed, and nothing is copied.
  read_from-circles :
      (kmalloc_gives : ℕ → Bool) (n k : ℕ) (fs : Fat) (file : FatFile) (buf : List ℕ)
      (max_size cluster bytes_read : ℕ) (d : Sectors)
      → ((j : ℕ) → kmalloc_gives j ≡ true)
      → ((j : ℕ) → Readable fs d (follow j fs cluster d))
      → bytes_read ≤ file.size
      → file.size < max_size
      → file.size < 2 ^ 32
      → read_from D kmalloc_gives n k fs file buf max_size cluster bytes_read d ≡ none
  unfolding read_from follow Readable
  read_from-circles kmalloc_gives zero k fs file buf max_size cluster bytes_read d memory chain
        within fits word =
      let less : ltb bytes_read max_size ≡ true = ground (arith, within) in
      rw ((chain 0).0, less) refl
  read_from-circles kmalloc_gives (suc n) k fs file buf max_size cluster bytes_read d memory chain
        within fits word =
      let (bytes, e) = (chain 0).1 in
      let less : ltb bytes_read max_size ≡ true = ground (arith, within) in
      let left : u32 (file.size + 2 ^ 32 - bytes_read) ≡ file.size - bytes_read =
        omega (arith, within, word) in
      let clipped : ℕ =
        if ltb (cluster_size fs) (file.size - bytes_read)
        then cluster_size fs
        else file.size - bytes_read in
      let small : clipped ≤ file.size - bytes_read = ground arith in
      let sum : u32 (bytes_read + clipped) ≡ bytes_read + clipped =
        omega (arith, within, small, word) in
      let room : ltb max_size (bytes_read + clipped) ≡ false = ground (arith, small, within) in
      let buf' : List ℕ = take bytes_read buf ++ memcpy (drop bytes_read buf) bytes clipped in
      rw ((chain 0).0, less, memory k, e, left, sum, room, sum)
        (read_from-circles kmalloc_gives n (k + 1) fs file buf' max_size
          (fat16_get_next_cluster D fs cluster d) (bytes_read + clipped) d memory
          (λ j. chain (suc j)) (omega (arith, within, small)) fits word)

  follow-add :
      (n k : ℕ) (fs : Fat) (cluster : ℕ) (d : Sectors)
      → follow (n + k) fs cluster d ≡ follow k fs (follow n fs cluster d) d
  unfolding follow
  follow-add zero k fs cluster d = let e : 0 + k ≡ k = omega arith in rw e refl
  follow-add (suc n) k fs cluster d =
      let e : suc n + k ≡ suc (n + k) = omega arith in
      rw e (follow-add n k fs (fat16_get_next_cluster D fs cluster d) d)

  -- A chain that comes back goes round for ever: what holds of its clusters up to there holds of all.
  all_round :
      (fuel j a m : ℕ) (fs : Fat) (cluster : ℕ) (d : Sectors)
      → j < fuel
      → 0 < m
      → follow (a + m) fs cluster d ≡ follow a fs cluster d
      → ((i : ℕ) → i < a + m → Readable fs d (follow i fs cluster d))
      → Readable fs d (follow j fs cluster d)
  all_round zero j a m fs cluster d lt round back chain = absurd (omega (arith, lt))
  all_round (suc fuel) j a m fs cluster d lt round back chain = elim (Bool-cases (ltb j (a + m))) [
    | inl early ↦ chain j (ground arith)
    | inr late ↦
        let rest : ℕ = j - (a + m) in
        let split : j ≡ a + m + rest = ground arith in
        let same : follow j fs cluster d ≡ follow (a + rest) fs cluster d =
          ap (λ k. follow k fs cluster d) split
          ∙ follow-add (a + m) rest fs cluster d
          ∙ ap (λ c. follow rest fs c d) back
          ∙ sym (follow-add a rest fs cluster d) in
        rw same (all_round fuel (a + rest) a m fs cluster d (ground arith) round back chain)
  ]

  -- A file whose chain comes back to a cluster that it has had, `m` clusters after the place `a`, is
  -- read for ever, when the clusters up to there are data clusters that can be read, each `kmalloc`
  -- gives memory and the buffer is larger than the file.
  pub fat16_read_file-circles :
      (kmalloc_gives : ℕ → Bool) (fuel i a m : ℕ) (fs : Fat) (name buf : List ℕ) (max_size : ℕ)
      (d : Sectors)
      → ((j : ℕ) → kmalloc_gives j ≡ true)
      → fs.mounted ≡ true
      → find_file fs.file_count 0 name fs ≡ some i
      → 0 < m
      → follow (a + m) fs (file_at fs i).first_cluster d
        ≡ follow a fs (file_at fs i).first_cluster d
      → ((j : ℕ) → j < a + m → Readable fs d (follow j fs (file_at fs i).first_cluster d))
      → (file_at fs i).size < max_size
      → (file_at fs i).size < 2 ^ 32
      → fat16_read_file D kmalloc_gives fuel fs name buf max_size d ≡ none
  unfolding fat16_read_file
  fat16_read_file-circles kmalloc_gives fuel i a m fs name buf max_size d memory mounted found round
        back chain fits word =
      let file : FatFile = file_at fs i in
      let endless =
        read_from-circles kmalloc_gives fuel 0 fs file buf max_size file.first_cluster 0 d memory
          (λ j. all_round (suc j) j a m fs file.first_cluster d (omega arith) round back chain)
          (omega arith) fits word in
      rw (fat16_read_file, found, endless, mounted) refl
