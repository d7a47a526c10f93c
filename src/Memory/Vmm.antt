-- ===== src/Memory/Vmm.antt =====
-- src/memory/vmm.c: page directories and page tables.
-- Memory is the function from addresses to words of the heap's model, and a bit field is arithmetic on
-- its word. The physical pages are parameters: a page is its address, and 0 is NULL. The control
-- registers and the flushing of addresses are left out.
mod Translate
mod Tests
use dosfs.Prelude.{
  ℕ, zero, suc, ◌+◌, ◌-◌, ◌*◌, ◌/◌, ◌%◌, ◌^◌, Bool, true, false, not, ◌&&◌, ◌||◌, Option, none,
  some, ltb, leb, ◌==◌, if◌then◌else◌,
}
use dosfs.Memory.Heap.{Words, write, zero_page}

pub record Vmm (Frames : Type 0) : Type 0 where
  pub words : Words
  pub frames : Frames
  pub current_directory : ℕ
  pub kernel_directory : ℕ

abbrev pub present : ℕ → Bool
present w = w % 2 == 1

-- the field of 20 bits, `table` or `frame`, as the address that it is shifted to
abbrev pub page_of : ℕ → ℕ
page_of w = w / 4096 * 4096

-- The word with new `present`, `rw`, `user` and page, and its other bits.
abbrev pub entry : ℕ → ℕ → ℕ → ℕ → ℕ
entry w rw user page = 1 + 2 * rw + 4 * user + 8 * (w / 8 % 512) + page_of page

abbrev pub dir_index : ℕ → ℕ
dir_index virt = virt / 2 ^ 22

abbrev pub table_index : ℕ → ℕ
table_index virt = virt / 2 ^ 12 % 1024

-- the entry `table[j]` for the page `j` behind `base`, from `j` on
pub identity_table : ℕ → ℕ → ℕ → ℕ → Words → Words
identity_table zero j base table m = m
identity_table (suc n) j base table m =
    let a = table + 4 * j in
    identity_table n (j + 1) base table (write m a (entry (m a) 1 0 (base + j * 4096)))

module _ {Frames : Type 0} (alloc_page : Frames → ℕ × Frames)
    (free_page : ℕ → Frames → Frames) where
  pub get_page_table : ℕ → ℕ → Bool → Vmm Frames → ℕ × Vmm Frames
  get_page_table dir index create v =
      let slot = dir + 4 * index in
      let (table, frames') = alloc_page v.frames in
      let m = zero_page v.words table in
      if present (v.words slot)
      then (page_of (v.words slot), v)
      else if not create
      then (0, v)
      else if table == 0
      then (0, record v { frames = frames' })
      else (table, record v { frames = frames'; words = write m slot (entry (m slot) 1 0 table) })

  -- one table of `vmm_init`: a fresh page, filled and entered at `index`
  pub identity_map : ℕ → ℕ → Vmm Frames → Vmm Frames
  unfolding identity_table
  identity_map index base v =
      let (table, frames') = alloc_page v.frames in
      let m = identity_table 1024 0 base table (zero_page v.words table) in
      let slot = v.kernel_directory + 4 * index in
      if table == 0
      then record v { frames = frames' }
      else record v { frames = frames'; words = write m slot (entry (m slot) 1 0 table) }

  -- the first loop of `vmm_init`, `n` rounds from `i` on
  pub identity_maps : ℕ → ℕ → Vmm Frames → Vmm Frames
  identity_maps zero i v = v
  identity_maps (suc n) i v = identity_maps n (i + 1) (identity_map i (i * 1024 * 4096) v)

  -- There is no result when the processor halts.
  pub vmm_init : Vmm Frames → Option (Vmm Frames)
  vmm_init v =
      let (dir, frames') = alloc_page v.frames in
      let v' = record v {
        frames = frames';
        words = zero_page v.words dir;
        kernel_directory = dir;
      } in
      let mapped = identity_map (0xFFC00000 / 2 ^ 22) 0xFFC00000 (identity_maps 16 0 v') in
      if dir == 0 then none else some (record mapped { current_directory = dir })

  pub vmm_map_page : ℕ → ℕ → ℕ → Vmm Frames → Vmm Frames
  unfolding get_page_table
  vmm_map_page virt phys flags v =
      let (table, v') = get_page_table v.current_directory (dir_index virt) true v in
      let a = table + 4 * table_index virt in
      if table == 0 then v' else record v' {
        words = write v'.words a (entry (v'.words a) (flags / 2 % 2) (flags / 4 % 2) phys);
      }

  pub vmm_unmap_page : ℕ → Vmm Frames → Vmm Frames
  unfolding get_page_table
  vmm_unmap_page virt v =
      let (table, v') = get_page_table v.current_directory (dir_index virt) false v in
      let a = table + 4 * table_index virt in
      if table == 0
      then v'
      else record v' { words = write v'.words a (2 * (v'.words a / 2 % 2048)) }

  pub vmm_get_physical : ℕ → Vmm Frames → ℕ
  unfolding get_page_table
  vmm_get_physical virt v =
      let table = (get_page_table v.current_directory (dir_index virt) false v).0 in
      let w = v.words (table + 4 * table_index virt) in
      if (table == 0) || not (present w) then 0 else page_of w + virt % 4096

  pub vmm_switch_directory : ℕ → Vmm Frames → Vmm Frames
  vmm_switch_directory dir v = record v { current_directory = dir }

  -- `n` rounds of the copying loop, from `i` on
  pub copy_entries : ℕ → ℕ → ℕ → ℕ → Words → Words
  copy_entries zero i dir kernel m = m
  copy_entries (suc n) i dir kernel m =
      let e = m (kernel + 4 * i) in
      copy_entries n (i + 1) dir kernel (if present e then write m (dir + 4 * i) e else m)

  pub vmm_create_directory : Vmm Frames → ℕ × Vmm Frames
  unfolding copy_entries
  vmm_create_directory v =
      let (dir, frames') = alloc_page v.frames in
      let m = copy_entries 1008 16 dir v.kernel_directory (zero_page v.words dir) in
      if dir == 0
      then (0, record v { frames = frames' })
      else (dir, record v { frames = frames'; words = m })

  -- `n` rounds of the loop over a table's pages, from `j` on
  pub free_pages : ℕ → ℕ → ℕ → Words → Frames → Frames
  free_pages zero j table m f = f
  free_pages (suc n) j table m f =
      let w = m (table + 4 * j) in
      free_pages n (j + 1) table m (if present w then free_page (page_of w) f else f)

  pub free_table : ℕ → Words → Frames → Frames
  unfolding free_pages
  free_table table m f = free_page table (free_pages 1024 0 table m f)

  -- `n` rounds of the loops over the directory, from `i` on: below 16 the kernel's tables are kept.
  pub free_tables : ℕ → ℕ → ℕ → ℕ → Words → Frames → Frames
  free_tables zero i dir kernel m f = f
  free_tables (suc n) i dir kernel m f =
      let e = m (dir + 4 * i) in
      let shared = ltb i 16 && (page_of e == page_of (m (kernel + 4 * i))) in
      free_tables n (i + 1) dir kernel m
        (if present e && not shared then free_table (page_of e) m f else f)

  pub vmm_free_directory : ℕ → Vmm Frames → Vmm Frames
  unfolding free_tables
  vmm_free_directory dir v = record v {
    frames = free_page dir (free_tables 1024 0 dir v.kernel_directory v.words v.frames);
  }
