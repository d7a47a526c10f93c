-- ===== src/Memory/Heap.antt =====
-- src/memory/heap.c: a first-fit allocator over a doubly linked list of block headers.
-- Memory is a function from addresses to words. A header at `p` is five words: `size` at p, the flag
-- `free` at p + 4, `next` at p + 8, `prev` at p + 12 and `magic` at p + 16. Nothing keeps a header
-- from overlapping another one or a payload, so a write that strays shows.
use dosfs.Prelude.{
  ℕ, zero, suc, ◌+◌, ◌-◌, ◌*◌, ◌/◌, ◌%◌, ◌^◌, Bool, true, false, not, ◌&&◌, ◌||◌, Option, none,
  some, ltb, leb, ◌==◌, if◌then◌else◌,
}
pub mod Cells
pub mod Usage
pub mod Linked
pub mod Malloc
pub mod Valid
pub mod Expand
pub mod Free
pub mod Release
pub mod Init
pub mod Wrap
mod Tests
use dosfs.Memory.Pages.{Pages}

abbrev pub u32 : ℕ → ℕ
u32 n = n % 2 ^ 32

abbrev pub heap_start : ℕ
heap_start = 0x400000

abbrev pub block_magic : ℕ
block_magic = 0xDEADBEEF

abbrev pub block_size : ℕ
block_size = 20

abbrev pub page_size : ℕ
page_size = 4096

-- `((x + 3) & ~3)`
abbrev pub align4 : ℕ → ℕ
align4 x = u32 (x + 3) / 4 * 4

abbrev pub Words : Type 0
Words = ℕ → ℕ

abbrev pub write : Words → ℕ → ℕ → Words
write m a v b = if a == b then v else m b

-- No list of distinct headers is longer; the loops over the list take it for their fuel.
abbrev pub max_blocks : ℕ
max_blocks = 2 ^ 32

-- `find_free_block`; the address 0 is NULL, and `none` says that the walk has not come to an end.
pub find_free_block : ℕ → Words → ℕ → ℕ → Option ℕ
find_free_block zero m p size = none
find_free_block (suc k) m p size =
    let rest = find_free_block k m (m (p + 8)) size in
    if p == 0 then some 0 else if not (m (p + 4) == 0) && leb size (m p) then some p else rest

-- `while (last->next) last = last->next;`
pub last_block : ℕ → Words → ℕ → Option ℕ
last_block zero m p = none
last_block (suc k) m p =
    let rest = last_block k m (m (p + 8)) in if m (p + 8) == 0 then some p else rest

-- the five assignments that make a header
abbrev pub put_header : Words → ℕ → ℕ → ℕ → ℕ → ℕ → Words
put_header m p size free next prev =
    write (write (write (write (write m p size) (p + 4) free) (p + 16) block_magic) (p + 8) next)
      (p + 12) prev

abbrev pub zero_page : Words → ℕ → Words
zero_page m base a = if leb base a && ltb a (base + page_size) then 0 else m a

-- `if (next) next->prev = p;`
abbrev pub link_back : Words → ℕ → ℕ → Words
link_back m next p = if next == 0 then m else write m (next + 12) p

-- The remainder of a free block becomes a free block of its own.
pub split_block : Words → ℕ → ℕ → Words
split_block m p size =
    let new = u32 (p + block_size + size) in
    let m1 = write m new (u32 (u32 (m p + 2 ^ 32 - size) + 2 ^ 32 - block_size)) in
    let m2 = write (write m1 (new + 4) 1) (new + 16) block_magic in
    let m3 = write m2 (new + 8) (m2 (p + 8)) in
    let m4 = write m3 (new + 12) p in
    let m5 = link_back m4 (m4 (p + 8)) new in write (write m5 (p + 8) new) p size

-- What `kmalloc` does with a free block that is large enough.
pub take_block : Words → ℕ → ℕ → Words
unfolding split_block
take_block m p size =
    write (if leb (u32 (size + block_size + 4)) (m p) then split_block m p size else m) (p + 4) 0

-- `block->size += BLOCK_SIZE + block->next->size` and the relinking after it
pub merge_next : Words → ℕ → Words
merge_next m p =
    let next = m (p + 8) in
    if next == 0 || (m (next + 4) == 0)
    then m
    else let m1 = write m p (u32 (m p + block_size + m next)) in
      let m2 = write m1 (p + 8) (m1 (m1 (p + 8) + 8)) in link_back m2 (m2 (p + 8)) p

pub merge_prev : Words → ℕ → Words
merge_prev m p =
    let prev = m (p + 12) in
    if prev == 0 || (m (prev + 4) == 0)
    then m
    else let m1 = write m prev (u32 (m prev + block_size + m p)) in
      let m2 = write m1 (m1 (p + 12) + 8) (m1 (p + 8)) in link_back m2 (m2 (p + 8)) (m2 (p + 12))

-- What `kfree` does once the magic number is right.
pub release_block : Words → ℕ → Words
unfolding merge_next merge_prev
release_block m p = merge_prev (merge_next (write m (p + 4) 1) p) p

module _ (P : Pages) where
  open P use {Frames, alloc_page, map_page}

  pub record Heap : Type 0 where
    pub words : Words
    pub head : ℕ
    pub current : ℕ
    pub frames : Frames

  -- The loop that maps `n` fresh pages at the end of the heap; false says that memory ran out.
  pub grow : ℕ → Heap → Bool × Heap
  grow zero h = (true, h)
  grow (suc n) h =
      let (page, f) = alloc_page h.frames in
      let rest = grow n (record h {
        words = zero_page h.words h.current;
        current = u32 (h.current + page_size);
        frames = map_page h.current page 3 f;
      }) in
      if page == 0 then (false, record h { frames = f }) else rest

  -- The loop of `heap_init`: how many of `n` pages it mapped before memory ran out.
  pub map_pages : ℕ → Heap → ℕ × Heap
  map_pages zero h = (0, h)
  map_pages (suc n) h =
      let (page, f) = alloc_page h.frames in
      let (k, h') = map_pages n (record h {
        current = u32 (h.current + page_size);
        frames = map_page h.current page 3 f;
      }) in
      if page == 0 then (0, record h { frames = f }) else (k + 1, h')

  -- The word memory at the start is whatever it was.
  pub heap_init : Heap → Heap
  unfolding map_pages
  heap_init h =
      let (k, h') = map_pages 64 (record h { current = heap_start; head = 0 }) in
      if k == 0 then h' else record h' {
        words = put_header h'.words heap_start (u32 (k * page_size + 2 ^ 32 - block_size)) 1 0 0;
        head = heap_start;
      }

  -- Puts a header in use at `block` and links it behind the last block.
  pub append_block : ℕ → ℕ → Heap → Option (ℕ × Heap)
  append_block block size h =
      let m = put_header h.words block size 0 0 0 in
      if h.head == 0
      then some (block, record h { words = m; head = block })
      else elim (last_block max_blocks m h.head) [
        | none ↦ none
        | some last ↦
            some (block, record h { words = write (write m (last + 8) block) (block + 12) last })
      ]

  pub expand_heap : ℕ → Heap → Option (ℕ × Heap)
  expand_heap size h =
      let needed = u32 (block_size + size) in
      let pages = u32 (needed + page_size - 1) / page_size in
      let (grown, h') = grow pages h in
      if grown then append_block h.current size h' else some (0, h')

  -- `kmalloc`; NULL is 0, and `none` says that a walk over the list has not come to an end.
  pub kmalloc : ℕ → Heap → Option (ℕ × Heap)
  kmalloc size h =
      if size == 0 || ltb (0xFFFFFFFF - block_size - 4) size
      then some (0, h)
      else elim (find_free_block max_blocks h.words h.head (align4 size)) [
        | none ↦ none
        | some zero ↦ elim (expand_heap (align4 size) h) [
          | none ↦ none
          | some (zero, h') ↦ some (0, h')
          | some (suc p, h') ↦ some (u32 (suc p + block_size), h')
        ]
        | some (suc p) ↦ some (
          u32 (suc p + block_size),
          record h { words = take_block h.words (suc p) (align4 size) },
        )
      ]

  pub kmalloc_aligned : ℕ → Heap → Option (ℕ × Heap)
  kmalloc_aligned size h =
      if size == 0 || ltb (0xFFFFFFFF - block_size - 4) size
      then some (0, h)
      else let total = u32 (block_size + align4 size) in
        let pages = u32 (total + page_size - 1) / page_size in
        let (grown, h') = grow pages h in
        if not grown
        then some (0, h')
        else elim (append_block h.current (u32 (pages * page_size + 2 ^ 32 - block_size)) h') [
          | none ↦ none
          | some (block, g) ↦ some (u32 (block + block_size), g)
        ]

  pub kfree : ℕ → Heap → Heap
  unfolding release_block
  kfree ptr h =
      let p = u32 (ptr + 2 ^ 32 - block_size) in
      if ptr == 0 || not (h.words (p + 16) == block_magic)
      then h
      else record h { words = release_block h.words p }

  -- `memcpy(new_ptr, ptr, block->size)`, word by word: block sizes are multiples of 4.
  pub copy_words : ℕ → ℕ → ℕ → Words → Words
  copy_words zero to from m = m
  copy_words (suc n) to from m = copy_words n (to + 4) (from + 4) (write m to (m from))

  pub krealloc : ℕ → ℕ → Heap → Option (ℕ × Heap)
  krealloc ptr size h =
      let p = u32 (ptr + 2 ^ 32 - block_size) in
      if ptr == 0
      then kmalloc size h
      else if size == 0
      then some (0, kfree ptr h)
      else if not (h.words (p + 16) == block_magic)
      then some (0, h)
      else if leb size (h.words p)
      then some (ptr, h)
      else elim (kmalloc size h) [
        | none ↦ none
        | some (zero, h') ↦ some (0, h')
        | some (suc q, h') ↦ some (
          suc q,
          kfree ptr (record h' { words = copy_words (h'.words p / 4) (suc q) ptr h'.words }),
        )
      ]
