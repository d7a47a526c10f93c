-- ===== src/Fs/Tmpfs/Operations.antt =====
-- The operations of tmpfs as operations of a map from names to contents.
use dosfs.Prelude.{
  Option, not, is_zero, Bool-cases, ℤ, leb, ◌&&◌, true, ℕ, ◌+◌, ◌-◌, ◌%◌, ◌^◌, ◌≤◌, ◌<◌, ◌≡◌, ◌≢◌,
  ◌⊎◌, refl, sym, ap, ◌∙◌, inl, inr, false, none, some, List, [], ◌++◌, arith, length, set, take,
  take-take, drop, Option-cases, if◌then◌else◌, ltb, min, pos, negsuc, length-take,
}
use dosfs.Libc.Text.{text, IsText, text-strncpy, text-IsText, IsText-take}
use dosfs.Libc.Copy.{memcpy_lem}
use dosfs.Fs.Tmpfs.{
  find_unused, File, Tmpfs, file_at, has_name, find_file, fresh_file, fill_file, tmpfs_create,
  tmpfs_write, tmpfs_read, tmpfs_delete,
}
use dosfs.Fs.Tmpfs.Lookup.{
  lookup-set_other, lookup-remove, find_file-some, find_file-none, has_name-ne, has_name-text,
  has_name-used,
}
use dosfs.Fs.Tmpfs.Valid.{IsValid, in_use-set, in_use-le-length, removed-IsValid}
use dosfs.Fs.Tmpfs.Updates.{
  contents, contents-none, contents-some, find_file_free, Updated, Updated-trans, only,
  unused_nameless, set-Updated, fill_file-Updated, create_free, create-Updated, find_file_of_lookup,
}

-- Under a name of at most 63 bytes, in a well-formed table with a slot to spare or a file of that
-- name, `tmpfs_write` stores the first 4096 bytes at most, returns how many they are, leaves what is
-- held under other names and keeps the table well-formed.
pub tmpfs_write-Updated :
    (t : Tmpfs) (k bytes : List ℕ) (size : ℕ)
    → IsValid t
    → length k ≤ 63
    → size ≤ length bytes
    → (contents t k ≢ none) ⊎ (t.file_count < 32)
    → (t' : Tmpfs) × (tmpfs_write k bytes size t ≡ some (pos (min 4096 size), t'))
      × Updated t k (some (take (min 4096 size) bytes)) t'
unfolding tmpfs_write
tmpfs_write-Updated t k bytes size v short s room = elim (Option-cases (find_file t.files k)) [
  | inr (i, e) ↦
      let (r, up) = fill_file-Updated t k bytes size i v e s in
      let t' : Tmpfs = (fill_file i bytes size t).1 in
      let w = fill_file i bytes size t in
      (t', rw (tmpfs_write, e) (ap some (ap (λ x. (x, t')) r)), up)
  | inl e ↦
      let spare : t.file_count < 32 = elim room [
        | inl held ↦ absurd (held (contents-none t k e))
        | inr lt ↦ lt
      ] in
      let (r, up) = create-Updated t k v e spare short in
      let u : Tmpfs = (tmpfs_create k t).1 in
      elim (Option-cases (find_file u.files k)) [
        | inl n ↦ absurd (cc (contents-none u k n, up.here))
        | inr (i, f) ↦
            let (r2, up2) = fill_file-Updated u k bytes size i up.valid f s in
            let t' : Tmpfs = (fill_file i bytes size u).1 in
            (
              t',
              rw (tmpfs_write, e, r, f) (ap some (ap (λ x. (x, t')) r2)),
              Updated-trans t u t' k (some []) _ up up2,
            )
      ]
]

-- The first 63 bytes of a longer text are another text.
cut_short : (k : List ℕ) → IsText k → 63 < length k → text (take 63 k) ≢ text k
cut_short k t long e =
    let whole = text-IsText k t in
    let part = text-IsText (take 63 k) (IsText-take 63 k t) in
    absurd (omega (arith, length-take 63 k, ap length (sym part ∙ e ∙ whole), long))

-- In a well-formed table with a slot to spare, a write under a free name of 64 bytes or more goes
-- through NULL: the name is cut off when its file is made, and that file is not found.
pub tmpfs_write_long :
    (t : Tmpfs) (k bytes : List ℕ) (size : ℕ)
    → IsValid t
    → IsText k
    → 63 < length k
    → contents t k ≡ none
    → t.file_count < 32
    → tmpfs_write k bytes size t ≡ none
unfolding tmpfs_write fresh_file
tmpfs_write_long t k bytes size v tk long free room =
    let e = find_file_free t k free in
    let (i, lt, unused, made) = create_free t k v e room in
    let f : File = file_at t i in
    let g : File = fresh_file f k in
    let fv = v.slots i lt in
    let inside : i < length t.files = omega (arith, v.full) in
    let other : has_name g k ≡ false = has_name-ne g k (λ q.
      cut_short k tk long (sym (text-strncpy f.name k 63 (omega (arith, fv.name_size))) ∙ q)) in
    let still =
      lookup-set_other t.files k i g inside (unused_nameless f unused k) other
      ∙ find_file-none t.files k e in
    let missing = find_file_of_lookup (set t.files i g) k still in
    rw (tmpfs_write, e, made, missing) refl

-- In a well-formed table, `tmpfs_read` copies what is held under the name, as much of it as the
-- buffer holds, and says how much that is; it returns -1 when the name is free.
pub tmpfs_read_lem :
    (t : Tmpfs) (k buf : List ℕ) (max_size : ℕ)
    → IsValid t
    → max_size ≤ length buf
    → tmpfs_read k buf max_size t ≡ elim (contents t k) [
      | none ↦ (negsuc 0, buf)
      | some c ↦
          (pos (min max_size (length c)), take max_size c ++ drop (min max_size (length c)) buf)
    ]
unfolding tmpfs_read
tmpfs_read_lem t k buf max_size v h = elim (Option-cases (find_file t.files k)) [
  | inl e ↦ rw (tmpfs_read, e, contents-none t k e) refl
  | inr (i, e) ↦
      let f : File = file_at t i in
      let fv = v.slots i (omega (arith, v.full, (find_file-some t.files k i e).2)) in
      let n : ℕ = min max_size f.size in
      let len : length (take f.size f.content) ≡ f.size =
        omega (arith, length-take f.size f.content, fv.size_bound, fv.content_size) in
      let clip : (if ltb max_size f.size then max_size else f.size) ≡ n = ground arith in
      let copied =
        memcpy_lem buf f.content n (omega arith) (omega (arith, fv.size_bound, fv.content_size)) in
      rw
        (
          tmpfs_read,
          e,
          contents-some t k i e,
          len,
          clip,
          copied,
          take-take max_size f.size f.content,
        )
        refl
]

-- In a well-formed table, `tmpfs_delete` frees the name, leaves what is held under other names and
-- keeps the table well-formed; it returns -1 when the name was free.
pub tmpfs_delete-Updated :
    (t : Tmpfs) (k : List ℕ)
    → IsValid t
    → Updated t k none (tmpfs_delete k t).1
      × ((tmpfs_delete k t).0 ≡ elim (contents t k) [ none ↦ negsuc 0 | some c ↦ pos 0 ])
unfolding tmpfs_delete contents
tmpfs_delete-Updated t k v = elim (Option-cases (find_file t.files k)) [
  | inl e ↦
      rw (tmpfs_delete, e, contents-none t k e)
        (record { valid = v; here = contents-none t k e; elsewhere = λ n ne. refl }, refl)
  | inr (i, e) ↦
      let (at, named, inside) = find_file-some t.files k i e in
      let f : File = file_at t i in
      let g : File = record f { used = false } in
      let lt : i < 32 = omega (arith, v.full, inside) in
      let used = has_name-used f k named in
      let gone = lookup-remove t.files k i g v.unique e refl in
      let count = in_use-set t.files i g inside in
      let up =
        set-Updated t k i g ((t.file_count + 2 ^ 32 - 1) % 2 ^ 32) none v lt
          (removed-IsValid f (v.slots i lt)) (λ u. ground arith)
          (ground (arith, v.counted, count, v.full, in_use-le-length t.files, used))
          (rw (contents, gone) refl) (only f k (has_name-text f k named))
          (λ l ne. unused_nameless g refl l) in
      rw (tmpfs_delete, e, contents-some t k i e) (up, refl)
]

-- After `tmpfs_delete` of a name that was held, or of any name in a table with a slot to spare, there is a slot to spare.
pub tmpfs_delete_room :
    (t : Tmpfs) (k : List ℕ)
    → IsValid t
    → (contents t k ≢ none) ⊎ (t.file_count < 32)
    → (tmpfs_delete k t).1.file_count < 32
unfolding tmpfs_delete
tmpfs_delete_room t k v room =
    let now : (tmpfs_delete k t).1.file_count ≤ 32 =
      let u = (tmpfs_delete-Updated t k v).0.valid in
      omega (arith, u.counted, u.full, in_use-le-length (tmpfs_delete k t).1.files) in
    let before : t.file_count ≤ 32 = omega (arith, v.counted, v.full, in_use-le-length t.files) in
    elim (Option-cases (find_file t.files k)) [
      | inl e ↦
          let same : (tmpfs_delete k t).1 ≡ t = rw (tmpfs_delete, e) refl in
          elim room [ inl held ↦ absurd (held (contents-none t k e)) | inr lt ↦ rw same lt ]
      | inr (i, e) ↦
          let less : (tmpfs_delete k t).1.file_count ≡ (t.file_count + 2 ^ 32 - 1) % 2 ^ 32 =
            rw (tmpfs_delete, e) refl in
          omega (arith, less, now, before)
    ]

-- A file holds at most 4096 bytes.
pub contents-bound :
    (t : Tmpfs) (k c : List ℕ) → IsValid t → contents t k ≡ some c → length c ≤ 4096
contents-bound t k c v h = elim (Option-cases (find_file t.files k)) [
  | inl e ↦ absurd (cc (contents-none t k e, h))
  | inr (i, e) ↦
      let f : File = file_at t i in
      let fv = v.slots i (omega (arith, v.full, (find_file-some t.files k i e).2)) in
      let same : c ≡ take f.size f.content =
        ap (λ o. elim o as (λ x. List ℕ) [ none ↦ [] | some y ↦ y ])
          (sym h ∙ contents-some t k i e) in
      rw same (omega (arith, length-take f.size f.content, fv.size_bound))
]

-- A write under a free name in a full table changes nothing, and returns -1.
pub tmpfs_write_full :
    (t : Tmpfs) (k bytes : List ℕ) (size : ℕ)
    → IsValid t
    → contents t k ≡ none
    → t.file_count ≡ 32
    → tmpfs_write k bytes size t ≡ some (negsuc 0, t)
unfolding tmpfs_write tmpfs_create
tmpfs_write_full t k bytes size v free full =
    let missing = find_file_free t k free in
    let none_left : (leb 32 t.file_count && ltb t.file_count (2 ^ 31)) ≡ true = ground arith in
    let refused : tmpfs_create k t ≡ (negsuc 0, t) = rw (tmpfs_create, missing, none_left) refl in
    rw (tmpfs_write, missing, refused) refl

-- Making a file makes the count greater by 1 at most.
tmpfs_create-count : (t : Tmpfs) (k : List ℕ) → (tmpfs_create k t).1.file_count ≤ t.file_count + 1
unfolding tmpfs_create
tmpfs_create-count t k = elim (Option-cases (find_file t.files k)) [
  | inr (i, e) ↦ rw (tmpfs_create, e) (omega arith)
  | inl e ↦ elim (Bool-cases (leb 32 t.file_count && ltb t.file_count (2 ^ 31))) [
    | inl full ↦ rw (tmpfs_create, e, full) (omega arith)
    | inr spare ↦ elim (Option-cases (find_unused t.files)) [
      | inl none_left ↦ rw (tmpfs_create, e, spare, none_left) (omega arith)
      | inr (i, found) ↦ rw (tmpfs_create, e, spare, found) (omega arith)
    ]
  ]
]

-- the count of a table that there may be
abbrev pub count_of : Option (ℤ × Tmpfs) → ℕ
count_of none = 0
count_of (some (r, t)) = t.file_count

-- So does a write.
pub tmpfs_write-count :
    (t : Tmpfs) (k bytes : List ℕ) (size : ℕ)
    → count_of (tmpfs_write k bytes size t) ≤ t.file_count + 1
unfolding tmpfs_write fill_file
tmpfs_write-count t k bytes size = elim (Option-cases (find_file t.files k)) [
  | inr (i, e) ↦ rw (tmpfs_write, e) (omega arith)
  | inl e ↦
      let made = tmpfs_create-count t k in
      elim (Bool-cases (not (is_zero (tmpfs_create k t).0))) [
        | inl failed ↦ rw (tmpfs_write, e, failed) made
        | inr fine ↦ elim (Option-cases (find_file (tmpfs_create k t).1.files k)) [
          | inl lost ↦ rw (tmpfs_write, e, fine, lost) (omega arith)
          | inr (i, f) ↦ rw (tmpfs_write, e, fine, f) made
        ]
      ]
]
