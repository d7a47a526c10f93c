-- ===== src/Fs/Tmpfs/Updates.antt =====
-- What the table holds under each name, and the writes to one slot that change it under one name.
use dosfs.Prelude.{
  ℕ, ◌+◌, ◌%◌, ◌^◌, ◌≤◌, ◌<◌, ◌≡◌, ◌≢◌, refl, sym, ap, ◌∙◌, inl, inr, true, false, ◌&&◌, Option,
  none, some, List, [], arith, length, set, take, take_all, Bool-cases, Option-cases, if◌then◌else◌,
  ltb, leb, min, pos,
}
use dosfs.Libc.{memcpy}
use dosfs.Libc.Text.{text, text-strncpy}
use dosfs.Libc.Copy.{take-memcpy}
use dosfs.Fs.Tmpfs.{
  File, Tmpfs, file_at, has_name, find_file, find_unused, fresh_file, fill_file, tmpfs_init,
  tmpfs_create,
}
use dosfs.Fs.Tmpfs.Lookup.{
  lookup, lookup-congr, lookup-set_self, lookup-set_other, lookup-set_new, find_file-some,
  find_file-none, find_unused-some, has_name-ne, has_name-text, has_name-used, has_name_of_text,
}
use dosfs.Fs.Tmpfs.Valid.{
  IsValid, FileIsValid, Fits, set-IsValid, lookup-replicate, in_use, in_use-set, find_unused-none,
  fresh_file-IsValid, filled-IsValid,
}

-- What a file system holds under a name.
unfoldable pub contents : Tmpfs → List ℕ → Option (List ℕ)
contents t n = elim (lookup t.files n) [ none ↦ none | some f ↦ some (take f.size f.content) ]

pub contents-none : (t : Tmpfs) (k : List ℕ) → find_file t.files k ≡ none → contents t k ≡ none
unfolding contents
contents-none t k e = let free = find_file-none t.files k e in rw (contents, free) refl

pub contents-some :
    (t : Tmpfs) (k : List ℕ) (i : ℕ)
    → find_file t.files k ≡ some i
    → contents t k ≡ some (take (file_at t i).size (file_at t i).content)
unfolding contents
contents-some t k i e = let held = (find_file-some t.files k i e).0 in rw (contents, held) refl

pub tmpfs_init-contents : (k : List ℕ) → contents tmpfs_init k ≡ none
unfolding contents
tmpfs_init-contents k = let free = lookup-replicate 32 k in rw (contents, free) refl

pub find_file_free : (t : Tmpfs) (k : List ℕ) → contents t k ≡ none → find_file t.files k ≡ none
find_file_free t k h = elim (Option-cases (find_file t.files k)) [
  | inl e ↦ e
  | inr (i, e) ↦ absurd (cc (contents-some t k i e, h))
]

-- `t'` is `t` but for what it holds under `k`.
pub record Updated (t : Tmpfs) (k : List ℕ) (c : Option (List ℕ)) (t' : Tmpfs) : Type 0 where
  pub valid : IsValid t'
  pub here : contents t' k ≡ c
  pub elsewhere : (n : List ℕ) → text n ≢ text k → contents t' n ≡ contents t n

-- A write to one slot, for a name that neither its old nor its new file shares with others.
pub set-Updated :
    (t : Tmpfs) (k : List ℕ) (i : ℕ) (g : File) (n : ℕ) (c : Option (List ℕ))
    → IsValid t
    → i < 32
    → FileIsValid g
    → Fits t.files i g
    → n ≡ in_use (set t.files i g)
    → contents (record t { files = set t.files i g; file_count = n }) k ≡ c
    → ((l : List ℕ) → text l ≢ text k → has_name (file_at t i) l ≡ false)
    → ((l : List ℕ) → text l ≢ text k → has_name g l ≡ false)
    → Updated t k c (record t { files = set t.files i g; file_count = n })
unfolding contents
set-Updated t k i g n c v lt gv fit count e old new = record {
  valid = set-IsValid t i g n v lt gv fit count;
  here = e;
  elsewhere = λ l ne.
      let same = lookup-set_other t.files l i g (omega (arith, v.full)) (old l ne) (new l ne) in
      rw (contents, same) refl;
}

-- A file of that name has no other.
pub only :
    (f : File) (k : List ℕ)
    → text f.name ≡ text k
    → (l : List ℕ) → text l ≢ text k
    → has_name f l ≡ false
only f k e l ne = has_name-ne f l (λ q. ne (sym q ∙ e))

-- Writing a file with the name of the slot's old file.
pub fill_file-Updated :
    (t : Tmpfs) (k bytes : List ℕ) (size i : ℕ)
    → IsValid t
    → find_file t.files k ≡ some i
    → size ≤ length bytes
    → ((fill_file i bytes size t).0 ≡ pos (min 4096 size))
      × Updated t k (some (take (min 4096 size) bytes)) (fill_file i bytes size t).1
unfolding fill_file contents
fill_file-Updated t k bytes size i v e s =
    let n = min 4096 size in
    let (at, named, inside) = find_file-some t.files k i e in
    let f : File = file_at t i in
    let lt : i < 32 = omega (arith, v.full, inside) in
    let fv = v.slots i lt in
    let used = has_name-used f k named in
    let e_name = has_name-text f k named in
    let g : File = record f { content = memcpy f.content bytes n; size = n } in
    let clip : (if ltb 4096 size then 4096 else size) ≡ n = ground arith in
    let g_named : has_name g k ≡ true = has_name_of_text g k used e_name in
    let held = lookup-set_self t.files k i g e g_named in
    let kept = take-memcpy f.content bytes n (omega (arith, fv.content_size)) (omega arith) in
    let up : Updated t k (some (take n bytes)) (record t { files = set t.files i g }) =
      set-Updated t k i g t.file_count (some (take n bytes)) v lt
        (filled-IsValid f bytes n fv (omega arith)) (λ u. inr (used, refl))
        (omega (arith, v.counted, in_use-set t.files i g inside)) (rw (contents, held, kept) refl)
        (only f k e_name) (only g k e_name) in
    rw clip (refl, up)

-- A name of at most 63 bytes is kept whole.
fresh_file-name :
    (f : File) (k : List ℕ)
    → 63 < length f.name
    → length k ≤ 63
    → text (fresh_file f k).name ≡ text k
unfolding fresh_file
fresh_file-name f k h s = text-strncpy f.name k 63 h ∙ ap text (take_all 63 k s)

-- A file that is not in use has no name.
pub unused_nameless : (f : File) → f.used ≡ false → (l : List ℕ) → has_name f l ≡ false
unused_nameless f u l = elim (Bool-cases (has_name f l)) [
  | inl e ↦ absurd (cc (has_name-used f l e, u))
  | inr e ↦ e
]

pub find_file_of_lookup : (fs : List File) (k : List ℕ) → lookup fs k ≡ none → find_file fs k ≡ none
find_file_of_lookup fs k h = elim (Option-cases (find_file fs k)) [
  | inl e ↦ e
  | inr (i, e) ↦ absurd (cc (h, (find_file-some fs k i e).0))
]

-- With a slot to spare, `tmpfs_create` puts a fresh file into an unused one.
pub create_free :
    (t : Tmpfs) (k : List ℕ)
    → IsValid t
    → find_file t.files k ≡ none
    → t.file_count < 32
    → (i : ℕ) × (i < 32)
      × ((file_at t i).used ≡ false)
      × (tmpfs_create k t ≡ (
        pos 0,
        record {
          files = set t.files i (fresh_file (file_at t i) k);
          file_count = (t.file_count + 1) % 2 ^ 32;
        },
      ))
unfolding tmpfs_create
create_free t k v e room = elim (Option-cases (find_unused t.files)) [
  | inl n ↦ absurd (omega (arith, find_unused-none t.files n, v.counted, v.full))
  | inr (i, n) ↦
      let (free, inside) = find_unused-some t.files i n in
      let go : (leb 32 t.file_count && ltb t.file_count (2 ^ 31)) ≡ false = ground arith in
      (i, omega (arith, v.full, inside), free, rw (tmpfs_create, e, go, n) refl)
]

-- Creating a file under a name of at most 63 bytes.
pub create-Updated :
    (t : Tmpfs) (k : List ℕ)
    → IsValid t
    → find_file t.files k ≡ none
    → t.file_count < 32
    → length k ≤ 63
    → ((tmpfs_create k t).0 ≡ pos 0) × Updated t k (some []) (tmpfs_create k t).1
unfolding contents fresh_file
create-Updated t k v e room short =
    let (i, lt, free, made) = create_free t k v e room in
    let f : File = file_at t i in
    let g : File = fresh_file f k in
    let fv = v.slots i lt in
    let inside : i < length t.files = omega (arith, v.full) in
    let e_name = fresh_file-name f k (omega (arith, fv.name_size)) short in
    let named : has_name g k ≡ true = has_name_of_text g k refl e_name in
    let held = lookup-set_new t.files k i g (find_file-none t.files k e) inside named in
    let free_name : lookup t.files g.name ≡ none =
      lookup-congr t.files g.name k e_name ∙ find_file-none t.files k e in
    let count = in_use-set t.files i g inside in
    let up =
      set-Updated t k i g ((t.file_count + 1) % 2 ^ 32) (some []) v lt (fresh_file-IsValid f k fv)
        (λ u. inl free_name) (ground (arith, v.counted, count, room)) (rw (contents, held) refl)
        (λ l ne. unused_nameless f free l) (only g k e_name) in
    rw made (refl, up)

-- An update of an update under the same name.
pub Updated-trans :
    (t u w : Tmpfs) (k : List ℕ) (c d : Option (List ℕ))
    → Updated t k c u
    → Updated u k d w
    → Updated t k d w
Updated-trans t u w k c d a b = record {
  valid = b.valid;
  here = b.here;
  elsewhere = λ n ne. b.elsewhere n ne ∙ a.elsewhere n ne;
}
