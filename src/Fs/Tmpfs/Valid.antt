-- ===== src/Fs/Tmpfs/Valid.antt =====
-- What every operation of tmpfs keeps.
use mathlib.Core.Path.{subst}
use dosfs.Prelude.{
  ℕ, zero, suc, ◌+◌, ◌≤◌, ◌<◌, ◌≡◌, ◌≢◌, ◌⊎◌, replicate, refl, sym, ◌∙◌, inl, inr, true, false,
  none, List, [], ◌∷◌, arith, length, get_or, set, length-replicate, length-set, get_or-set,
  Bool-cases, if◌then◌else◌, ◌==◌,
}
use dosfs.Libc.{memcpy, strncpy}
use dosfs.Libc.Text.{text}
use dosfs.Libc.Copy.{length-memset, length-memcpy, length-strncpy}
use dosfs.Fs.Tmpfs.{File, Tmpfs, zero_file, file_at, has_name, find_unused, fresh_file, tmpfs_init}
use dosfs.Fs.Tmpfs.Lookup.{
  lookup, has_name-used, has_name-text, has_name_of_text, lookup-set_other, Unique, lookup-congr,
}

-- The files in use.
unfoldable pub in_use : List File → ℕ
in_use [] = 0
in_use (f ∷ fs) = (if f.used then 1 else 0) + in_use fs

pub in_use-set :
    (fs : List File) (i : ℕ) (g : File)
    → i < length fs
    → in_use (set fs i g) + (if (get_or fs i zero_file).used then 1 else 0)
      ≡ in_use fs + (if g.used then 1 else 0)
unfolding in_use
in_use-set [] i g h = absurd (omega arith)
in_use-set (f ∷ fs) zero g h = omega arith
in_use-set (f ∷ fs) (suc i) g h = omega (arith, in_use-set fs i g (omega arith))

pub in_use-le-length : (fs : List File) → in_use fs ≤ length fs
unfolding in_use
in_use-le-length [] = omega arith
in_use-le-length (f ∷ fs) = ground (arith, in_use-le-length fs)

-- No slot is unused only when all are in use.
pub find_unused-none : (fs : List File) → find_unused fs ≡ none → in_use fs ≡ length fs
unfolding in_use find_unused
find_unused-none [] h = refl
find_unused-none (f ∷ fs) h = ground (arith, find_unused-none fs)

-- A file in use is found, or one before it.
pub lookup-get_or :
    (fs : List File) (i : ℕ) (n : List ℕ)
    → i < length fs
    → has_name (get_or fs i zero_file) n ≡ true
    → lookup fs n ≢ none
lookup-get_or [] i n h t = absurd (omega arith)
lookup-get_or (f ∷ fs) zero n h t = ground arith
lookup-get_or (f ∷ fs) (suc i) n h t = ground (arith, lookup-get_or fs i n)

-- What may be written into slot `i`: a file that is not in use, one with a free name, or one with
-- the name that the slot had.
abbrev pub Fits : List File → ℕ → File → Type 0
Fits fs i g =
    g.used ≡ true
    → (lookup fs g.name ≡ none)
      ⊎ (((get_or fs i zero_file).used ≡ true) × (text (get_or fs i zero_file).name ≡ text g.name))

pub Unique-set :
    (fs : List File) (i : ℕ) (g : File)
    → Unique fs
    → i < length fs
    → Fits fs i g
    → Unique (set fs i g)
Unique-set [] i g u h fit = absurd (omega arith)
Unique-set (f ∷ fs) zero g u h fit = (
  λ used. elim (fit used) [
    | inl free ↦ ground arith
    | inr (was, e) ↦ sym (lookup-congr fs f.name g.name e) ∙ u.0 was
  ],
  u.1,
)
Unique-set (f ∷ fs) (suc i) g u h fit = (
  λ used.
      let old : File = get_or fs i zero_file in
      let lt : i < length fs = omega arith in
      let free = u.0 used in
      let kept : has_name old f.name ≡ false = elim (Bool-cases (has_name old f.name)) [
        | inl e ↦ absurd (lookup-get_or fs i f.name lt e free)
        | inr e ↦ e
      ] in
      let new : has_name g f.name ≡ false = elim (Bool-cases (has_name g f.name)) [
        | inl e ↦
            let same = has_name-text g f.name e in
            elim (fit (has_name-used g f.name e)) [
              | inl none_g ↦
                  let named = has_name_of_text f g.name used (sym same) in absurd (ground arith)
              | inr (was, t) ↦
                  absurd
                    (lookup-get_or fs i f.name lt (has_name_of_text old f.name was (t ∙ same)) free)
            ]
        | inr e ↦ e
      ] in
      lookup-set_other fs f.name i g lt kept new ∙ free,
  Unique-set fs i g u.1 (omega arith)
      (λ used. elim (fit used) [ inl free ↦ inl (ground arith) | inr (was, e) ↦ inr (was, e) ]),
)

pub record FileIsValid (f : File) : Type 0 where
  pub name_size : length f.name ≡ 64
  pub name_ends : get_or f.name 63 0 ≡ 0
  pub content_size : length f.content ≡ 4096
  pub size_bound : f.size ≤ 4096

pub record IsValid (t : Tmpfs) : Type 0 where
  pub full : length t.files ≡ 32
  pub counted : t.file_count ≡ in_use t.files
  pub unique : Unique t.files
  pub slots : (i : ℕ) → i < 32 → FileIsValid (file_at t i)

-- A write to one slot that fits and keeps the count.
pub set-IsValid :
    (t : Tmpfs) (i : ℕ) (g : File) (n : ℕ)
    → IsValid t
    → i < 32
    → FileIsValid g
    → Fits t.files i g
    → n ≡ in_use (set t.files i g)
    → IsValid (record t { files = set t.files i g; file_count = n })
set-IsValid t i g n v lt gv fit count = record {
  full = omega (arith, v.full, length-set t.files i g);
  counted = count;
  unique = Unique-set t.files i g v.unique (omega (arith, v.full)) fit;
  slots = λ j h.
      let at = get_or-set t.files i j g zero_file (omega (arith, v.full)) in
      elim (Bool-cases (i == j)) [
        | inl e ↦
            let q : get_or (set t.files i g) j zero_file ≡ g = ground (arith, at) in
            subst FileIsValid (sym q) gv
        | inr e ↦
            let q : get_or (set t.files i g) j zero_file ≡ file_at t j = ground (arith, at) in
            subst FileIsValid (sym q) (v.slots j h)
      ];
}

zero_file-IsValid : FileIsValid zero_file
unfolding zero_file
zero_file-IsValid = record {
  name_size = length-replicate {A = ℕ} 64 0;
  name_ends = refl;
  content_size = length-replicate {A = ℕ} 4096 0;
  size_bound = omega arith;
}

pub fresh_file-IsValid : (f : File) (k : List ℕ) → FileIsValid f → FileIsValid (fresh_file f k)
unfolding fresh_file
fresh_file-IsValid f k v =
    let len = length-strncpy f.name k 63 in
    record {
      name_size = omega (arith, v.name_size, length-set (strncpy f.name k 63) 63 0, len);
      name_ends =
          let at = get_or-set (strncpy f.name k 63) 63 63 0 0 (omega (arith, v.name_size, len)) in
          ground (arith, at);
      content_size = omega (arith, v.content_size, length-memset f.content 0 4096);
      size_bound = omega arith;
    }

pub filled-IsValid :
    (f : File) (bytes : List ℕ) (n : ℕ)
    → FileIsValid f
    → n ≤ 4096
    → FileIsValid (record f { content = memcpy f.content bytes n; size = n })
filled-IsValid f bytes n v h = record {
  name_size = v.name_size;
  name_ends = v.name_ends;
  content_size = omega (arith, v.content_size, length-memcpy f.content bytes n);
  size_bound = h;
}

pub removed-IsValid : (f : File) → FileIsValid f → FileIsValid (record f { used = false })
removed-IsValid f v = record {
  name_size = v.name_size;
  name_ends = v.name_ends;
  content_size = v.content_size;
  size_bound = v.size_bound;
}

in_use-replicate : (n : ℕ) → in_use (replicate n zero_file) ≡ 0
unfolding in_use zero_file
in_use-replicate zero = refl
in_use-replicate (suc n) = omega (arith, in_use-replicate n)

pub lookup-replicate : (n : ℕ) (k : List ℕ) → lookup (replicate n zero_file) k ≡ none
unfolding has_name zero_file
lookup-replicate zero k = refl
lookup-replicate (suc n) k = lookup-replicate n k

Unique-replicate : (n : ℕ) → Unique (replicate n zero_file)
unfolding zero_file
Unique-replicate zero = tt
Unique-replicate (suc n) = (λ u. ground arith, Unique-replicate n)

get_or-replicate : (n i : ℕ) → get_or (replicate n zero_file) i zero_file ≡ zero_file
get_or-replicate zero i = refl
get_or-replicate (suc n) zero = refl
get_or-replicate (suc n) (suc i) = get_or-replicate n i

-- The first table is well-formed.
pub tmpfs_init-IsValid : IsValid tmpfs_init
tmpfs_init-IsValid = record {
  full = length-replicate 32 zero_file;
  counted = sym (in_use-replicate 32);
  unique = Unique-replicate 32;
  slots = λ i h. let e = get_or-replicate 32 i in subst FileIsValid (sym e) zero_file-IsValid;
}
