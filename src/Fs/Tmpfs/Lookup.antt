-- ===== src/Fs/Tmpfs/Lookup.antt =====
-- The table as a map from names to files, and what a write to one slot does to it.
use dosfs.Prelude.{
  ℕ, zero, suc, ◌<◌, ◌≡◌, ◌≢◌, refl, sym, ◌∙◌, inl, inr, true, false, Option, none, some, List, [],
  ◌∷◌, arith, get_or, set, length, Bool-cases, is_zero_iff, if◌then◌else◌,
}
use dosfs.Libc.Text.{text, strcmp-zero_text, strcmp_of_text}
use dosfs.Libc.{strcmp}
use dosfs.Fs.Tmpfs.{File, zero_file, has_name, find_file, find_unused}

-- The first file that has the name.
abbrev pub lookup : List File → List ℕ → Option File
lookup [] n = none
lookup (f ∷ fs) n = if has_name f n then some f else lookup fs n

pub has_name-used : (f : File) (n : List ℕ) → has_name f n ≡ true → f.used ≡ true
unfolding has_name
has_name-used f n h = ground arith

pub has_name-text : (f : File) (n : List ℕ) → has_name f n ≡ true → text f.name ≡ text n
unfolding has_name
has_name-text f n h = strcmp-zero_text f.name n ((is_zero_iff (strcmp f.name n)).0 (ground arith))

pub has_name_of_text :
    (f : File) (n : List ℕ) → f.used ≡ true → text f.name ≡ text n → has_name f n ≡ true
unfolding has_name
has_name_of_text f n u e =
    ground (arith, (is_zero_iff (strcmp f.name n)).1 (strcmp_of_text f.name n e))

pub has_name-ne : (f : File) (n : List ℕ) → text f.name ≢ text n → has_name f n ≡ false
has_name-ne f n ne = elim (Bool-cases (has_name f n)) [
  | inl e ↦ absurd (ne (has_name-text f n e))
  | inr e ↦ e
]

-- The name only matters up to its first NUL.
pub has_name-congr : (f : File) (k n : List ℕ) → text k ≡ text n → has_name f k ≡ has_name f n
has_name-congr f k n e = elim (Bool-cases (has_name f k)) [
  | inl h ↦ h ∙ sym (has_name_of_text f n (has_name-used f k h) (has_name-text f k h ∙ e))
  | inr h ↦ elim (Bool-cases (has_name f n)) [
    | inl g ↦
        absurd (cc (has_name_of_text f k (has_name-used f n g) (has_name-text f n g ∙ sym e), h))
    | inr g ↦ h ∙ sym g
  ]
]

pub lookup-congr : (fs : List File) (k n : List ℕ) → text k ≡ text n → lookup fs k ≡ lookup fs n
lookup-congr [] k n e = refl
lookup-congr (f ∷ fs) k n e = ground (arith, has_name-congr f k n e, lookup-congr fs k n e)

pub find_file-none : (fs : List File) (n : List ℕ) → find_file fs n ≡ none → lookup fs n ≡ none
unfolding find_file
find_file-none [] n h = refl
find_file-none (f ∷ fs) n h = ground (arith, find_file-none fs n)

pub find_file-some :
    (fs : List File) (n : List ℕ) (i : ℕ)
    → find_file fs n ≡ some i
    → (lookup fs n ≡ some (get_or fs i zero_file))
      × (has_name (get_or fs i zero_file) n ≡ true)
      × (i < length fs)
unfolding find_file
find_file-some [] n i h = ground arith
find_file-some (f ∷ fs) n zero h = ground arith
find_file-some (f ∷ fs) n (suc i) h = ground (arith, find_file-some fs n i)

pub find_unused-some :
    (fs : List File) (i : ℕ)
    → find_unused fs ≡ some i
    → ((get_or fs i zero_file).used ≡ false) × (i < length fs)
unfolding find_unused
find_unused-some [] i h = ground arith
find_unused-some (f ∷ fs) zero h = ground arith
find_unused-some (f ∷ fs) (suc i) h = ground (arith, find_unused-some fs i)

-- The slot that was found is written with a file of the same name.
pub lookup-set_self :
    (fs : List File) (k : List ℕ) (i : ℕ) (g : File)
    → find_file fs k ≡ some i
    → has_name g k ≡ true
    → lookup (set fs i g) k ≡ some g
unfolding find_file
lookup-set_self [] k i g h t = ground arith
lookup-set_self (f ∷ fs) k zero g h t = ground arith
lookup-set_self (f ∷ fs) k (suc i) g h t = ground (arith, lookup-set_self fs k i g)

-- Whatever is written into the slot of `k`, a name that neither file has is not concerned.
pub lookup-set_other :
    (fs : List File) (n : List ℕ) (i : ℕ) (g : File)
    → i < length fs
    → has_name (get_or fs i zero_file) n ≡ false
    → has_name g n ≡ false
    → lookup (set fs i g) n ≡ lookup fs n
lookup-set_other [] n i g h o t = refl
lookup-set_other (f ∷ fs) n zero g h o t = ground arith
lookup-set_other (f ∷ fs) n (suc i) g h o t = ground (arith, lookup-set_other fs n i g)

-- A file put into an unused slot is found under its name, where that was free.
pub lookup-set_new :
    (fs : List File) (k : List ℕ) (i : ℕ) (g : File)
    → lookup fs k ≡ none
    → i < length fs
    → has_name g k ≡ true
    → lookup (set fs i g) k ≡ some g
lookup-set_new [] k i g l h t = absurd (omega arith)
lookup-set_new (f ∷ fs) k zero g l h t = ground arith
lookup-set_new (f ∷ fs) k (suc i) g l h t = ground (arith, lookup-set_new fs k i g)

-- No two files in use share a name.
abbrev pub Unique : List File → Type 0
Unique [] = Unit
Unique (f ∷ fs) = (f.used ≡ true → lookup fs f.name ≡ none) × Unique fs

-- Once its first file is gone, a name is free.
pub lookup-remove :
    (fs : List File) (k : List ℕ) (i : ℕ) (g : File)
    → Unique fs
    → find_file fs k ≡ some i
    → g.used ≡ false
    → lookup (set fs i g) k ≡ none
unfolding find_file has_name
lookup-remove [] k i g u h t = ground arith
lookup-remove (f ∷ fs) k zero g u h t =
    let named : has_name f k ≡ true = ground arith in
    let free = u.0 (has_name-used f k named) in
    let same = lookup-congr fs f.name k (has_name-text f k named) in ground (arith, free, same)
lookup-remove (f ∷ fs) k (suc i) g u h t = ground (arith, lookup-remove fs k i g u.1)
