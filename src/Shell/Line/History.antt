-- ===== src/Shell/Line/History.antt =====
-- The history holds the last twenty lines.
use dosfs.Prelude.{
  ℕ, zero, suc, ◌+◌, ◌-◌, ◌≤◌, ◌<◌, ◌≡◌, ◌∙◌, refl, ap, inl, inr, List, [], ◌∷◌, ◌++◌, arith, ltb,
  get_or, set, replicate, take, drop, length, length-set, length-append, take-set, length-take,
  Bool-cases, length-replicate, take_all,
}
use dosfs.Libc.{strncpy}
use dosfs.Libc.Text.{text, text-strncpy}
use dosfs.Libc.Copy.{length-strncpy}
use dosfs.Shell.Line.{Shell, shell_init, copy_line, shift_lines, add_to_history}

-- A slot has 256 bytes and holds a text of at most 255.
pub record IsSlot (slot : List ℕ) : Type 0 where
  pub size : length slot ≡ 256
  pub closed : length (text slot) ≤ 255

pub Slots : List (List ℕ) → Type 0
Slots [] = Unit
Slots (slot ∷ slots) = IsSlot slot × Slots slots

pub record HasHistory (s : Shell) : Type 0 where
  pub slots : Slots s.history
  pub size : length s.history ≡ 20
  pub counted : s.history_count ≤ 20

texts : List (List ℕ) → List (List ℕ)
texts [] = []
texts (slot ∷ slots) = text slot ∷ texts slots

-- the lines of the history, the oldest first
pub lines : Shell → List (List ℕ)
lines s = texts (take s.history_count s.history)

text_short : (cmd : List ℕ) (n : ℕ) → length (text cmd) ≤ n → text (take n cmd) ≡ text cmd
unfolding text
text_short [] zero h = refl
text_short [] (suc n) h = refl
text_short (c ∷ cmd) zero h = ground arith
text_short (c ∷ cmd) (suc n) h = ground (arith, text_short cmd n)

copy_line-text :
    (slot cmd : List ℕ)
    → length slot ≡ 256
    → length (text cmd) ≤ 255
    → text (copy_line slot cmd) ≡ text cmd
unfolding copy_line
copy_line-text slot cmd size short =
    text-strncpy slot cmd 255 (omega (arith, size)) ∙ text_short cmd 255 short

copy_line-IsSlot :
    (slot cmd : List ℕ) → length slot ≡ 256 → length (text cmd) ≤ 255 → IsSlot (copy_line slot cmd)
unfolding copy_line
copy_line-IsSlot slot cmd size short = record {
  size = length-set (strncpy slot cmd 255) 255 0 ∙ length-strncpy slot cmd 255 ∙ size;
  closed = rw (copy_line-text slot cmd size short) short;
}

texts-append : (a b : List (List ℕ)) → texts (a ++ b) ≡ texts a ++ texts b
unfolding texts
texts-append [] b = refl
texts-append (x ∷ a) b = ap (λ y. text x ∷ y) (texts-append a b)

length-texts : (a : List (List ℕ)) → length (texts a) ≡ length a
unfolding texts
length-texts [] = refl
length-texts (x ∷ a) = ap suc (length-texts a)

-- The last `n` of a list.
pub last : ℕ → List (List ℕ) → List (List ℕ)
last n l = drop (length l - n) l

Slots-set :
    (l : List (List ℕ)) (i : ℕ) (slot : List ℕ) → Slots l → IsSlot slot → Slots (set l i slot)
unfolding Slots
Slots-set [] i slot v w = v
Slots-set (x ∷ l) zero slot v w = (w, v.1)
Slots-set (x ∷ l) (suc i) slot v w = (v.0, Slots-set l i slot v.1 w)

Slots-get_or : (l : List (List ℕ)) (i : ℕ) → Slots l → i < length l → IsSlot (get_or l i [])
unfolding Slots
Slots-get_or [] i v h = absurd (omega arith)
Slots-get_or (x ∷ l) zero v h = v.0
Slots-get_or (x ∷ l) (suc i) v h = Slots-get_or l i v.1 (omega arith)

-- Moving the lines down drops the first and ends with the new one.
shift_lines-lines :
    (cmd slot : List ℕ) (slots : List (List ℕ))
    → Slots (slot ∷ slots)
    → length (text cmd) ≤ 255
    → Slots (shift_lines cmd (slot ∷ slots))
      × (length (shift_lines cmd (slot ∷ slots)) ≡ length (slot ∷ slots))
      × (texts (shift_lines cmd (slot ∷ slots)) ≡ texts slots ++ (text cmd ∷ []))
unfolding Slots shift_lines texts
shift_lines-lines cmd slot [] v short = (
  (copy_line-IsSlot slot cmd v.0.size short, v.1),
  refl,
  rw (copy_line-text slot cmd v.0.size short) refl,
)
shift_lines-lines cmd slot (next ∷ slots) v short =
    let (valid, same, moved) = shift_lines-lines cmd next slots v.1 short in
    let fits = v.1.0.closed in
    (
      (copy_line-IsSlot slot next v.0.size fits, valid),
      ap suc same,
      rw (copy_line-text slot next v.0.size fits) (ap (λ y. text next ∷ y) moved),
    )

full_lines :
    (cmd : List ℕ) (h : List (List ℕ))
    → Slots h
    → length h ≡ 20
    → length (text cmd) ≤ 255
    → Slots (shift_lines cmd h)
      × (length (shift_lines cmd h) ≡ 20)
      × (texts (shift_lines cmd h) ≡ drop 1 (texts h ++ (text cmd ∷ [])))
unfolding texts
full_lines cmd [] v size short = absurd (omega (arith, size))
full_lines cmd (slot ∷ slots) v size short =
    let (valid, same, moved) = shift_lines-lines cmd slot slots v short in
    (valid, same ∙ size, moved)

-- In a well-formed history, a line of at most 255 bytes becomes the last one, and of more than
-- twenty lines the oldest is dropped.
pub add_to_history-lines :
    (cmd : List ℕ) (s : Shell)
    → HasHistory s
    → length (text cmd) ≤ 255
    → HasHistory (add_to_history cmd s)
      × (lines (add_to_history cmd s) ≡ last 20 (lines s ++ (text cmd ∷ [])))
unfolding add_to_history lines last texts
add_to_history-lines cmd s v short = elim (Bool-cases (ltb s.history_count 20)) [
  | inl spare ↦
      let k : ℕ = s.history_count in
      let inside : k < length s.history = ground (arith, v.size) in
      let slot : List ℕ = get_or s.history k [] in
      let old = Slots-get_or s.history k v.slots inside in
      let made = copy_line-IsSlot slot cmd old.size short in
      let few : length (texts (take k s.history) ++ (text cmd ∷ [])) - 20 ≡ 0 = omega (
        arith,
        length-append (texts (take k s.history)) (text cmd ∷ []),
        length-texts (take k s.history),
        length-take k s.history,
        inside,
        v.size,
      ) in
      let added : texts (take (k + 1) (set s.history k (copy_line slot cmd)))
          ≡ texts (take k s.history) ++ (text cmd ∷ []) =
        rw
          (
            take-set s.history k (copy_line slot cmd) inside,
            texts-append (take k s.history) (copy_line slot cmd ∷ []),
            copy_line-text slot cmd old.size short,
          )
          refl in
      rw (add_to_history, spare)
        (
          record {
            slots = Slots-set s.history k (copy_line slot cmd) v.slots made;
            size = length-set s.history k (copy_line slot cmd) ∙ v.size;
            counted = ground (arith, v.counted);
          },
          added ∙ rw few refl,
        )
  | inr full ↦
      let count : s.history_count ≡ 20 = ground (arith, v.counted) in
      let (valid, size, moved) = full_lines cmd s.history v.slots v.size short in
      let all : take 20 s.history ≡ s.history = take_all 20 s.history (omega (arith, v.size)) in
      let one_more : length (texts s.history ++ (text cmd ∷ [])) - 20 ≡ 1 =
        omega (
          arith,
          length-append (texts s.history) (text cmd ∷ []),
          length-texts s.history,
          v.size,
        ) in
      let still : take 20 (shift_lines cmd s.history) ≡ shift_lines cmd s.history =
        take_all 20 (shift_lines cmd s.history) (omega (arith, size)) in
      rw (add_to_history, full, count, all, one_more, still)
        (record { slots = valid; size = size; counted = omega (arith, count) }, moved)
]

replicate-Slots : (n : ℕ) → Slots (replicate n (replicate 256 0))
unfolding Slots text
replicate-Slots zero = tt
replicate-Slots (suc n) =
    (record { size = length-replicate {A = ℕ} 256 0; closed = omega arith }, replicate-Slots n)

-- The shell starts with an empty history.
pub shell_init-lines : HasHistory shell_init × (lines shell_init ≡ [])
unfolding lines texts
shell_init-lines = (
  record {
    slots = replicate-Slots 20;
    size = length-replicate {A = List ℕ} 20 (replicate 256 0);
    counted = omega arith;
  },
  refl,
)
