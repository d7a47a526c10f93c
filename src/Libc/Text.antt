-- ===== src/Libc/Text.antt =====
-- `strcmp` and `strcasecmp` decide equality of texts.
use mathlib.Core.List.{map}
use dosfs.Prelude.{
  ℕ, zero, suc, ◌<◌, ◌≡◌, ◌≢◌, ◌↔◌, List, [], ◌∷◌, arith, pos, refl, length, set, take, ◌==◌,
  if◌then◌else◌,
}
use dosfs.Libc.{strcmp, strcasecmp, upper, strlen, strncpy}

-- A text: no NUL before its end.
abbrev pub IsText : List ℕ → Type 0
IsText [] = Unit
IsText (c ∷ s) = (c ≢ 0) × IsText s

pub IsText-take : (n : ℕ) (s : List ℕ) → IsText s → IsText (take n s)
IsText-take zero s t = tt
IsText-take (suc n) [] t = tt
IsText-take (suc n) (c ∷ s) t = (t.0, IsText-take n s t.1)

pub strlen-IsText : (s : List ℕ) → IsText s → strlen s ≡ length s
unfolding strlen
strlen-IsText [] t = refl
strlen-IsText (c ∷ s) t = ground (arith, strlen-IsText s t.1)

pub strcmp-eq_zero : (a b : List ℕ) → IsText a → IsText b → strcmp a b ≡ pos 0 → a ≡ b
unfolding strcmp
strcmp-eq_zero [] [] s t h = refl
strcmp-eq_zero [] (y ∷ b) s t h = ground arith
strcmp-eq_zero (x ∷ a) [] s t h = ground arith
strcmp-eq_zero (x ∷ a) (y ∷ b) s t h = ground (arith, strcmp-eq_zero a b s.1 t.1)

pub strcmp_self : (a : List ℕ) → IsText a → strcmp a a ≡ pos 0
unfolding strcmp
strcmp_self [] s = refl
strcmp_self (x ∷ a) s = ground (arith, strcmp_self a s.1)

-- For texts, `strcmp` returns 0 exactly when they are equal.
pub strcmp-eq_zero_iff : (a b : List ℕ) → IsText a → IsText b → (strcmp a b ≡ pos 0) ↔ (a ≡ b)
strcmp-eq_zero_iff a b s t = (strcmp-eq_zero a b s t, λ e. rw (← e) (strcmp_self a s))

pub strcasecmp-eq_zero :
    (a b : List ℕ) → IsText a → IsText b → strcasecmp a b ≡ pos 0 → map upper a ≡ map upper b
unfolding strcasecmp
strcasecmp-eq_zero [] [] s t h = refl
strcasecmp-eq_zero [] (y ∷ b) s t h = ground arith
strcasecmp-eq_zero (x ∷ a) [] s t h = ground arith
strcasecmp-eq_zero (x ∷ a) (y ∷ b) s t h = ground (arith, strcasecmp-eq_zero a b s.1 t.1)

pub strcasecmp_of_eq :
    (a b : List ℕ) → IsText a → IsText b → map upper a ≡ map upper b → strcasecmp a b ≡ pos 0
unfolding strcasecmp
strcasecmp_of_eq [] [] s t h = refl
strcasecmp_of_eq [] (y ∷ b) s t h = ground arith
strcasecmp_of_eq (x ∷ a) [] s t h = ground arith
strcasecmp_of_eq (x ∷ a) (y ∷ b) s t h = ground (arith, strcasecmp_of_eq a b s.1 t.1)

-- For texts, `strcasecmp` returns 0 exactly when they are equal after each letter is raised.
pub strcasecmp-eq_zero_iff :
    (a b : List ℕ) → IsText a → IsText b → (strcasecmp a b ≡ pos 0) ↔ (map upper a ≡ map upper b)
strcasecmp-eq_zero_iff a b s t = (strcasecmp-eq_zero a b s t, strcasecmp_of_eq a b s t)

-- The text that a block of memory holds: what stands before its first NUL.
unfoldable pub text : List ℕ → List ℕ
text [] = []
text (c ∷ s) = if c == 0 then [] else c ∷ text s

pub text-IsText : (s : List ℕ) → IsText s → text s ≡ s
unfolding text
text-IsText [] t = refl
text-IsText (c ∷ s) t = ground (arith, text-IsText s t.1)

pub strcmp-zero_text : (a b : List ℕ) → strcmp a b ≡ pos 0 → text a ≡ text b
unfolding strcmp text
strcmp-zero_text [] [] h = refl
strcmp-zero_text [] (y ∷ b) h = ground arith
strcmp-zero_text (x ∷ a) [] h = ground arith
strcmp-zero_text (x ∷ a) (y ∷ b) h = ground (arith, strcmp-zero_text a b)

pub strcmp_of_text : (a b : List ℕ) → text a ≡ text b → strcmp a b ≡ pos 0
unfolding strcmp text
strcmp_of_text [] [] h = refl
strcmp_of_text [] (y ∷ b) h = ground arith
strcmp_of_text (x ∷ a) [] h = ground arith
strcmp_of_text (x ∷ a) (y ∷ b) h = ground (arith, strcmp_of_text a b)

-- A field filled by `strncpy` and closed by a NUL behind its bound holds the first bytes of the text.
pub text-strncpy :
    (d src : List ℕ) (n : ℕ) → n < length d → text (set (strncpy d src n) n 0) ≡ text (take n src)
unfolding text strncpy
text-strncpy [] src n h = absurd (omega arith)
text-strncpy (x ∷ d) src zero h = refl
text-strncpy (x ∷ d) [] (suc n) h = refl
text-strncpy (x ∷ d) (c ∷ src) (suc n) h = ground (arith, text-strncpy d src n)
