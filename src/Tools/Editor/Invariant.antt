-- ===== src/Tools/Editor/Invariant.antt =====
-- What the editor keeps: the cursor stands in the text and every line fits its buffer.
use dosfs.Prelude.{
  ℕ, zero, suc, ◌+◌, ◌-◌, ◌<◌, ◌≤◌, ◌≡◌, ◌∙◌, refl, Bool, true, false, ◌||◌, List, [], ◌∷◌, ◌++◌,
  ltb, leb, ltb→lt, ◌==◌, if◌then◌else◌, length, get_or, set, take, drop, arith, length-append,
  length-set, get_or-set_self, get_or-set_ne, length-take, length-drop,
}
use dosfs.Tools.Editor.{
  Editor, line_at, current, insert_in_line, editor_insert_char, shift_up, shift_down,
  editor_delete_char, editor_newline,
}

-- every line leaves room for its NUL
abbrev pub Fit : List (List ℕ) → Type 0
Fit ls = (i : ℕ) → length (get_or ls i []) < 80

pub record IsValid (e : Editor) : Type 0 where
  pub full : length e.lines ≡ 256
  pub some_line : 0 < e.line_count
  pub bounded : e.line_count ≤ 256
  pub row : e.cursor_y < e.line_count
  pub column : e.cursor_x ≤ length (current e)
  pub fit : Fit e.lines

Fit-set : (ls : List (List ℕ)) (i : ℕ) (l : List ℕ) → Fit ls → length l < 80 → Fit (set ls i l)
Fit-set [] i l f h j = f j
Fit-set (x ∷ ls) zero l f h zero = h
Fit-set (x ∷ ls) zero l f h (suc j) = f (suc j)
Fit-set (x ∷ ls) (suc i) l f h zero = f zero
Fit-set (x ∷ ls) (suc i) l f h (suc j) = Fit-set ls i l (λ k. f (suc k)) h j

shift_up-Fit : (n i : ℕ) (ls : List (List ℕ)) → Fit ls → Fit (shift_up n i ls)
unfolding shift_up
shift_up-Fit zero i ls f = f
shift_up-Fit (suc n) i ls f =
    shift_up-Fit n (i + 1) _ (Fit-set ls i (get_or ls (i + 1) []) f (f (i + 1)))

shift_down-Fit : (n i : ℕ) (ls : List (List ℕ)) → Fit ls → Fit (shift_down n i ls)
unfolding shift_down
shift_down-Fit zero i ls f = f
shift_down-Fit (suc n) i ls f =
    shift_down-Fit n (i - 1) _ (Fit-set ls i (get_or ls (i - 1) []) f (f (i - 1)))

length-shift_up : (n i : ℕ) (ls : List (List ℕ)) → length (shift_up n i ls) ≡ length ls
unfolding shift_up
length-shift_up zero i ls = refl
length-shift_up (suc n) i ls = length-shift_up n (i + 1) _ ∙ length-set ls i _

length-shift_down : (n i : ℕ) (ls : List (List ℕ)) → length (shift_down n i ls) ≡ length ls
unfolding shift_down
length-shift_down zero i ls = refl
length-shift_down (suc n) i ls = length-shift_down n (i - 1) _ ∙ length-set ls i _

-- the rows below `i` stay
shift_up-above :
    (n i j : ℕ) (ls : List (List ℕ)) → j < i → get_or (shift_up n i ls) j [] ≡ get_or ls j []
unfolding shift_up
shift_up-above zero i j ls h = refl
shift_up-above (suc n) i j ls h =
    shift_up-above n (i + 1) j _ (omega arith)
    ∙ get_or-set_ne ls i j (get_or ls (i + 1) []) [] (omega arith)

pub either :
    (b : Bool) (e f : Editor)
    → (b ≡ true → IsValid e)
    → (b ≡ false → IsValid f)
    → IsValid (if b then e else f)
either true e f h k = h refl
either false e f h k = k refl

length-split :
    (x c : ℕ) (l : List ℕ) → x ≤ length l → length (take x l ++ c ∷ drop x l) ≡ length l + 1
length-split x c l h =
    omega (arith, length-append (take x l) (c ∷ drop x l), length-take x l, length-drop x l)

-- A new text for the line under the cursor, and a column in it.
edit-IsValid :
    (e : Editor) (l : List ℕ) (x : ℕ) (m : Bool)
    → IsValid e
    → length l < 80
    → x ≤ length l
    → IsValid (record e { lines = set e.lines e.cursor_y l; cursor_x = x; modified = m })
edit-IsValid e l x m v h k = record {
  full = length-set e.lines e.cursor_y l ∙ v.full;
  some_line = v.some_line;
  bounded = v.bounded;
  row = v.row;
  column = rw (get_or-set_self e.lines e.cursor_y l [] (omega (arith, v.full, v.bounded, v.row))) k;
  fit = Fit-set e.lines e.cursor_y l v.fit h;
}

insert_in_line-IsValid : (c : ℕ) (e : Editor) → IsValid e → IsValid (insert_in_line c e)
unfolding insert_in_line
insert_in_line-IsValid c e v =
    let n = length-split e.cursor_x c (current e) v.column in
    let at : ltb (length (current e)) e.cursor_x ≡ false = ground (arith, v.column) in
    let x : (if ltb (length (current e)) e.cursor_x then length (current e) else e.cursor_x)
        ≡ e.cursor_x =
      rw at refl in
    rw x (
      either (leb 79 (length (current e))) e _ (λ _. v)
        (λ room.
          let full : length (current e) < 79 = ground arith in
          edit-IsValid e _ (e.cursor_x + 1) true v (omega (arith, n, full))
            (omega (arith, n, v.column))))

pub editor_insert_char-IsValid : (c : ℕ) (e : Editor) → IsValid e → IsValid (editor_insert_char c e)
unfolding editor_insert_char
editor_insert_char-IsValid c e v =
    let here : ltb e.cursor_y e.line_count ≡ true = ground (arith, v.row) in
    rw here (insert_in_line-IsValid c e v)

pub editor_newline-IsValid : (e : Editor) → IsValid e → IsValid (editor_newline e)
unfolding editor_newline
editor_newline-IsValid e v =
    either (leb 256 e.line_count) e _ (λ _. v)
      (λ room.
        let moved = shift_down (e.line_count - (e.cursor_y + 1)) e.line_count e.lines in
        let n : length moved ≡ 256 =
          length-shift_down (e.line_count - (e.cursor_y + 1)) e.line_count e.lines ∙ v.full in
        record {
          full = length-set _ e.cursor_y _ ∙ length-set moved (e.cursor_y + 1) _ ∙ n;
          some_line = omega arith;
          bounded = ground (arith, room);
          row = omega (arith, v.row);
          column = omega arith;
          fit =
              Fit-set _ e.cursor_y _
                (Fit-set moved (e.cursor_y + 1) _
                  (shift_down-Fit (e.line_count - (e.cursor_y + 1)) e.line_count e.lines v.fit)
                  (omega (arith, length-drop e.cursor_x (current e), v.fit e.cursor_y)))
                (omega (arith, length-take e.cursor_x (current e), v.fit e.cursor_y));
        })

length-cut :
    (x : ℕ) (l : List ℕ) → 0 < x → x ≤ length l → length (take (x - 1) l ++ drop x l) + 1 ≡ length l
length-cut x l p h =
    omega (arith, length-append (take (x - 1) l) (drop x l), length-take (x - 1) l, length-drop x l)

-- The line under the cursor joined to the one above it.
join-IsValid :
    (e : Editor)
    → IsValid e
    → 0 < e.cursor_y
    → length (line_at e (e.cursor_y - 1)) + length (current e) < 80
    → IsValid (record e {
      lines =
          shift_up
            (e.line_count - 1 - e.cursor_y)
            e.cursor_y
            (set e.lines (e.cursor_y - 1) (line_at e (e.cursor_y - 1) ++ current e));
      line_count = e.line_count - 1;
      cursor_y = e.cursor_y - 1;
      cursor_x = length (line_at e (e.cursor_y - 1));
      modified = true;
    })
join-IsValid e v below fits =
    let above = line_at e (e.cursor_y - 1) in
    let n = e.line_count - 1 - e.cursor_y in
    let both = above ++ current e in
    let m : length both ≡ length above + length (current e) = length-append above (current e) in
    let put = set e.lines (e.cursor_y - 1) both in
    let here : get_or (shift_up n e.cursor_y put) (e.cursor_y - 1) [] ≡ both =
      shift_up-above n e.cursor_y (e.cursor_y - 1) put (omega arith)
      ∙ get_or-set_self e.lines (e.cursor_y - 1) both []
          (omega (arith, v.full, v.bounded, v.row)) in
    record {
      full = length-shift_up n e.cursor_y put ∙ length-set e.lines (e.cursor_y - 1) both ∙ v.full;
      some_line = omega (arith, v.row);
      bounded = omega (arith, v.bounded);
      row = omega (arith, v.row);
      column = rw here (omega (arith, m));
      fit =
          shift_up-Fit n e.cursor_y put
            (Fit-set e.lines (e.cursor_y - 1) both v.fit (omega (arith, m)));
    }

pub editor_delete_char-IsValid : (e : Editor) → IsValid e → IsValid (editor_delete_char e)
unfolding editor_delete_char
editor_delete_char-IsValid e v =
    let line = current e in
    let above = line_at e (e.cursor_y - 1) in
    either (ltb 0 e.cursor_x) _ _
      (λ inside.
        let n = length-cut e.cursor_x line (ltb→lt _ _ inside) v.column in
        edit-IsValid e _ (e.cursor_x - 1) true v (omega (arith, n, v.fit e.cursor_y))
          (omega (arith, n, v.column)))
      (λ outside.
        either ((e.cursor_y == 0) || leb 80 (length above + length line)) e _ (λ _. v)
          (λ joins.
            let below : 0 < e.cursor_y = ground (arith, joins) in
            let fits : length above + length line < 80 = ground (arith, joins) in
            join-IsValid e v below fits))
