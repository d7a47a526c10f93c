-- ===== src/Tools/Editor/Keys.antt =====
-- The cursor keys and the rounds of the editor keep it well-formed.
use dosfs.Prelude.{
  ℕ, zero, suc, ◌+◌, ◌-◌, ◌<◌, ◌≤◌, ◌≡◌, refl, ◌&&◌, List, [], ltb, leb, ltb→lt, ◌==◌, length,
  get_or, replicate, arith, length-replicate,
}
use dosfs.Tools.Editor.{
  Editor, line_at, current, editor_new, clamp_x, move_up, move_down, move_left, move_right, page_up,
  page_down, act, scroll,
}
use dosfs.Tools.Editor.Invariant.{
  IsValid, either, editor_insert_char-IsValid, editor_newline-IsValid, editor_delete_char-IsValid,
}

-- The cursor at column `x` of row `y`, which is in the text.
moved-IsValid :
    (e : Editor) (x y s : ℕ)
    → IsValid e
    → y < e.line_count
    → x ≤ length (line_at e y)
    → IsValid (record e { cursor_x = x; cursor_y = y; scroll_y = s })
moved-IsValid e x y s v h k = record {
  full = v.full;
  some_line = v.some_line;
  bounded = v.bounded;
  row = h;
  column = k;
  fit = v.fit;
}

clamped-IsValid :
    (e : Editor) (y s : ℕ)
    → IsValid e
    → y < e.line_count
    → IsValid (clamp_x (record e { cursor_y = y; scroll_y = s }))
clamped-IsValid e y s v h =
    either (ltb (length (line_at e y)) e.cursor_x) _ _
      (λ _. moved-IsValid e (length (line_at e y)) y s v h (omega arith))
      (λ short. moved-IsValid e e.cursor_x y s v h (ground (arith, short)))

move_up-IsValid : (e : Editor) → IsValid e → IsValid (move_up e)
unfolding move_up
move_up-IsValid e v =
    either (ltb 0 e.cursor_y) _ e
      (λ _. clamped-IsValid e (e.cursor_y - 1) e.scroll_y v (omega (arith, v.row))) (λ _. v)

move_down-IsValid : (e : Editor) → IsValid e → IsValid (move_down e)
unfolding move_down
move_down-IsValid e v =
    either (ltb e.cursor_y (e.line_count - 1)) _ e
      (λ h. clamped-IsValid e (e.cursor_y + 1) e.scroll_y v (omega (arith, ltb→lt _ _ h))) (λ _. v)

move_left-IsValid : (e : Editor) → IsValid e → IsValid (move_left e)
unfolding move_left
move_left-IsValid e v =
    either (ltb 0 e.cursor_x) _ _
      (λ _.
        moved-IsValid e (e.cursor_x - 1) e.cursor_y e.scroll_y v v.row (omega (arith, v.column)))
      (λ _.
        either (ltb 0 e.cursor_y) _ e
          (λ _.
            moved-IsValid e (length (line_at e (e.cursor_y - 1))) (e.cursor_y - 1) e.scroll_y v
              (omega (arith, v.row)) (omega arith))
          (λ _. v))

move_right-IsValid : (e : Editor) → IsValid e → IsValid (move_right e)
unfolding move_right
move_right-IsValid e v =
    either (ltb e.cursor_x (length (current e))) _ _
      (λ h.
        moved-IsValid e (e.cursor_x + 1) e.cursor_y e.scroll_y v v.row
          (omega (arith, ltb→lt _ _ h)))
      (λ _.
        either (ltb e.cursor_y (e.line_count - 1)) _ e
          (λ h.
            moved-IsValid e 0 (e.cursor_y + 1) e.scroll_y v (omega (arith, ltb→lt _ _ h))
              (omega arith))
          (λ _. v))

page_up-IsValid : (e : Editor) → IsValid e → IsValid (page_up e)
unfolding page_up
page_up-IsValid e v = clamped-IsValid e (e.cursor_y - 23) _ v (omega (arith, v.row))

page_down-IsValid : (e : Editor) → IsValid e → IsValid (page_down e)
unfolding page_down
page_down-IsValid e v = clamped-IsValid e _ _ v (ground (arith, v.some_line))

scroll-IsValid : (e : Editor) → IsValid e → IsValid (scroll e)
unfolding scroll
scroll-IsValid e v = moved-IsValid e e.cursor_x e.cursor_y _ v v.row v.column

-- Every key keeps a well-formed editor well-formed: between 1 and 256 lines of at most 79 bytes, and the cursor at a column of one of them.
pub act-IsValid : (c : ℕ) (e : Editor) → IsValid e → IsValid (scroll (act c e))
unfolding act
act-IsValid c e v = scroll-IsValid (act c e) (
    either (c == 0x11) _ _
      (λ _. record {
        full = v.full;
        some_line = v.some_line;
        bounded = v.bounded;
        row = v.row;
        column = v.column;
        fit = v.fit;
      })
      (λ _.
        either (c == b'\n') _ _ (λ _. editor_newline-IsValid e v)
          (λ _.
            either (c == 8) _ _ (λ _. editor_delete_char-IsValid e v)
              (λ _.
                either (c == 0xF1) _ _ (λ _. move_up-IsValid e v)
                  (λ _.
                    either (c == 0xF2) _ _ (λ _. move_down-IsValid e v)
                      (λ _.
                        either (c == 0xF3) _ _ (λ _. move_left-IsValid e v)
                          (λ _.
                            either (c == 0xF4) _ _ (λ _. move_right-IsValid e v)
                              (λ _.
                                either (c == 0xF5) _ _
                                  (λ _.
                                    moved-IsValid e 0 e.cursor_y e.scroll_y v v.row (omega arith))
                                  (λ _.
                                    either (c == 0xF6) _ _
                                      (λ _.
                                        moved-IsValid e (length (current e)) e.cursor_y e.scroll_y v
                                          v.row (omega arith))
                                      (λ _.
                                        either (c == 0xF7) _ _ (λ _. page_up-IsValid e v)
                                          (λ _.
                                            either (c == 0xF8) _ _ (λ _. page_down-IsValid e v)
                                              (λ _.
                                                either (leb 32 c && ltb c 127) _ e
                                                  (λ _. editor_insert_char-IsValid c e v)
                                                  (λ _. v)))))))))))))

empty_line : (n i : ℕ) → length {A = ℕ} (get_or (replicate n []) i []) ≡ 0
empty_line zero i = refl
empty_line (suc n) zero = refl
empty_line (suc n) (suc i) = empty_line n i

pub editor_new-IsValid : IsValid editor_new
unfolding editor_new
editor_new-IsValid = record {
  full = length-replicate {A = List ℕ} 256 [];
  some_line = omega arith;
  bounded = omega arith;
  row = omega arith;
  column = omega arith;
  fit = λ i. omega (arith, empty_line 256 i);
}
