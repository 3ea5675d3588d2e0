-- ===== src/Console/Branches.antt =====
-- The branches of the operations of kernel/console.cpp.
use mikanos_aarch.Prelude.{
  ℕ, ◌+◌, ◌-◌, ◌≤◌, ◌<◌, ◌≡◌, ◌≢◌, ◌⊎◌, inl, inr, ap, Bool, true, false, List, [], ◌∷◌, ◌++◌, ltb,
  ◌==◌, if◌then◌else◌, arith, dec_lt,
}
use mikanos_aarch.Graphics.{Drawing}
use mikanos_aarch.Font.{FontData}
use mikanos_aarch.Console.{Console, rows, columns, scroll, newline, put_glyph, put_char, put_string}

pub newline_cases :
    (font : FontData) (console : Console)
    → ((console.cursor_row < rows - 1)
        × (newline font console
            ≡ (record console { cursor_row = console.cursor_row + 1; cursor_column = 0 }, [])))
      ⊎ ((rows - 1 ≤ console.cursor_row) × (newline font console ≡ scroll font console))
unfolding newline
newline_cases font console = elim (dec_lt console.cursor_row (rows - 1)) [
  | yes lt ↦ inl (lt, ap choose (inside lt))
  | no ge ↦ inr (omega arith, ap choose (at_end ge))
]
  where
    choose : Bool → Console × Drawing
    choose b =
        if b
        then (record console { cursor_row = console.cursor_row + 1; cursor_column = 0 }, [])
        else scroll font console

    inside : console.cursor_row < rows - 1 → ltb console.cursor_row (rows - 1) ≡ true
    inside lt = ground arith

    at_end : (¬ (console.cursor_row < rows - 1)) → ltb console.cursor_row (rows - 1) ≡ false
    at_end ge = ground arith

choose_cases :
    {A : Type 0} (c column : ℕ) (x y z : A)
    → ((c ≡ 10) × ((if c == 10 then x else if ltb column 79 then y else z) ≡ x))
      ⊎ ((c ≢ 10)
          × (((column < 79) × ((if c == 10 then x else if ltb column 79 then y else z) ≡ y))
              ⊎ ((79 ≤ column) × ((if c == 10 then x else if ltb column 79 then y else z) ≡ z))))
choose_cases c column x y z = ground arith

pub put_char_cases :
    (font : FontData) (console : Console) (c : ℕ)
    → ((c ≡ 10) × (put_char font console c ≡ newline font console))
      ⊎ ((c ≢ 10)
          × (((console.cursor_column < columns - 1)
                × (put_char font console c ≡ put_glyph font console c))
              ⊎ ((columns - 1 ≤ console.cursor_column)
                  × (put_char font console c ≡ (console, [])))))
unfolding put_char
put_char_cases font console c =
    choose_cases c console.cursor_column (newline font console) (put_glyph font console c)
      (console, [])

stop_cases :
    {A : Type 0} (c : ℕ) (x y : A)
    → ((c ≡ 0) × ((if c == 0 then x else y) ≡ x)) ⊎ ((c ≢ 0) × ((if c == 0 then x else y) ≡ y))
stop_cases c x y = ground arith

pub put_string_cases :
    (font : FontData) (console : Console) (c : ℕ) (s : List ℕ)
    → ((c ≡ 0) × (put_string font console (c ∷ s) ≡ (console, [])))
      ⊎ ((c ≢ 0)
          × (put_string font console (c ∷ s) ≡ (
            (put_string font ((put_char font console c).0) s).0,
            (put_char font console c).1 ++ (put_string font ((put_char font console c).0) s).1,
          )))
unfolding put_string
put_string_cases font console c s =
    stop_cases c (console, [])
      (
        (put_string font ((put_char font console c).0) s).0,
        (put_char font console c).1 ++ (put_string font ((put_char font console c).0) s).1,
      )
