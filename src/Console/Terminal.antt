-- ===== src/Console/Terminal.antt =====
-- The console of kernel/console.cpp as a terminal: the lines that were printed, with no rows, no
-- cursor and no bytes.
use mikanos_aarch.Prelude.{
  ℕ, zero, suc, ◌+◌, ◌-◌, ◌≤◌, ◌<◌, ◌≡◌, ◌≢◌, ◌⊎◌, inl, inr, refl, sym, ap, subst, ◌∙◌, List, [],
  ◌∷◌, ◌++◌, length, length-append, get_or, ltb, ◌==◌, if◌then◌else◌, min, arith, dec_lt,
}
use mikanos_aarch.Graphics.{PixelColor, Drawing}
use mikanos_aarch.Font.{FontData}
use mikanos_aarch.Console.{
  Console, Buffer, rows, columns, new_console, store, scroll, newline, put_glyph, put_char,
  put_string,
}
use mikanos_aarch.Console.Invariant.{
  IsValid, scroll-up, scroll-new, scroll-cursor, put_char-IsValid,
}
use mikanos_aarch.Console.Branches.{newline_cases, put_char_cases, put_string_cases}

-- The lines above the current one, the newest first, and the current line.
pub record Terminal : Type 0 where
  pub above : List (List ℕ)
  pub current : List ℕ

unfoldable pub new_terminal : Terminal
new_terminal = record { above = []; current = [] }

unfoldable pub end_line : Terminal → Terminal
end_line t = record { above = t.current ∷ t.above; current = [] }

-- A line holds one character less than the columns; further ones are lost.
unfoldable pub type_char : Terminal → ℕ → Terminal
unfolding end_line
type_char t c =
    if c == 10
    then end_line t
    else if ltb (length t.current) (columns - 1)
    then record t { current = t.current ++ c ∷ [] }
    else t

unfoldable pub type_string : Terminal → List ℕ → Terminal
unfolding type_char
type_string t [] = t
type_string t (c ∷ s) = let rest = type_string (type_char t c) s in if c == 0 then t else rest

-- The `k`-th character of a line, and zero after its end.
abbrev pub char_at : List ℕ → ℕ → ℕ
char_at line k = get_or line k 0

-- The line that is `age` lines above the current one.
abbrev pub line_at : Terminal → ℕ → List ℕ
line_at t age = get_or (t.current ∷ t.above) age []

-- The console shows the last lines of the terminal, the current one in the row of the cursor.
pub record Represents (console : Console) (t : Terminal) : Type 0 where
  pub row : console.cursor_row ≡ min (length t.above) (rows - 1)
  pub column : console.cursor_column ≡ length t.current
  pub shown :
      (r k : ℕ)
      → r ≤ console.cursor_row
      → console.buffer r k ≡ char_at (line_at t (console.cursor_row - r)) k

blank : (age k : ℕ) → 0 ≡ char_at (get_or ([] ∷ []) age []) k
blank zero k = refl
blank (suc age) k = refl

pub new_console-Represents : (fg bg : PixelColor) → Represents (new_console fg bg) new_terminal
unfolding new_console new_terminal
new_console-Represents fg bg = record {
  row = refl;
  column = refl;
  shown = λ r k h. blank (0 - r) k;
}

char_at-append :
    (line : List ℕ) (c k : ℕ)
    → char_at (line ++ c ∷ []) k ≡ (if k == length line then c else char_at line k)
char_at-append [] c zero = refl
char_at-append [] c (suc k) = ground arith
char_at-append (x ∷ line) c zero = ground arith
char_at-append (x ∷ line) c (suc k) = char_at-append line c k ∙ ground arith

-- The lines after the current one has ended.
ended :
    (t : Terminal) (age before k : ℕ)
    → 1 ≤ age
    → before ≡ age - 1
    → char_at (line_at t before) k ≡ char_at (line_at (end_line t) age) k
unfolding end_line
ended t zero before k h e = absurd (omega arith)
ended t (suc age) before k h e = ap (λ (n : ℕ). char_at (line_at t n) k) same
  where
    same : before ≡ age
    same = omega arith

fresh : (t : Terminal) (age k : ℕ) → age ≡ 0 → 0 ≡ char_at (line_at (end_line t) age) k
unfolding end_line
fresh t zero k e = refl
fresh t (suc age) k e = absurd (omega arith)

-- The lines after a character.
char_after :
    (t : Terminal) (c age k : ℕ)
    → ((age ≡ 0)
        × (char_at (line_at (record t { current = t.current ++ c ∷ [] }) age) k
            ≡ (if k == length t.current then c else char_at (line_at t age) k)))
      ⊎ ((1 ≤ age)
          × (char_at (line_at (record t { current = t.current ++ c ∷ [] }) age) k
              ≡ char_at (line_at t age) k))
char_after t c zero k = inl (refl, char_at-append t.current c k)
char_after t c (suc age) k = inr (omega arith, refl)

-- The buffer after a character.
at_cursor :
    (buffer : Buffer) (row column c r k size x : ℕ)
    → r ≡ row
    → column ≡ size
    → buffer r k ≡ x
    → store buffer row column c r k ≡ (if k == size then c else x)
unfolding store
at_cursor buffer row column c r k size x e f g = ground arith

apart :
    (buffer : Buffer) (row column c r k : ℕ) → r < row → store buffer row column c r k ≡ buffer r k
unfolding store
apart buffer row column c r k h = ground arith

-- The branches of the terminal.
type_char_cases :
    (t : Terminal) (c : ℕ)
    → (c ≡ 10 → type_char t c ≡ end_line t)
      × (c ≢ 10
          → length t.current < columns - 1
          → type_char t c ≡ record t { current = t.current ++ c ∷ [] })
      × (c ≢ 10 → columns - 1 ≤ length t.current → type_char t c ≡ t)
unfolding type_char
type_char_cases t c = ((λ e. ground arith), (λ n h. ground arith), λ n h. ground arith)

carry :
    {o after : Console × Drawing} {t u : Terminal}
    → o ≡ after
    → t ≡ u
    → Represents (after.0) u
    → Represents (o.0) t
carry e f r = rw (e, f) r

module _ (console : Console) (t : Terminal) (v : IsValid console) (s : Represents console t) where
  scroll-Represents :
      (font : FontData)
      → rows - 1 ≤ console.cursor_row
      → Represents ((scroll font console).0) (end_line t)
  unfolding end_line
  scroll-Represents font full = record {
    row = (scroll-cursor console v font).0 ∙ omega (arith, s.row, v.row-lt);
    column = (scroll-cursor console v font).1;
    shown = λ r k h. elim (dec_lt r (rows - 1)) [
      | yes lt ↦
          scroll-up console v font r k lt
          ∙ s.shown (r + 1) k (omega arith)
          ∙ ended t ((scroll font console).0.cursor_row - r) (console.cursor_row - (r + 1)) k
              (omega (arith, scroll-cursor console v font))
              (omega (arith, scroll-cursor console v font))
      | no ge ↦
          scroll-new console v font r k (omega (arith, v.row-lt)) (omega arith)
          ∙ fresh t ((scroll font console).0.cursor_row - r) k
              (omega (arith, v.row-lt, scroll-cursor console v font))
    ];
  }

  newline-Represents : (font : FontData) → Represents ((newline font console).0) (end_line t)
  unfolding end_line
  newline-Represents font = elim (newline_cases font console) [
    | inl (lt, e) ↦
        subst (λ (o : Console × Drawing). Represents (o.0) (end_line t)) (sym e)
          (record {
            row = omega (arith, s.row);
            column = refl;
            shown = λ r k h. elim (dec_lt console.cursor_row r) [
              | yes new ↦ v.below r k new ∙ fresh t (console.cursor_row + 1 - r) k (omega arith)
              | no old ↦
                  s.shown r k (omega arith)
                  ∙ ended t (console.cursor_row + 1 - r) (console.cursor_row - r) k (omega arith)
                      (omega arith)
            ];
          })
    | inr (ge, e) ↦
        subst (λ (o : Console × Drawing). Represents (o.0) (end_line t)) (sym e)
          (scroll-Represents font ge)
  ]

  put_glyph-Represents :
      (font : FontData) (c : ℕ)
      → Represents ((put_glyph font console c).0) (record t { current = t.current ++ c ∷ [] })
  unfolding put_glyph store
  put_glyph-Represents font c = record {
    row = s.row;
    column = omega (arith, s.column, length-append t.current (c ∷ []));
    shown = λ r k h. elim (char_after t c (console.cursor_row - r) k) [
      | inl (z, e) ↦
          at_cursor console.buffer console.cursor_row console.cursor_column c r k (length t.current)
            (char_at (line_at t (console.cursor_row - r)) k) (omega arith) s.column (s.shown r k h)
          ∙ sym e
      | inr (lt, e) ↦
          apart console.buffer console.cursor_row console.cursor_column c r k (omega arith)
          ∙ s.shown r k h
          ∙ sym e
    ];
  }

  put_char-Represents :
      (font : FontData) (c : ℕ) → Represents ((put_char font console c).0) (type_char t c)
  put_char-Represents font c = elim (put_char_cases font console c) [
    | inl (z, e) ↦ carry e ((type_char_cases t c).0 z) (newline-Represents font)
    | inr (n, inl (room, e)) ↦
        carry e ((type_char_cases t c).1 n (omega (arith, s.column))) (put_glyph-Represents font c)
    | inr (n, inr (full, e)) ↦ carry e ((type_char_cases t c).2 n (omega (arith, s.column))) s
  ]

type_string_stop : (t : Terminal) (c : ℕ) (s : List ℕ) → c ≡ 0 → type_string t (c ∷ s) ≡ t
unfolding type_string
type_string_stop t c s z = ground arith

type_string_more :
    (t : Terminal) (c : ℕ) (s : List ℕ)
    → c ≢ 0
    → type_string t (c ∷ s) ≡ type_string (type_char t c) s
unfolding type_string
type_string_more t c s n = ground arith

-- `PutString` refines the terminal, for a valid console that represents the lines printed before: after
-- it the buffer holds the last 25 lines of these and of the string, a line of more than 79 characters
-- cut, the row of the cursor is the number of lines ended, 24 at most, and its column the length of the
-- current line.
pub put_string-Represents :
    (font : FontData) (console : Console) (t : Terminal) (s : List ℕ)
    → IsValid console
    → Represents console t
    → Represents ((put_string font console s).0) (type_string t s)
unfolding put_string type_string
put_string-Represents font console t [] v r = r
put_string-Represents font console t (c ∷ s) v r = elim (put_string_cases font console c s) [
  | inl (z, e) ↦ carry e (type_string_stop t c s z) r
  | inr (n, e) ↦ carry e (type_string_more t c s n) (
      put_string-Represents font ((put_char font console c).0) (type_char t c) s
        (put_char-IsValid console v font c n) (put_char-Represents console t v r font c))
]
