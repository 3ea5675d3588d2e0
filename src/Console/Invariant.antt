-- ===== src/Console/Invariant.antt =====
-- What holds of the console of kernel/console.cpp between two operations.
use mikanos_aarch.Prelude.{
  ℕ, zero, suc, ◌+◌, ◌-◌, ◌≤◌, ◌<◌, ◌≡◌, ◌≢◌, inl, inr, refl, sym, ap, subst, ◌∙◌, ◌&&◌, List, [],
  ◌∷◌, ltb, leb, ◌==◌, if◌then◌else◌, arith, dec_lt,
}
use mikanos_aarch.Graphics.{PixelColor, Drawing}
use mikanos_aarch.Font.{FontData}
use mikanos_aarch.Console.{
  Console, Buffer, rows, columns, new_console, store, copy_row, clear_row, scroll_rows, scroll,
  newline, put_glyph, put_char, put_string,
}
use mikanos_aarch.Console.Branches.{newline_cases, put_char_cases, put_string_cases}

-- The cursor is in the buffer with a byte to spare, the rows below it and the rest of its own row are
-- empty, and every row is a string that ends before its last byte.
pub record IsValid (console : Console) : Type 0 where
  pub row-lt : console.cursor_row < rows
  pub column-lt : console.cursor_column < columns
  pub below : (r k : ℕ) → console.cursor_row < r → console.buffer r k ≡ 0
  pub rest : (k : ℕ) → console.cursor_column ≤ k → console.buffer console.cursor_row k ≡ 0
  pub typed : (k : ℕ) → k < console.cursor_column → console.buffer console.cursor_row k ≢ 0
  pub ends : (r k : ℕ) → console.buffer r k ≡ 0 → console.buffer r (k + 1) ≡ 0
  pub last : (r : ℕ) → console.buffer r (columns - 1) ≡ 0

pub new_console-IsValid : (fg bg : PixelColor) → IsValid (new_console fg bg)
unfolding new_console
new_console-IsValid fg bg = record {
  row-lt = omega arith;
  column-lt = omega arith;
  below = λ r k h. refl;
  rest = λ k h. refl;
  typed = λ k h. absurd (omega arith);
  ends = λ r k e. refl;
  last = λ r. refl;
}

-- The buffer after the rows have moved.
scroll_rows_lem :
    (font : FontData) (fg : PixelColor) (n row : ℕ) (buffer : Buffer) (r k : ℕ)
    → (scroll_rows font fg n row buffer).0 r k ≡ (
        if leb row r && ltb r (row + n) && ltb k (columns + 1)
        then buffer (r + 1) k
        else buffer r k)
unfolding scroll_rows copy_row
scroll_rows_lem font fg zero row buffer r k = ground arith
scroll_rows_lem font fg (suc n) row buffer r k =
    scroll_rows_lem font fg n (row + 1) (copy_row buffer row) r k ∙ ground arith

cleared :
    (r k moved next same : ℕ)
    → moved ≡ (if leb 0 r && ltb r (0 + 24) && ltb k 81 then next else same)
    → (if r == 24 && ltb k 81 then 0 else moved)
      ≡ (if ltb k 81 && leb r 24 then (if r == 24 then 0 else next) else same)
cleared r k moved next same e = ground arith

pub scroll_lem :
    (font : FontData) (console : Console) (r k : ℕ)
    → (scroll font console).0.buffer r k ≡ (
        if ltb k (columns + 1) && leb r (rows - 1)
        then if r == rows - 1 then 0 else console.buffer (r + 1) k
        else console.buffer r k)
unfolding scroll clear_row
scroll_lem font console r k =
    cleared r k ((scroll_rows font console.fg_color 24 0 console.buffer).0 r k)
      (console.buffer (r + 1) k) (console.buffer r k)
      (scroll_rows_lem font console.fg_color 24 0 console.buffer r k)

module _ (console : Console) (v : IsValid console) where
  tail : (r d : ℕ) → console.buffer r (columns - 1 + d) ≡ 0
  tail r zero = v.last r
  tail r (suc d) = ap (console.buffer r) place ∙ v.ends r (columns - 1 + d) (tail r d)
    where
      place : columns - 1 + suc d ≡ columns - 1 + d + 1
      place = omega arith

  pub beyond : (r k : ℕ) → columns - 1 ≤ k → console.buffer r k ≡ 0
  beyond r k h = ap (console.buffer r) split ∙ tail r (k - (columns - 1))
    where
      split : k ≡ columns - 1 + (k - (columns - 1))
      split = omega arith

  pub scroll-cursor :
      (font : FontData)
      → ((scroll font console).0.cursor_row ≡ console.cursor_row)
        × ((scroll font console).0.cursor_column ≡ 0)
  unfolding scroll
  scroll-cursor font = (refl, refl)

  -- Scrolling moves every row up, and leaves the last one empty.
  pub scroll-up :
      (font : FontData) (r k : ℕ)
      → r < rows - 1
      → (scroll font console).0.buffer r k ≡ console.buffer (r + 1) k
  scroll-up font r k h = scroll_lem font console r k ∙ ground (arith, beyond r k, beyond (r + 1) k)

  pub scroll-new :
      (font : FontData) (r k : ℕ)
      → console.cursor_row + 1 ≡ rows
      → rows - 1 ≤ r
      → (scroll font console).0.buffer r k ≡ 0
  scroll-new font r k full h = scroll_lem font console r k ∙ ground (arith, beyond r k, v.below r k)

  scroll-ends :
      (font : FontData) (r k : ℕ)
      → console.cursor_row + 1 ≡ rows
      → (scroll font console).0.buffer r k ≡ 0
      → (scroll font console).0.buffer r (k + 1) ≡ 0
  scroll-ends font r k full e = elim (dec_lt r 24) [
    | yes lt ↦ scroll-up font r (k + 1) lt ∙ v.ends (r + 1) k (sym (scroll-up font r k lt) ∙ e)
    | no ge ↦ scroll-new font r (k + 1) full (omega arith)
  ]

  scroll-IsValid :
      (font : FontData) → console.cursor_row + 1 ≡ rows → IsValid ((scroll font console).0)
  unfolding scroll
  scroll-IsValid font full = record {
    row-lt = v.row-lt;
    column-lt = omega arith;
    below = λ r k h. scroll-new font r k full (omega arith);
    rest = λ k h. scroll-new font console.cursor_row k full (omega arith);
    typed = λ k h. absurd (omega arith);
    ends = λ r k e. scroll-ends font r k full e;
    last = λ r. elim (dec_lt r 24) [
      | yes lt ↦ scroll-up font r (columns - 1) lt ∙ v.last (r + 1)
      | no ge ↦ scroll-new font r (columns - 1) full (omega arith)
    ];
  }

  newline-IsValid : (font : FontData) → IsValid ((newline font console).0)
  newline-IsValid font = elim (newline_cases font console) [
    | inl (lt, e) ↦
        subst (λ (o : Console × Drawing). IsValid (o.0)) (sym e)
          (record {
            row-lt = omega arith;
            column-lt = omega arith;
            below = λ r k h. v.below r k (omega arith);
            rest = λ k h. v.below (console.cursor_row + 1) k (omega arith);
            typed = λ k h. absurd (omega arith);
            ends = v.ends;
            last = v.last;
          })
    | inr (ge, e) ↦
        subst (λ (o : Console × Drawing). IsValid (o.0)) (sym e)
          (scroll-IsValid font (omega (arith, v.row-lt)))
  ]

  put_glyph-IsValid :
      (font : FontData) (c : ℕ)
      → c ≢ 0
      → console.cursor_column < columns - 1
      → IsValid ((put_glyph font console c).0)
  unfolding put_glyph store
  put_glyph-IsValid font c n room = record {
    row-lt = v.row-lt;
    column-lt = omega arith;
    below = λ r k h. ground (arith, v.below r k);
    rest = λ k h. ground (arith, v.rest k);
    typed = λ k h. ground (arith, v.typed k);
    ends = λ r k e. ground (arith, v.ends r k, kept r k);
    last = λ r. ground (arith, v.last r);
  }
    where
      kept : (r k : ℕ) → r ≡ console.cursor_row → k < console.cursor_column → console.buffer r k ≢ 0
      kept r k e lt z = v.typed k lt (sym (ap (λ (r : ℕ). console.buffer r k) e) ∙ z)

  pub put_char-IsValid : (font : FontData) (c : ℕ) → c ≢ 0 → IsValid ((put_char font console c).0)
  put_char-IsValid font c n = elim (put_char_cases font console c) [
    | inl (_, e) ↦ subst (λ (o : Console × Drawing). IsValid (o.0)) (sym e) (newline-IsValid font)
    | inr (_, inl (room, e)) ↦
        subst (λ (o : Console × Drawing). IsValid (o.0)) (sym e) (put_glyph-IsValid font c n room)
    | inr (_, inr (_, e)) ↦ subst (λ (o : Console × Drawing). IsValid (o.0)) (sym e) v
  ]

-- `PutString` keeps the cursor within the buffer with a byte to spare, the rows below it and the rest
-- of its own row empty, and every row a string that ends before its last byte, for every string.
pub put_string-IsValid :
    (font : FontData) (console : Console) (s : List ℕ)
    → IsValid console
    → IsValid ((put_string font console s).0)
unfolding put_string
put_string-IsValid font console [] v = v
put_string-IsValid font console (c ∷ s) v = elim (put_string_cases font console c s) [
  | inl (_, e) ↦ subst (λ (o : Console × Drawing). IsValid (o.0)) (sym e) v
  | inr (n, e) ↦
      subst (λ (o : Console × Drawing). IsValid (o.0)) (sym e)
        (put_string-IsValid font ((put_char font console c).0) s
          (put_char-IsValid console v font c n))
]
