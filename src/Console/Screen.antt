-- ===== src/Console/Screen.antt =====
-- What the console of kernel/console.cpp has drawn: the characters of its buffer.
use mikanos_aarch.Prelude.{
  ℕ, ◌+◌, ◌-◌, ◌*◌, ◌≡◌, ◌≢◌, ◌↔◌, ◌⊎◌, inl, inr, refl, sym, ap, subst, ◌∙◌, List, [], ◌∷◌, ◌++◌,
  arith, dec_lt,
}
use mikanos_aarch.Prelude.Int.{ℤ, pos}
use mikanos_aarch.Graphics.{PixelColor, Drawing}
use mikanos_aarch.Graphics.Shows.{painted, Some, Shows-region}
use mikanos_aarch.Font.{FontData, write_ascii}
use mikanos_aarch.Font.Glyphs.{InGlyph, write_ascii-Shows}
use mikanos_aarch.Console.{
  Console, Buffer, rows, new_console, store, scroll_rows, clear_screen, scroll, newline, put_glyph,
  put_char, put_string,
}
use mikanos_aarch.Console.Invariant.{IsValid, scroll-up, scroll-new, put_char-IsValid}
use mikanos_aarch.Console.Branches.{newline_cases, put_char_cases, put_string_cases}
use mikanos_aarch.Graphics.Layers.{ShowsOn, drawn_more, redrawn, append-nil, append_assoc}
use mikanos_aarch.Console.Rows.{
  InCell, InRow, InRow-cong, InText, InScreen, scroll_rows-Shows, clear_screen-Shows,
  InText-InScreen,
}

-- The same of the characters of the buffer.
abbrev pub ShowsText : FontData → Console → Drawing → Type 0
ShowsText font console ws =
    ShowsOn console.fg_color console.bg_color (InText font console.buffer) ws

stored_here : (buffer : Buffer) (row column c : ℕ) → store buffer row column c row column ≡ c
unfolding store
stored_here buffer row column c = ground arith

stored :
    (buffer : Buffer) (row column c r k : ℕ)
    → ((r ≡ row) × (k ≡ column)) ⊎ (store buffer row column c r k ≡ buffer r k)
unfolding store
stored buffer row column c r k = ground arith

carry :
    (font : FontData) (ws : Drawing) {o after : Console × Drawing}
    → o ≡ after
    → ShowsText font (after.0) (ws ++ after.1)
    → ShowsText font (o.0) (ws ++ o.1)
carry font ws e s = rw e s

module _ (font : FontData) (console : Console) (v : IsValid console) (ws : Drawing) where
  scrolled_text :
      console.cursor_row + 1 ≡ rows
      → (a b : ℤ)
      → Some (rows - 1) 0 (λ r. InRow font (console.buffer (r + 1)) r) a b
        ↔ InText font ((scroll font console).0.buffer) a b
  scrolled_text full a b = (
    (λ (r, lo, hi, p). (
      r,
      omega arith,
      InRow-cong font (console.buffer (r + 1)) ((scroll font console).0.buffer r) r a b
          (λ k. sym (scroll-up console v font r k (omega arith))) p,
    )),
    λ (r, hr, p). elim (dec_lt r 24) [
      | yes lt ↦ (
        r,
        omega arith,
        omega arith,
        InRow-cong font ((scroll font console).0.buffer r) (console.buffer (r + 1)) r a b
            (λ k. scroll-up console v font r k lt) p,
      )
      | no ge ↦ absurd ((p.2).0 (scroll-new console v font r (p.0) full (omega arith)))
    ],
  )

  scroll_drawing :
      (scroll font console).1
      ≡ clear_screen console.bg_color
        ++ (scroll_rows font console.fg_color (rows - 1) 0 console.buffer).1
  unfolding scroll
  scroll_drawing = refl

  scroll_colors :
      ((scroll font console).0.fg_color ≡ console.fg_color)
      × ((scroll font console).0.bg_color ≡ console.bg_color)
  unfolding scroll
  scroll_colors = (refl, refl)

  scroll-ShowsText :
      console.cursor_row + 1 ≡ rows
      → ShowsText font console ws
      → ShowsText font ((scroll font console).0) (ws ++ (scroll font console).1)
  scroll-ShowsText full s = carried (scroll_colors.0) (scroll_colors.1) scroll_drawing (
      redrawn ws console.fg_color console.bg_color (InText font console.buffer)
        (InText font ((scroll font console).0.buffer)) s (clear_screen console.bg_color)
        ((scroll_rows font console.fg_color (rows - 1) 0 console.buffer).1) InScreen
        (clear_screen-Shows console.bg_color)
        (Shows-region ((scroll_rows font console.fg_color (rows - 1) 0 console.buffer).1)
          console.fg_color (Some (rows - 1) 0 (λ r. InRow font (console.buffer (r + 1)) r))
          (InText font ((scroll font console).0.buffer)) (λ a b. (scrolled_text full a b).0)
          (λ a b. (scrolled_text full a b).1)
          (scroll_rows-Shows font console.fg_color (rows - 1) 0 console.buffer
            (λ r k lt e. v.ends r k e) (λ r lt. v.last r)))
        (InText-InScreen font console.buffer))
    where
      carried :
          {fg bg fg' bg' : PixelColor} {more more' : Drawing} {P : ℤ → ℤ → Type 0}
          → fg' ≡ fg
          → bg' ≡ bg
          → more' ≡ more
          → ShowsOn fg bg P (ws ++ more)
          → ShowsOn fg' bg' P (ws ++ more')
      carried e f g s = rw (e, f, g) s

  put_glyph-ShowsText :
      (c : ℕ)
      → c ≢ 0
      → ShowsText font console ws
      → ShowsText font ((put_glyph font console c).0) (ws ++ (put_glyph font console c).1)
  unfolding put_glyph
  put_glyph-ShowsText c n s =
      drawn_more ws console.fg_color console.bg_color (InText font console.buffer)
        (InText font buffer) s
        (write_ascii font (pos (8 * console.cursor_column)) (pos (16 * console.cursor_row)) c
          console.fg_color)
        Glyph
        (write_ascii-Shows font (pos (8 * console.cursor_column)) (pos (16 * console.cursor_row)) c
          console.fg_color)
        to from
    where
      buffer : Buffer
      buffer = store console.buffer console.cursor_row console.cursor_column c

      Glyph : ℤ → ℤ → Type 0
      Glyph = InGlyph font (pos (8 * console.cursor_column)) (pos (16 * console.cursor_row)) c

      to : (a b : ℤ) → InText font console.buffer a b ⊎ Glyph a b → InText font buffer a b
      to a b (inr g) = (
        console.cursor_row,
        v.row-lt,
        (
          console.cursor_column,
          v.column-lt,
          subst (InCell font console.cursor_row console.cursor_column a b)
              (sym (stored_here console.buffer console.cursor_row console.cursor_column c)) (n, g),
        ),
      )
      to a b (inl (r, hr, (k, hk, (nz, g)))) =
          elim (stored console.buffer console.cursor_row console.cursor_column c r k) [
            | inl (er, ek) ↦
                absurd (nz (ap (λ (r : ℕ). console.buffer r k) er ∙ v.rest k (omega arith)))
            | inr e ↦ (r, hr, (k, hk, subst (InCell font r k a b) (sym e) (nz, g)))
          ]

      at_cursor :
          (a b : ℤ) (r k : ℕ)
          → r ≡ console.cursor_row
          → k ≡ console.cursor_column
          → InGlyph font (pos (8 * k)) (pos (16 * r)) (buffer r k) a b
          → Glyph a b
      at_cursor a b r k er ek g =
          subst
            (λ (c : ℕ).
              InGlyph font (pos (8 * console.cursor_column)) (pos (16 * console.cursor_row)) c a b)
            (stored_here console.buffer console.cursor_row console.cursor_column c)
            (subst
              (λ (k : ℕ).
                InGlyph font (pos (8 * k)) (pos (16 * console.cursor_row))
                  (buffer console.cursor_row k) a b)
              ek
              (subst (λ (r : ℕ). InGlyph font (pos (8 * k)) (pos (16 * r)) (buffer r k) a b) er g))

      from : (a b : ℤ) → InText font buffer a b → InText font console.buffer a b ⊎ Glyph a b
      from a b (r, hr, (k, hk, (nz, g))) =
          elim (stored console.buffer console.cursor_row console.cursor_column c r k) [
            | inl (er, ek) ↦ inr (at_cursor a b r k er ek g)
            | inr e ↦ inl (r, hr, (k, hk, subst (InCell font r k a b) e (nz, g)))
          ]

  drawn_nothing : ShowsText font console ws → ShowsText font console (ws ++ [])
  drawn_nothing s = rw (append-nil ws) s

  newline-ShowsText :
      ShowsText font console ws
      → ShowsText font ((newline font console).0) (ws ++ (newline font console).1)
  newline-ShowsText s = elim (newline_cases font console) [
    | inl (lt, e) ↦ carry font ws e (drawn_nothing s)
    | inr (ge, e) ↦ carry font ws e (scroll-ShowsText (omega (arith, v.row-lt)) s)
  ]

  put_char-ShowsText :
      (c : ℕ)
      → c ≢ 0
      → ShowsText font console ws
      → ShowsText font ((put_char font console c).0) (ws ++ (put_char font console c).1)
  put_char-ShowsText c n s = elim (put_char_cases font console c) [
    | inl (_, e) ↦ carry font ws e (newline-ShowsText s)
    | inr (_, inl (_, e)) ↦ carry font ws e (put_glyph-ShowsText c n s)
    | inr (_, inr (_, e)) ↦ carry font ws e (drawn_nothing s)
  ]

-- A new console shows its buffer, which is empty.
pub new_console-ShowsText :
    (font : FontData) (fg bg : PixelColor) → ShowsText font (new_console fg bg) []
unfolding new_console painted
new_console-ShowsText font fg bg a b = inr ((λ (r, _, (k, _, (nz, _))). nz refl), inl refl)

-- After `PutString` on a valid console the screen shows its buffer again, as it did before: where a
-- character of the buffer has a dot, the last colour drawn is the foreground colour, and everywhere else
-- nothing was drawn or the background colour last.
pub put_string-ShowsText :
    (font : FontData) (console : Console) (ws : Drawing) (s : List ℕ)
    → IsValid console
    → ShowsText font console ws
    → ShowsText font ((put_string font console s).0) (ws ++ (put_string font console s).1)
unfolding put_string
put_string-ShowsText font console ws [] v t = drawn_nothing font console v ws t
put_string-ShowsText font console ws (c ∷ s) v t = elim (put_string_cases font console c s) [
  | inl (_, e) ↦ carry font ws e (drawn_nothing font console v ws t)
  | inr (n, e) ↦ carry font ws e (
      subst (ShowsText font ((put_string font ((put_char font console c).0) s).0))
        (append_assoc ws ((put_char font console c).1)
          ((put_string font ((put_char font console c).0) s).1))
        (put_string-ShowsText font ((put_char font console c).0) (ws ++ (put_char font console c).1)
          s (put_char-IsValid console v font c n) (put_char-ShowsText font console v ws c n t)))
]
