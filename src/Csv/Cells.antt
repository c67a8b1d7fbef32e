-- ===== src/Csv/Cells.antt =====
-- What a reader of RFC 4180 gets back from a cell.
use innovents.Shared.{
  ◌==◌, if◌then◌else◌, length, Text, ℕ, zero, suc, ◌≡◌, refl, ap, Bool, true, false, ◌||◌, Option,
  none, some, List, [], ◌∷◌, arith,
}
use innovents.Csv.{
  is_formula_character, neutralize, is_special, needs_quotes, double_quotes, append, quote,
  sanitize_cell, join_cells,
}

-- A quoted field from its first character on; `quote_read` says that a double quote came before.
abbrev pub read_quoted : Bool → Text → Text × Text
read_quoted quote_read [] = ([], [])
read_quoted false (c ∷ cs) =
    if c == 34
    then read_quoted true cs
    else (c ∷ (read_quoted false cs).0, (read_quoted false cs).1)
read_quoted true (c ∷ cs) =
    if c == 34 then (34 ∷ (read_quoted false cs).0, (read_quoted false cs).1) else ([], c ∷ cs)

-- An unquoted field ends before a comma or a line break.
abbrev pub read_plain : Text → Text × Text
read_plain [] = ([], [])
read_plain (c ∷ cs) =
    if is_special c then ([], c ∷ cs) else (c ∷ (read_plain cs).0, (read_plain cs).1)

-- A field, and the text after it.
abbrev pub read_field : Text → Text × Text
read_field [] = ([], [])
read_field (c ∷ cs) = if c == 34 then read_quoted false cs else read_plain (c ∷ cs)

-- The text after a field: the end, a comma or a line break.
abbrev pub ends_field : Text → Bool
ends_field [] = true
ends_field (c ∷ cs) = c == 44 || c == 13 || c == 10

read_quoted-double_quotes :
    (str rest : Text)
    → ends_field rest ≡ true
    → read_quoted false (append (append (double_quotes str) (34 ∷ [])) rest) ≡ (str, rest)
unfolding double_quotes append
read_quoted-double_quotes [] [] h = ground arith
read_quoted-double_quotes [] (c ∷ cs) h = ground arith
read_quoted-double_quotes (c ∷ cs) rest h = ground (arith, read_quoted-double_quotes cs rest h)

read_plain-append :
    (str rest : Text)
    → needs_quotes str ≡ false
    → ends_field rest ≡ true
    → read_plain (append str rest) ≡ (str, rest)
unfolding needs_quotes append
read_plain-append [] [] e h = refl
read_plain-append [] (c ∷ cs) e h = ground arith
read_plain-append (c ∷ cs) rest e h = ground (arith, read_plain-append cs rest)

read_field-quote :
    (str rest : Text) → ends_field rest ≡ true → read_field (append (quote str) rest) ≡ (str, rest)
unfolding append needs_quotes
read_field-quote [] [] h = refl
read_field-quote [] (c ∷ cs) h = ground arith
read_field-quote (c ∷ cs) rest h =
    ground (arith, read_plain-append (c ∷ cs) rest, read_quoted-double_quotes (c ∷ cs) rest h)

-- What a cell is read back as.
abbrev pub shown : Option Text → Text
shown none = []
shown (some str) = neutralize str

abbrev pub starts_formula : Text → Bool
starts_formula [] = false
starts_formula (c ∷ cs) = is_formula_character c

-- Whatever text is exported, and whatever field or line follows it, a reader of RFC 4180 gets back
-- that text, with a single quote before it if it starts like a formula: what is read never does.
sanitize_cell-read :
    (cell : Option Text) (rest : Text)
    → ends_field rest ≡ true
    → (read_field (append (sanitize_cell cell) rest) ≡ (shown cell, rest))
      × (starts_formula (shown cell) ≡ false)
unfolding sanitize_cell append
sanitize_cell-read none [] h = (refl, refl)
sanitize_cell-read none (c ∷ cs) h = (ground arith, refl)
sanitize_cell-read (some []) rest h = (read_field-quote [] rest h, refl)
sanitize_cell-read (some (c ∷ cs)) rest h =
    (read_field-quote (neutralize (c ∷ cs)) rest h, ground arith)

append-append : (xs ys zs : Text) → append (append xs ys) zs ≡ append xs (append ys zs)
unfolding append
append-append [] ys zs = refl
append-append (x ∷ xs) ys zs = ap (◌∷◌ x) (append-append xs ys zs)

-- The end, or a line break.
abbrev pub ends_line : Text → Bool
ends_line [] = true
ends_line (c ∷ cs) = c == 13 || c == 10

abbrev pub starts_comma : Text → Bool
starts_comma [] = false
starts_comma (c ∷ cs) = c == 44

abbrev pub drop_comma : Text → Text
drop_comma [] = []
drop_comma (c ∷ cs) = cs

-- The fields of a line of at most `n` columns, and the text after it.
unfoldable pub read_line : ℕ → Text → List Text × Text
read_line zero text = ([], text)
read_line (suc n) text =
    let field : Text × Text = read_field text in
    let more : List Text × Text = read_line n (drop_comma field.1) in
    if starts_comma field.1 then (field.0 ∷ more.0, more.1) else (field.0 ∷ [], field.1)

abbrev pub shown_cells : List (Option Text) → List Text
shown_cells [] = []
shown_cells (c ∷ cs) = shown c ∷ shown_cells cs

-- A line that is exported and ends with the text or with a line break is read back cell by cell by a
-- reader of RFC 4180: none is split, joined or lost.
pub join_cells-read :
    (cell : Option Text) (cells : List (Option Text)) (rest : Text)
    → ends_line rest ≡ true
    → read_line (suc (length cells)) (append (join_cells (cell ∷ cells)) rest)
      ≡ (shown cell ∷ shown_cells cells, rest)
unfolding join_cells read_line append
join_cells-read cell [] [] h = ground (arith, (sanitize_cell-read cell [] refl).0)
join_cells-read cell [] (c ∷ cs) h =
    ground (arith, (sanitize_cell-read cell (c ∷ cs) (ground arith)).0)
join_cells-read cell (next ∷ cells) rest h =
    let after : Text = append (join_cells (next ∷ cells)) rest in
    ground (
      arith,
      append-append (sanitize_cell cell) (44 ∷ join_cells (next ∷ cells)) rest,
      (sanitize_cell-read cell (44 ∷ after) refl).0,
      join_cells-read next cells rest h,
    )
