-- ===== src/Csv.antt =====
-- CsvExportUtil: src/modules/admin/utils/csv-export.util.ts. A cell is its text by String(val), or
-- none for null and undefined; the rows are given cell by cell.
use innovents.Shared.{
  ◌==◌, if◌then◌else◌, Text, ℕ, Bool, false, ◌||◌, Option, none, some, List, [], ◌∷◌,
}
pub mod Cells
pub mod Tests

-- `=`, `+`, `-`, `@`, tab and carriage return.
abbrev pub is_formula_character : ℕ → Bool
is_formula_character c = c == 61 || c == 43 || c == 45 || c == 64 || c == 9 || c == 13

-- A single quote (39) before a formula.
abbrev pub neutralize : Text → Text
neutralize [] = []
neutralize (c ∷ cs) = if is_formula_character c then 39 ∷ c ∷ cs else c ∷ cs

-- A double quote, a comma, a line feed or a carriage return.
abbrev pub is_special : ℕ → Bool
is_special c = c == 34 || c == 44 || c == 10 || c == 13

unfoldable pub needs_quotes : Text → Bool
needs_quotes [] = false
needs_quotes (c ∷ cs) = is_special c || needs_quotes cs

-- `str.replace(/"/g, '""')`
unfoldable pub double_quotes : Text → Text
double_quotes [] = []
double_quotes (c ∷ cs) = if c == 34 then 34 ∷ 34 ∷ double_quotes cs else c ∷ double_quotes cs

unfoldable pub append : Text → Text → Text
append [] ys = ys
append (x ∷ xs) ys = x ∷ append xs ys

abbrev pub quote : Text → Text
quote str = if needs_quotes str then 34 ∷ append (double_quotes str) (34 ∷ []) else str

unfoldable pub sanitize_cell : Option Text → Text
sanitize_cell none = []
sanitize_cell (some str) = quote (neutralize str)

-- `map(sanitizeCell).join(',')`
unfoldable pub join_cells : List (Option Text) → Text
join_cells [] = []
join_cells (c ∷ []) = sanitize_cell c
join_cells (c ∷ d ∷ cs) = append (sanitize_cell c) (44 ∷ join_cells (d ∷ cs))

-- `[headerLine, ...dataLines].join('\r\n')`
unfoldable pub format_csv : List (Option Text) → List (List (Option Text)) → Text
format_csv header [] = join_cells header
format_csv header (row ∷ rows) = append (join_cells header) (13 ∷ 10 ∷ format_csv row rows)
