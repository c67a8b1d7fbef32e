-- ===== src/Csv/Tests.antt =====
-- A line with a formula, a comma, quotes, line breaks and an empty cell.
use innovents.Shared.{Text, ◌≡◌, refl, Option, none, some, List, [], ◌∷◌}
use innovents.Csv.{needs_quotes, double_quotes, append, sanitize_cell, join_cells, format_csv}
use innovents.Csv.Cells.{shown, read_line, shown_cells, join_cells-read}

abbrev formula : Text
formula = 61 ∷ 49 ∷ 44 ∷ 34 ∷ []

abbrev cells : List (Option Text)
cells = none ∷ some (97 ∷ 10 ∷ 98 ∷ []) ∷ some (97 ∷ []) ∷ []

abbrev rest : Text
rest = 13 ∷ 10 ∷ 97 ∷ []

sanitize_runs : sanitize_cell (some formula) ≡ 34 ∷ 39 ∷ 61 ∷ 49 ∷ 44 ∷ 34 ∷ 34 ∷ 34 ∷ []
unfolding sanitize_cell needs_quotes double_quotes append
sanitize_runs = refl

format_runs :
    format_csv (some (97 ∷ []) ∷ none ∷ []) (cells ∷ [])
    ≡ 97 ∷ 44 ∷ 13 ∷ 10 ∷ 44 ∷ 34 ∷ 97 ∷ 10 ∷ 98 ∷ 34 ∷ 44 ∷ 97 ∷ []
unfolding format_csv join_cells sanitize_cell needs_quotes double_quotes append
format_runs = refl

join_cells-read_example :
    read_line 4 (append (join_cells (some formula ∷ cells)) rest)
    ≡ (shown (some formula) ∷ shown_cells cells, rest)
join_cells-read_example = join_cells-read (some formula) cells rest refl
