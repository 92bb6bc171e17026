-- ===== src/Fileops/Lines/Ranges.antt =====
-- The ranges of lines that a read or an edit may use (internal/fileops/text.go).
use elbot.Base.{ℕ, ◌+◌, ◌≤◌, ◌<◌, ◌≡◌, ◌↔◌, Bool, true, false, none, arith, ℤ, pos_part}
use elbot.Fileops.Lines.{
  LineNumber, range, clip, normalize_read_range, validate_line_range, normalize_grep_context_lines,
  normalize_max_matches, normalize_context_lines, default_read_line_limit,
}

-- A range that a read gets lies in the file and is not empty, it is the requested one where that
-- is small enough, and only an explicit "end" may exceed the limit of 200 lines.
pub normalize_read_range_bounds :
    (total : ℕ) (start : ℤ) (e : LineNumber) (s l : ℕ) (cut : Bool)
    → 0 < total
    → normalize_read_range total start e ≡ range s l cut
    → (1 ≤ s)
      × (s ≤ l)
      × (l ≤ total)
      × (pos_part start ≤ s)
      × (e.end ≡ false → l < s + default_read_line_limit)
      × (e.end ≡ true → (l ≡ total) × (cut ≡ false))
unfolding normalize_read_range clip
normalize_read_range_bounds total start e s l cut h eq = ground arith

-- A line range is accepted exactly when it is one: it starts at line 1 or later, does not run
-- backwards, and ends in the file.
pub validate_line_range_iff :
    (total : ℕ) (start end : ℤ)
    → (validate_line_range total start end ≡ none)
      ↔ ((1 ≤ pos_part start) × (pos_part start ≤ pos_part end) × (pos_part end ≤ total))
unfolding validate_line_range
validate_line_range_iff total start end = ground arith

-- Whatever a caller asks for, the limits of a search stay in their ranges, and a value in range is
-- taken as it is.
pub normalize_limits :
    (v : ℤ)
    → (normalize_grep_context_lines v ≤ 20)
      × (normalize_context_lines v ≤ 20)
      × (1 ≤ normalize_max_matches v)
      × (normalize_max_matches v ≤ 100)
      × (1 ≤ pos_part v
          → pos_part v ≤ 20
          → (normalize_grep_context_lines v ≡ pos_part v)
            × (normalize_context_lines v ≡ pos_part v)
            × (normalize_max_matches v ≡ pos_part v))
unfolding normalize_grep_context_lines normalize_context_lines normalize_max_matches
normalize_limits v = ground arith
