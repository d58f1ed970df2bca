-- ===== src/Comparator/Reader/Tolerance.antt =====
-- The reader's tolerance of malformed lines.
use ai_chip_design_platform.Common.{
  ℕ, ◌+◌, ◌≤◌, suc, pos, List, [], ◌∷◌, Outcome, ok, raise, Side, arith, length,
}
use ai_chip_design_platform.Comparator.Entry.{CommitEntry}
use ai_chip_design_platform.Comparator.Reader.{
  Line, ignored, malformed, value, Reading, read_line, iter_commits,
}

-- The counters of a reading that has seen `errors` errors before it.
pub record IsTolerant (limit errors lines : ℕ) (r : Reading) : Type 0 where
  pub warnings : errors + r.parse_warnings ≤ limit
  pub accounted : length r.commits + r.parse_warnings ≤ lines

read_line-IsTolerant :
    (limit : ℕ) (side : Side) (errors lines : ℕ) (l : Line) (o : Outcome CommitEntry)
    (same more : Reading)
    → suc errors ≤ limit
    → IsTolerant limit errors lines same
    → (suc (suc errors) ≤ limit → IsTolerant limit (errors + 1) lines more)
    → IsTolerant limit errors (suc lines) (read_line (pos limit) side errors l o same more)
unfolding read_line
read_line-IsTolerant limit side errors lines ignored o same more h s m = ground arith
read_line-IsTolerant limit side errors lines malformed o same more h s m = ground arith
read_line-IsTolerant limit side errors lines (value v) (ok e) same more h s m = ground arith
read_line-IsTolerant limit side errors lines (value v) (raise e) same more h s m = ground arith

iter_commits-IsTolerant :
    (xlen limit : ℕ) (side : Side) (lineno errors : ℕ) (ls : List Line)
    → suc errors ≤ limit
    → IsTolerant limit errors (length ls) (iter_commits xlen (pos limit) side lineno errors ls)
unfolding iter_commits
iter_commits-IsTolerant xlen limit side lineno errors [] h = ground arith
iter_commits-IsTolerant xlen limit side lineno errors (l ∷ ls) h =
    read_line-IsTolerant limit side errors (length ls) l _ _ _ h
      (iter_commits-IsTolerant xlen limit side (lineno + 1) errors ls h)
      (λ more. iter_commits-IsTolerant xlen limit side (lineno + 1) (errors + 1) ls (omega arith))

-- With a positive tolerance a reader warns of at most that many lines, and has no more commits and
-- warnings together than there are lines.
pub iter_commits_tolerance :
    (xlen limit : ℕ) (side : Side) (ls : List Line)
    → 1 ≤ limit
    → IsTolerant limit 0 (length ls) (iter_commits xlen (pos limit) side 1 0 ls)
iter_commits_tolerance xlen limit side ls h =
    iter_commits-IsTolerant xlen limit side 1 0 ls (omega arith)
