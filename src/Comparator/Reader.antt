-- ===== src/Comparator/Reader.antt =====
-- Reading one log (`_iter_commits`, `_reader_thread`). A line is given by what `strip` and
-- `json.loads` make of it.
pub mod Tolerance
use ai_chip_design_platform.Common.{
  ℕ, ◌+◌, suc, ℤ, pos, leb_ℤ, eq_ℤ, Bool, true, false, Option, none, some, List, [], ◌∷◌, String,
  if◌then◌else◌, Outcome, ok, raise, Exn, parse_error, log_format_error, key_error, value_error,
  type_error, step_error, attribute_error, not_modelled, Side,
}
use ai_chip_design_platform.Comparator.Json.{Json}
use ai_chip_design_platform.Comparator.Config.{CompareConfig}
use ai_chip_design_platform.Comparator.Entry.{CommitEntry}
use ai_chip_design_platform.Comparator.Record.{from_dict}
use ai_chip_design_platform.Comparator.Run.{Source}

-- A blank line or a comment, a line that is no JSON, and the value of any other line.
pub data Line : Type 0 where
  ignored malformed : Line
  value : Json → Line

-- What a reader has done when it ends: the commits that it yielded, the exception that ended it,
-- and its counters.
pub record Reading : Type 0 where
  pub commits : List CommitEntry
  pub failure : Option Exn
  pub parse_warnings : ℕ
  pub x0_violations : ℕ

abbrev pub ended : Option Exn → Reading
ended failure = record { commits = []; failure = failure; parse_warnings = 0; x0_violations = 0 }

abbrev pub warned : Reading → Reading
warned r = record r { parse_warnings = r.parse_warnings + 1 }

abbrev pub yielded : CommitEntry → Reading → Reading
yielded e r = record r {
  commits = e ∷ r.commits;
  x0_violations = if e.x0_violation then r.x0_violations + 1 else r.x0_violations;
}

-- `except (KeyError, ValueError, TypeError)`
abbrev pub is_caught : Exn → Bool
is_caught key_error = true
is_caught value_error = true
is_caught type_error = true
is_caught _ = false

-- A line that is counted as an error: with no tolerance it raises, at the tolerance the stream
-- stops, and otherwise it goes on.
abbrev pub after_error : ℤ → ℕ → Exn → Reading → Reading
after_error max_parse_errors errors e rest =
    if eq_ℤ max_parse_errors (pos 0)
    then warned (ended (some e))
    else if leb_ℤ max_parse_errors (pos (errors + 1))
    then warned (ended none)
    else warned rest

-- One line, with what the reader makes of the lines behind it, with and without one more error.
unfoldable pub read_line : ℤ → Side → ℕ → Line → Outcome CommitEntry → Reading → Reading → Reading
read_line max_parse_errors side errors ignored entry same more = same
read_line max_parse_errors side errors malformed entry same more =
    after_error max_parse_errors errors parse_error more
read_line max_parse_errors side errors (value v) (ok e) same more = yielded e same
read_line max_parse_errors side errors (value v) (raise e) same more =
    if is_caught e
    then after_error max_parse_errors errors (log_format_error side) more
    else ended (some e)

-- The value of a line, decoded.
abbrev pub entry_of : ℕ → ℕ → Line → Outcome CommitEntry
entry_of xlen lineno ignored = raise not_modelled
entry_of xlen lineno malformed = raise parse_error
entry_of xlen lineno (value v) = from_dict xlen lineno v

unfoldable pub iter_commits : ℕ → ℤ → Side → (lineno errors : ℕ) → List Line → Reading
iter_commits xlen max_parse_errors side lineno errors [] = ended none
iter_commits xlen max_parse_errors side lineno errors (l ∷ ls) =
    let same = iter_commits xlen max_parse_errors side (lineno + 1) errors ls in
    let more = iter_commits xlen max_parse_errors side (lineno + 1) (errors + 1) ls in
    read_line max_parse_errors side errors l (entry_of xlen lineno l) same more

abbrev has_failed : Option Exn → Bool
has_failed none = false
has_failed (some e) = true

-- A reader thread: the stream of a file that opens.
unfoldable pub reader_thread : CompareConfig → Side → Option String → List Line → Source
unfolding iter_commits
reader_thread c side sha lines =
    let r = iter_commits c.xlen c.max_parse_errors side 1 0 lines in
    record { sha256 = sha; commits = r.commits; fails = has_failed r.failure }
