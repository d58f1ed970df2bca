-- ===== src/Lib.antt =====
-- AVA, the multi-agent RISC-V verification pipeline, and VOE, its organisation of agents: the stage
-- that decides whether a run passes, the minimizer of failing logs, the verifiers that check traces
-- of a design against golden models, and the loop by which the agents spend a budget on obligations.
--
-- The RTL simulation and the instruction-set simulator each write a commit log, one JSON record per
-- retired instruction. AGENT_D/compare_commitlogs.py reads the two logs in two threads, decodes each
-- record, checks that the step numbers are consecutive, compares the commits pair by pair and
-- collects mismatches up to a limit. The rest of the pipeline acts on the verdict.
--
-- AGENT_H/cache_verifier.py replays the memory accesses of a log on a model of the cache and compares
-- hits, victims and write-backs with those that the design reports.
--
-- AGENT_H/interrupt_verifier.py replays interrupt events on models of the platform-level and of the
-- core-local controller. AGENT_H/coherence_verifier.py follows the loads and stores of several cores
-- and the states of their lines. AGENT_H/minimizer.py cuts a failing pair of logs down, by delta
-- debugging, with an oracle that says whether a part of the logs still fails.
--
-- AGENT_H/temporal_checker.py runs five monitors over the paired logs, each with a small state.
--
-- AGENT_H/lsq_verifier.py checks that loads read the youngest older store.
--
-- voe/ is the organisation: a board of tasks, workers that propose actions on it, a bus on which they
-- publish judgments, and the orchestrator's loop, which picks proposals, pays for them and publishes
-- what they find. The rules of the knowledge states are those of docs/vsa_reference.py.
--
-- Files (those of Comparator are about AGENT_D/compare_commitlogs.py):
--   Common               names, outcomes (a value or an exception), integers, texts, lists
--   Comparator.Kinds     MismatchType, Severity, _severity_for
--   Comparator.Config    CompareConfig
--   Comparator.Entry     CommitEntry, CsrWrite and the schema errors
--   Comparator.Json, Hex, Names   what json.loads returns, int(), _parse_hex, the name tables
--   Comparator.Record    CommitEntry.from_dict, with _mem_from_canonical, _trap_from_canonical,
--                        _regs_dict_to_rd and _csrs_dict_to_list in Record.Parts
--   Comparator.Reader    _iter_commits and _reader_thread
--   Comparator.Steps     _StepValidator
--   Comparator.Window    _DeltaWindow
--   Comparator.Issue, Fields      _Issue, _FieldComparator
--   Comparator.Run       compare, with its state and nested functions in Run.State and the body of
--                        its loop in Run.Iteration
--   Cache                CacheModel of AGENT_H/cache_verifier.py, the ways of a set in Cache.Ways
--   Cache.Building       _to_int and CacheVerifier._build_model
--   Cache.Verifier       CacheVerifier: run, _check_record, _compare, _flag
--   Minimizer            CommitLogMinimizer of AGENT_H/minimizer.py, the search in Minimizer.Search and
--                        the chunks in Minimizer.Chunks
--   Interrupt            AGENT_H/interrupt_verifier.py: PLICModel (Plic), CLICModel (Clic), their choice
--                        of a source (Arbitration), InterruptVerifier (Verifier); Trace says what
--                        traces the two controllers can make
--   Coherence            CoherenceVerifier of AGENT_H/coherence_verifier.py: the order of the events
--                        (Order), the state (State), the loop and its checks (Verifier); Trace says
--                        what the events alone tell of the states, the writes and what a core has seen
--   StoreQueue           LSQVerifier of AGENT_H/lsq_verifier.py
--   Temporal             AGENT_H/temporal_checker.py: what is read of a record (Record), the step of each
--                        monitor (Monitors), TemporalChecker with its default monitors (Checker)
--   Voe.Kernel           Judgment, the knowledge state and its laws, from docs/vsa_reference.py
--   Voe.Bus              JudgmentBus of voe/bus.py
--   Voe.Board            Task, TaskBoard and Ledger of voe/board.py
--   Voe.Workers          the workers of voe/workers.py and voe/specialists.py
--   Voe.Environment      the loop of voe/voe.py, with the scores of voe/reputation.py
-- The other files prove properties of these, and Samples and Witnesses run them on small logs.
--
-- Threads. A reader puts its commits in order on its own queue, and an end mark behind them. So a
-- log is a list of commits with whether its reader failed. The one thing that timing decides is at
-- which iteration the main loop sees a reader's error; a schedule, an arbitrary function that
-- the model takes, says so.
--
-- Termination. The loop is recursion on the two lists. Fuel is used in three places: for
-- the decimal text of a natural number in Comparator.Hex, one more than the number, and
-- for the bit length of a number in Cache, the number itself; neither has more digits than that. In
-- Minimizer it is one more than the limit of oracle calls; each level of the recursion makes a call.
--
-- Exceptions are values of Outcome. Step numbers, register numbers and sizes are integers, values
-- of XLEN bits are natural numbers, as from_dict masks them.
--
-- Parameters. The oracle of the minimizer is a function. In VOE so are the bound of the failure
-- probability for a number of samples, and what a worker's evidence channel answers; costs and
-- budgets are counted in quarters, of which all of them are multiples.
--
-- Not modelled: the description of each mismatch, times, logging, the command that reproduces a
-- run, and copied file paths; a privilege, memory operation or disassembly that is no text; floats
-- that are not finite; upper case and white space outside ASCII; an underscore straight behind the
-- prefix of a number. A line is given by what strip and json.loads make of it. An entry of a cache
-- trace is given by what get and _to_int make of its fields, a write policy other than wb and wt by
-- one constructor. Of the events of interrupts and of coherence, and of the records of the
-- monitors and of the store queue, a field is given by what is read of it, and the texts of
-- violations are left out. The tolerances of 1e-9 in VOE are left out, since costs are exact here,
-- and so are its adaptive workers and what it prints. The reports, the manifest and batch modes, the
-- command lines and the other agents are not modelled.
pub mod Common
pub mod Cache
pub mod Coherence
pub mod Comparator
pub mod Interrupt
pub mod Minimizer
pub mod StoreQueue
pub mod Temporal
pub mod Voe
