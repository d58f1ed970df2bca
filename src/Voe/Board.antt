-- ===== src/Voe/Board.antt =====
-- The task board and the resource ledger (voe/board.py). Costs and budgets are in quarters of the
-- source's unit, in which every cost of `ACTION_COST` is whole.
use ai_chip_design_platform.Common.{
  ℕ, ◌+◌, ◌-◌, Bool, true, false, Option, none, some, List, [], ◌∷◌, ◌++◌, String, ◌&&◌, ◌||◌, not,
  if◌then◌else◌, leb, map,
}
use ai_chip_design_platform.Voe.Kernel.{KnowledgeState, settled}
use ai_chip_design_platform.Voe.Kernel.Dict.{get_item, set_item}

pub data TaskKind : Type 0 where
  functional structural : TaskKind

pub record Task : Type 0 where
  pub phi : String
  pub weight : ℕ
  pub formal_task : Option String
  pub kind : TaskKind
  pub requires : List String
  pub shares_evidence_with : List String

abbrev pub is_structural : TaskKind → Bool
is_structural functional = false
is_structural structural = true

abbrev pub has_formal_task : Option String → Bool
has_formal_task none = false
has_formal_task (some t) = true

abbrev pub has_evidence_path : Task → Bool
has_evidence_path t = is_structural t.kind || has_formal_task t.formal_task

-- `self.tasks`
abbrev pub TaskBoard : Type 0
TaskBoard = List (String × Task)

unfoldable pub new_board : TaskBoard → List Task → TaskBoard
new_board board [] = board
new_board board (t ∷ ts) = new_board (set_item t.phi t board) ts

abbrev pub tasks_of : TaskBoard → List Task
tasks_of [] = []
tasks_of ((phi, t) ∷ board) = t ∷ tasks_of board

abbrev pub weights : TaskBoard → List (String × ℕ)
weights [] = []
weights ((phi, t) ∷ board) = (t.phi, t.weight) ∷ weights board

abbrev pub is_open : KnowledgeState → Task → Bool
is_open ks t = not (settled ks t.phi)

abbrev pub all_settled : KnowledgeState → List String → Bool
all_settled ks [] = true
all_settled ks (r ∷ rs) = settled ks r && all_settled ks rs

abbrev pub is_actionable : KnowledgeState → Task → Bool
is_actionable ks t = is_open ks t && (has_evidence_path t && all_settled ks t.requires)

abbrev is_blocked : KnowledgeState → Task → Bool
is_blocked ks t = is_open ks t && not (all_settled ks t.requires)

abbrev is_unverifiable : KnowledgeState → Task → Bool
is_unverifiable ks t = is_open ks t && not (has_evidence_path t)

abbrev pub select : (Task → Bool) → List Task → List Task
select test [] = []
select test (t ∷ ts) = if test t then t ∷ select test ts else select test ts

abbrev pub open_tasks : KnowledgeState → TaskBoard → List Task
open_tasks ks board = select (is_open ks) (tasks_of board)

abbrev pub actionable : KnowledgeState → TaskBoard → List Task
actionable ks board = select (is_actionable ks) (tasks_of board)

abbrev pub blocked : KnowledgeState → TaskBoard → List String
blocked ks board = map (λ t. t.phi) (select (is_blocked ks) (tasks_of board))

abbrev pub unverifiable : KnowledgeState → TaskBoard → List String
unverifiable ks board = map (λ t. t.phi) (select (is_unverifiable ks) (tasks_of board))

pub data Method : Type 0 where
  sim formal static probe : Method

abbrev pub action_cost : Method → ℕ
action_cost sim = 4
action_cost formal = 16
action_cost static = 2
action_cost probe = 1

pub record ResourceLedger : Type 0 where
  pub budget : ℕ
  pub spent : ℕ
  pub by_worker : List (String × ℕ)
  pub log : List (String × Method × ℕ)

abbrev pub can_afford : ResourceLedger → Method → Bool
can_afford l m = leb (l.spent + action_cost m) l.budget

abbrev pub or_zero : Option ℕ → ℕ
or_zero none = 0
or_zero (some n) = n

unfoldable pub charge : String → Method → ResourceLedger → ResourceLedger
charge worker m l = record l {
  spent = l.spent + action_cost m;
  by_worker = set_item worker (or_zero (get_item worker l.by_worker) + action_cost m) l.by_worker;
  log = l.log ++ (worker, m, action_cost m) ∷ [];
}

abbrev pub remaining : ResourceLedger → ℕ
remaining l = l.budget - l.spent
