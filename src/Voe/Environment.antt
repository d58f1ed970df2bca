-- ===== src/Voe/Environment.antt =====
-- The orchestrator (voe/voe.py): each round the affordable proposal with the best utility per cost
-- is carried out, paid for, and its judgment published.
pub mod Keeping
pub mod Spending
pub mod Knowledge
pub mod Safety
mod Samples
use ai_chip_design_platform.Common.{
  ℕ, zero, suc, ◌+◌, ◌-◌, ◌*◌, Bool, true, false, Option, none, some, List, [], ◌∷◌, ◌++◌, String,
  ◌&&◌, ◌||◌, not, if◌then◌else◌, ltb, str_eq,
}
use ai_chip_design_platform.Voe.Kernel.{Judgment, KnowledgeState, settled, risk, laws_hold}
use ai_chip_design_platform.Voe.Kernel.Dict.{get_item, set_item}
use ai_chip_design_platform.Voe.Bus.{JudgmentBus, MergeResult, publish}
use ai_chip_design_platform.Voe.Bus.Ranks.{empty_bus}
use ai_chip_design_platform.Voe.Board.{
  Task, TaskBoard, weights, Method, sim, action_cost, ResourceLedger, can_afford, charge, or_zero,
}
use ai_chip_design_platform.Voe.Workers.{
  Status, proved, counterexample, pass, error, Evidence, World, Worker, Archetype, Proposal,
  best_of, propose, execute,
}

-- `ReputationService`, in the unit of the risk.
pub record Reputation : Type 0 where
  pub value : List (String × ℕ)
  pub proofs : List (String × ℕ)
  pub bugs : List (String × ℕ)
  pub ind_claims : List (String × ℕ)

abbrev pub add_to : String → ℕ → List (String × ℕ) → List (String × ℕ)
add_to w n d = set_item w (or_zero (get_item w d) + n) d

abbrev pub is_proved : Status → Bool
is_proved proved = true
is_proved _ = false

abbrev pub is_counterexample : Status → Bool
is_counterexample counterexample = true
is_counterexample _ = false

abbrev pub is_pass : Status → Bool
is_pass pass = true
is_pass _ = false

abbrev pub is_sim : Method → Bool
is_sim sim = true
is_sim _ = false

abbrev pub is_error : Status → Bool
is_error error = true
is_error _ = false

-- `ReputationService.record`
unfoldable pub record_reputation :
    String → Method → MergeResult → ℕ → Status → Reputation → Reputation
record_reputation w m merge gain s r = record {
  value = add_to w gain r.value;
  proofs = if merge.accepted && is_proved s then add_to w 1 r.proofs else r.proofs;
  bugs = if merge.accepted && is_counterexample s then add_to w 1 r.bugs else r.bugs;
  ind_claims = if is_sim m && is_pass s then add_to w 1 r.ind_claims else r.ind_claims;
}

pub record Action : Type 0 where
  pub step : ℕ
  pub worker : String
  pub task : Task
  pub method : Method
  pub status : Status
  pub cost : ℕ

-- `self`, with `prev` of the loop.
pub record Voe : Type 0 where
  pub bus : JudgmentBus
  pub ledger : ResourceLedger
  pub workers : List Worker
  pub reputation : Reputation
  pub action_log : List Action
  pub previous : ℕ

-- The proposals of the workers that the ledger can pay for; `position` is a worker's index.
abbrev pub keep_affordable : ResourceLedger → Option Proposal → List Proposal → List Proposal
keep_affordable l none ps = ps
keep_affordable l (some p) ps = if can_afford l p.method then p ∷ ps else ps

unfoldable pub proposals_from :
    World → TaskBoard → KnowledgeState → ResourceLedger → ℕ → List Worker → List Proposal
proposals_from world board ks l position [] = []
proposals_from world board ks l position (w ∷ ws) =
    keep_affordable l (propose world ks board l position w)
      (proposals_from world board ks l (suc position) ws)

-- `_density`, compared without division; of equal ones the first worker's is kept.
abbrev pub is_denser : Proposal → Proposal → Bool
is_denser p q = ltb (p.utility * q.cost) (q.utility * p.cost)

abbrev pub no_worker : Worker
no_worker = record {
  specialty = none;
  name = "";
  archetype = Archetype.explorer;
  has_static = false;
  skip = [];
}

abbrev pub worker_at : ℕ → List Worker → Worker
worker_at k [] = no_worker
worker_at zero (w ∷ ws) = w
worker_at (suc k) (w ∷ ws) = worker_at k ws

abbrev pub set_worker : ℕ → Worker → List Worker → List Worker
set_worker k v [] = []
set_worker zero v (w ∷ ws) = v ∷ ws
set_worker (suc k) v (w ∷ ws) = w ∷ set_worker k v ws

abbrev pub has_task : TaskBoard → String → Bool
has_task [] phi = false
has_task ((k, t) ∷ board) phi = str_eq k phi || has_task board phi

-- One run of shared infrastructure evidences several obligations, with the same witness.
unfoldable pub publish_shared :
    TaskBoard → String → Judgment → List String → JudgmentBus → JudgmentBus
publish_shared board worker j [] bus = bus
publish_shared board worker j (other ∷ others) bus = publish_shared board worker j others (
    if has_task board other && not (settled bus.ks other)
    then (publish worker (record j { phi = other }) bus).0
    else bus)

abbrev pub pay : ℕ → Proposal → Worker → Status → Voe → Voe
pay step p w s st = record st {
  ledger = charge w.name p.method st.ledger;
  workers = set_worker p.worker w st.workers;
  action_log =
      st.action_log
      ++ record {
        step = step;
        worker = w.name;
        task = p.task;
        method = p.method;
        status = s;
        cost = action_cost p.method;
      }
        ∷ [];
}

module _ (cp : ℕ → ℕ) (world : World) (board : TaskBoard) where
  -- The bookkeeping after a judgment was drawn, and whether the loop goes on.
  unfoldable pub learn : Proposal → Worker → Status → Judgment → Voe → Voe × Bool
  learn p w s j st =
      let before = risk cp st.bus.ks (weights board) in
      let (bus, merge) = publish w.name j st.bus in
      let bus' = publish_shared board w.name j p.task.shares_evidence_with bus in
      let after = risk cp bus'.ks (weights board) in
      (
        record st {
          bus = bus';
          reputation = record_reputation w.name p.method merge (before - after) s st.reputation;
          previous = after;
        },
        laws_hold cp bus'.ks (weights board) st.previous,
      )

  abbrev pub conclude : Proposal → Worker → Status → Option Judgment → Voe → Voe × Bool
  conclude p w s none st = (st, true)
  conclude p w s (some j) st = learn p w s j st

  -- One granted action, and whether the loop goes on.
  unfoldable pub act : ℕ → Voe → Proposal → Voe × Bool
  act step st p =
      let (ev, judged, w) =
        execute world step st.bus.ks p.task p.method (worker_at p.worker st.workers) in
      if is_error ev.status
      then (record st { workers = set_worker p.worker w st.workers }, false)
      else conclude p w ev.status judged (pay step p w ev.status st)

  abbrev pub act_best : ℕ → Voe → List Proposal → Voe × Bool
  act_best step st [] = (st, false)
  act_best step st (p ∷ ps) = act step st (best_of is_denser p ps)

  unfoldable pub round : ℕ → Voe → Voe × Bool
  unfolding act
  round step st = act_best step st (proposals_from world board st.bus.ks st.ledger 0 st.workers)

  -- The loop of `run`, of at most `left` rounds.
  unfoldable pub rounds_from : (left step : ℕ) → Voe → Voe
  unfolding round
  rounds_from zero step st = st
  rounds_from (suc left) step st =
      let (st', more) = round step st in
      let rest = rounds_from left (suc step) st' in if more then rest else st'

  unfoldable pub new_voe : (budget : ℕ) → List Worker → Voe
  new_voe budget workers = record {
    bus = empty_bus;
    ledger = record { budget = budget; spent = 0; by_worker = []; log = [] };
    workers = workers;
    reputation = record { value = []; proofs = []; bugs = []; ind_claims = [] };
    action_log = [];
    previous = risk cp [] (weights board);
  }

  unfoldable pub run : (max_steps budget : ℕ) → List Worker → Voe
  unfolding rounds_from new_voe
  run max_steps budget workers = rounds_from max_steps 1 (new_voe budget workers)
