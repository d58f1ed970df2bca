-- ===== src/Voe/Workers.antt =====
-- Workers (voe/workers.py, voe/specialists.py): what they propose, and the judgment that they draw from evidence. The
-- evidence channels and the kernel's utility are parameters.
use ai_chip_design_platform.Common.{
  ℕ, ◌+◌, Bool, true, false, Option, none, some, List, [], ◌∷◌, String, ◌&&◌, ◌||◌, not,
  if◌then◌else◌, ltb, leb, contains, str_eq,
}
use ai_chip_design_platform.Voe.Kernel.{Judgment, KnowledgeState, deductive, inductive, n_eff}
use ai_chip_design_platform.Voe.Board.{
  Task, TaskKind, functional, structural, TaskBoard, is_actionable, is_structural, select, tasks_of,
  Method, sim, formal, static, probe, action_cost, ResourceLedger, can_afford,
}

pub data Status : Type 0 where
  pass proved counterexample bounded_pass : Status
  control_failed gate_failed inconclusive timeout unsupported error : Status

pub record Evidence : Type 0 where
  pub status : Status
  pub witness : String

-- What a worker relies on: the utility of an obligation, which obligations the testbench checks,
-- and the outcome of an action at a step.
pub record World : Type 0 where
  pub utility : KnowledgeState → String → ℕ
  pub covers : String → Bool
  pub outcome : ℕ → Method → String → Evidence

pub data Archetype : Type 0 where
  skeptic explorer : Archetype

-- What a `Specialist` (voe/specialists.py) has in addition: the property class that it owns, by its
-- pattern, and the part of its semantic memory that shapes a plan.
pub record Specialty : Type 0 where
  pub owns : String → Bool
  pub formal_first : Bool
  pub prefers_formal : Bool
  pub is_difficult : Bool

pub record Worker : Type 0 where
  pub specialty : Option Specialty
  pub name : String
  pub archetype : Archetype
  pub has_static : Bool
  pub skip : List String

pub record Proposal : Type 0 where
  pub worker : ℕ
  pub task : Task
  pub method : Method
  pub utility : ℕ
  pub cost : ℕ

-- `max(…, key=…)`: of the greatest the first.
abbrev pub best_of : {A : Type 0} → (A → A → Bool) → A → List A → A
best_of better best [] = best
best_of better best (x ∷ xs) = best_of better (if better best x then x else best) xs

-- `EXPLORE_BUDGET`
abbrev explore_budget : ℕ
explore_budget = 4

abbrev pub is_skeptic : Archetype → Bool
is_skeptic skeptic = true
is_skeptic explorer = false

abbrev pub formal_or_sim : ResourceLedger → Method
formal_or_sim l = if can_afford l formal then formal else sim

abbrev pub choose_by_archetype : World → KnowledgeState → ResourceLedger → Worker → String → Method
choose_by_archetype world ks l w phi =
    if is_skeptic w.archetype || not (world.covers phi)
    then formal_or_sim l
    else if ltb (n_eff ks phi) explore_budget && can_afford l sim
    then sim
    else formal_or_sim l

-- The method that a specialist's memory and archetype choose.
abbrev pub choose_by_memory :
    World → KnowledgeState → ResourceLedger → Worker → Specialty → String → Method
choose_by_memory world ks l w m phi =
    if m.formal_first || (is_skeptic w.archetype || not (world.covers phi))
    then formal_or_sim l
    else if m.prefers_formal && leb 1 (n_eff ks phi)
    then formal_or_sim l
    else if ltb (n_eff ks phi) (if m.is_difficult then 2 else 4) && can_afford l sim
    then sim
    else formal_or_sim l

abbrev pub choose_by :
    World → KnowledgeState → ResourceLedger → Worker → String → Option Specialty → Method
choose_by world ks l w phi none = choose_by_archetype world ks l w phi
choose_by world ks l w phi (some m) = choose_by_memory world ks l w m phi

abbrev pub choose_method : World → KnowledgeState → ResourceLedger → Worker → String → Method
choose_method world ks l w phi = choose_by world ks l w phi w.specialty

abbrev pub owned_by : Option Specialty → String → Bool
owned_by none phi = true
owned_by (some m) phi = m.owns phi

-- A proposal, if the ledger can pay for it.
abbrev pub bid : World → KnowledgeState → ResourceLedger → ℕ → Task → Method → Option Proposal
bid world ks l position t m =
    if can_afford l m
    then some (record {
      worker = position;
      task = t;
      method = m;
      utility = world.utility ks t.phi;
      cost = action_cost m;
    })
    else none

abbrev pub is_candidate : KnowledgeState → Worker → Task → Bool
is_candidate ks w t =
    is_actionable ks t && (owned_by w.specialty t.phi && not (contains str_eq t.phi w.skip))

abbrev pub bid_best :
    World → KnowledgeState → ResourceLedger → ℕ → Worker → List Task → Option Proposal
bid_best world ks l position w [] = none
bid_best world ks l position w (t ∷ ts) =
    let best = best_of (λ a b. ltb (world.utility ks a.phi) (world.utility ks b.phi)) t ts in
    bid world ks l position best (
      if is_structural best.kind && w.has_static
      then static
      else choose_method world ks l w best.phi)

-- `propose`
unfoldable pub propose :
    World → KnowledgeState → TaskBoard → ResourceLedger → ℕ → Worker → Option Proposal
propose world ks board l position w =
    bid_best world ks l position w (select (is_candidate ks w) (tasks_of board))

-- The judgments of `execute`, given the samples so far.
abbrev pub proof : String → ℕ → String → Option Judgment
proof phi n w =
    some (record { phi = phi; warrant = deductive; n_eff = n; counterexample = false; witness = w })

abbrev pub refutation : String → ℕ → String → Option Judgment
refutation phi n w =
    some (record { phi = phi; warrant = inductive; n_eff = n; counterexample = true; witness = w })

abbrev pub sample : String → ℕ → String → Option Judgment
sample phi n w =
    some (record {
      phi = phi;
      warrant = inductive;
      n_eff = n + 1;
      counterexample = false;
      witness = w;
    })

abbrev pub judge_static : TaskKind → String → ℕ → String → Status → Option Judgment
judge_static functional phi n w s = none
judge_static structural phi n w proved = proof phi n w
judge_static structural phi n w counterexample = refutation phi n w
judge_static structural phi n w _ = none

abbrev pub judge_sim : String → ℕ → String → Status → Option Judgment
judge_sim phi n w pass = sample phi n w
judge_sim phi n w counterexample = refutation phi n w
judge_sim phi n w _ = none

abbrev pub judge_formal : String → ℕ → String → Status → Option Judgment
judge_formal phi n w proved = proof phi n w
judge_formal phi n w counterexample = refutation phi n w
judge_formal phi n w bounded_pass = sample phi n w
judge_formal phi n w _ = none

-- The obligations that a worker does not attack again.
abbrev pub gives_up : Method → Status → Bool
gives_up sim control_failed = true
gives_up probe control_failed = true
gives_up formal bounded_pass = true
gives_up formal gate_failed = true
gives_up formal inconclusive = true
gives_up formal timeout = true
gives_up _ _ = false

abbrev pub judge : Method → TaskKind → String → ℕ → String → Status → Option Judgment
judge static kind phi n w s = judge_static kind phi n w s
judge sim kind phi n w s = judge_sim phi n w s
judge probe kind phi n w s = judge_sim phi n w s
judge formal kind phi n w s = judge_formal phi n w s

abbrev pub uses_testbench : Method → Bool
uses_testbench sim = true
uses_testbench probe = true
uses_testbench _ = false

-- A testbench pass is not credited to a property that it does not check.
abbrev pub evidence_of : World → ℕ → Task → Method → Evidence
evidence_of world step t m =
    if uses_testbench m && not (world.covers t.phi)
    then record { status = unsupported; witness = "" }
    else world.outcome step m t.phi

-- `execute`: the evidence, the judgment, and the worker afterwards.
unfoldable pub execute :
    World → ℕ → KnowledgeState → Task → Method → Worker → Evidence × Option Judgment × Worker
execute world step ks t m w =
    let ev = evidence_of world step t m in
    (
      ev,
      judge m t.kind t.phi (n_eff ks t.phi) ev.witness ev.status,
      if gives_up m ev.status then record w { skip = t.phi ∷ w.skip } else w,
    )

-- `unowned_properties`: the obligations that no specialist owns.
abbrev pub is_owner : Option Specialty → String → Bool
is_owner none phi = false
is_owner (some m) phi = m.owns phi

abbrev pub any_owner : List Worker → String → Bool
any_owner [] phi = false
any_owner (w ∷ ws) phi = is_owner w.specialty phi || any_owner ws phi

abbrev pub unowned_properties : TaskBoard → List Worker → List Task
unowned_properties board ws = select (λ t. not (any_owner ws t.phi)) (tasks_of board)
