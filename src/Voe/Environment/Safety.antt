-- ===== src/Voe/Environment/Safety.antt =====
-- No obligation is worked on before those that it requires are settled.
use ai_chip_design_platform.Common.{
  ℕ, Bool, true, false, List, [], ◌∷◌, String, ◌&&◌, ◌≡◌, refl, arith, All, All-append,
}
use ai_chip_design_platform.Voe.Kernel.{Judgment, KnowledgeState, settled}
use ai_chip_design_platform.Voe.Bus.{publish}
use ai_chip_design_platform.Voe.Bus.Risk.{publish-settled}
use ai_chip_design_platform.Voe.Board.{
  TaskBoard, all_settled, has_evidence_path, is_open, action_cost,
}
use ai_chip_design_platform.Voe.Workers.{Status, World, Worker, Proposal}
use ai_chip_design_platform.Voe.Environment.{Voe, Action, pay, learn, new_voe, run}
use ai_chip_design_platform.Voe.Environment.Keeping.{IsFair, run_keeps}
use ai_chip_design_platform.Voe.Environment.Knowledge.{publish_shared-settled}

-- An action was justified: its task can be checked, and all that it requires is settled.
pub record IsJustified (ks : KnowledgeState) (a : Action) : Type 0 where
  pub checkable : has_evidence_path a.task ≡ true
  pub unlocked : all_settled ks a.task.requires ≡ true

-- All that is settled in one state of knowledge is settled in the other.
abbrev Grows : (before after : KnowledgeState) → Type 0
Grows before after = (phi : String) → settled before phi ≡ true → settled after phi ≡ true

all_settled-Grows :
    (ks ks' : KnowledgeState) (rs : List String)
    → Grows ks ks'
    → all_settled ks rs ≡ true
    → all_settled ks' rs ≡ true
all_settled-Grows ks ks' [] g h = refl
all_settled-Grows ks ks' (r ∷ rs) g h =
    both (settled ks r) (settled ks' r) (all_settled ks rs) (all_settled ks' rs) (g r)
      (all_settled-Grows ks ks' rs g) h
  where
    both :
        (a a' b b' : Bool)
        → (a ≡ true → a' ≡ true)
        → (b ≡ true → b' ≡ true)
        → (a && b) ≡ true
        → (a' && b') ≡ true
    both true true true true f g h = refl
    both true true true false f g h = g refl
    both true true false b' f g h = cc
    both true false b b' f g h = cc (f refl)
    both false a' b b' f g h = cc

IsJustified-Grows :
    (ks ks' : KnowledgeState) (as_ : List Action)
    → Grows ks ks'
    → All (IsJustified ks) as_
    → All (IsJustified ks') as_
IsJustified-Grows ks ks' [] g h = tt
IsJustified-Grows ks ks' (a ∷ as_) g h = (
  record {
    checkable = h.0.checkable;
    unlocked = all_settled-Grows ks ks' a.task.requires g h.0.unlocked;
  },
  IsJustified-Grows ks ks' as_ g h.1,
)

second : (a b c : Bool) → (a && (b && c)) ≡ true → b ≡ true
second a b c h = ground arith

third : (a b c : Bool) → (a && (b && c)) ≡ true → c ≡ true
third a b c h = ground arith

abbrev IsOrderly : Voe → Type 0
IsOrderly st = All (IsJustified st.bus.ks) st.action_log

pay-IsOrderly :
    (step : ℕ) (p : Proposal) (w : Worker) (s : Status) (st : Voe)
    → IsFair st.bus.ks st.ledger p
    → IsOrderly st
    → IsOrderly (pay step p w s st)
pay-IsOrderly step p w s st fair h =
    All-append (IsJustified st.bus.ks) st.action_log _ h
      (ready (is_open st.bus.ks p.task) fair.ready, tt)
  where
    ready :
        (open_ : Bool)
        → (open_ && (has_evidence_path p.task && all_settled st.bus.ks p.task.requires)) ≡ true
        → IsJustified st.bus.ks (record {
          step = step;
          worker = w.name;
          task = p.task;
          method = p.method;
          status = s;
          cost = action_cost p.method;
        })
    ready open_ e = record {
      checkable = second open_ (has_evidence_path p.task) (all_settled st.bus.ks p.task.requires) e;
      unlocked = third open_ (has_evidence_path p.task) (all_settled st.bus.ks p.task.requires) e;
    }

learn-IsOrderly :
    (cp : ℕ → ℕ) (world : World) (board : TaskBoard) (p : Proposal) (w : Worker) (s : Status)
    (j : Judgment) (st : Voe)
    → IsOrderly st
    → IsOrderly (learn cp world board p w s j st).0
unfolding learn
learn-IsOrderly cp world board p w s j st h =
    IsJustified-Grows st.bus.ks _ st.action_log
      (λ phi e.
        publish_shared-settled board w.name j p.task.shares_evidence_with
          (publish w.name j st.bus).0 phi (publish-settled w.name j st.bus phi e))
      h

-- Whatever the channels answer, each action of a run was on an obligation that has a checker, and
-- of which all the required obligations are settled by the end.
pub run-IsOrderly :
    (cp : ℕ → ℕ) (world : World) (board : TaskBoard) (max_steps budget : ℕ) (workers : List Worker)
    → let st = run cp world board max_steps budget workers in
      All (IsJustified st.bus.ks) st.action_log
unfolding new_voe
run-IsOrderly cp world board max_steps budget workers =
    run_keeps cp world board {P = IsOrderly}
      (record {
        on_workers = λ st ws h. h;
        on_pay = pay-IsOrderly;
        on_learn = learn-IsOrderly cp world board;
      })
      max_steps budget workers tt
