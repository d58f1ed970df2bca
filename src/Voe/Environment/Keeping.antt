-- ===== src/Voe/Environment/Keeping.antt =====
-- A proof rule for the orchestrator's loop: what its three kinds of change keep, the loop keeps.
use ai_chip_design_platform.Common.{
  ℕ, zero, suc, Bool, true, Option, none, some, List, [], ◌∷◌, ◌&&◌, not, if◌then◌else◌, ltb,
  contains, str_eq, ◌≡◌, arith, All, if_ind,
}
use ai_chip_design_platform.Voe.Kernel.{Judgment, KnowledgeState}
use ai_chip_design_platform.Voe.Board.{
  Task, TaskBoard, is_actionable, is_structural, select, tasks_of, Method, static, ResourceLedger,
  can_afford,
}
use ai_chip_design_platform.Voe.Workers.{
  Status, World, Worker, Proposal, best_of, owned_by, is_candidate, bid, bid_best, choose_method,
  propose, execute,
}
use ai_chip_design_platform.Voe.Environment.{
  Voe, keep_affordable, proposals_from, is_denser, pay, learn, conclude, act, act_best, round,
  rounds_from, new_voe, run, worker_at, set_worker, is_error,
}

All-select : (test : Task → Bool) (ts : List Task) → All (λ t. test t ≡ true) (select test ts)
All-select test [] = tt
All-select test (t ∷ ts) =
    if_ind (All (λ t. test t ≡ true)) (test t) (λ e. (e, All-select test ts))
      (λ _. All-select test ts)

best_of-All :
    {A : Type 0} (P : A → Type 0) (better : A → A → Bool) (best : A) (xs : List A)
    → P best
    → All P xs
    → P (best_of better best xs)
best_of-All P better best [] p ps = p
best_of-All P better best (x ∷ xs) p ps =
    best_of-All P better (if better best x then x else best) xs
      (if_ind P (better best x) (λ _. ps.0) (λ _. p)) ps.1

-- A proposal that the ledger can pay for, of a task that can be worked on.
pub record IsFair (ks : KnowledgeState) (l : ResourceLedger) (p : Proposal) : Type 0 where
  pub affordable : can_afford l p.method ≡ true
  pub ready : is_actionable ks p.task ≡ true

abbrev IsReady : KnowledgeState → Option Proposal → Type 0
IsReady ks none = Unit
IsReady ks (some p) = is_actionable ks p.task ≡ true

is_actionable-candidate :
    (ks : KnowledgeState) (w : Worker) (t : Task)
    → is_candidate ks w t ≡ true
    → is_actionable ks t ≡ true
is_actionable-candidate ks w t h =
    first_of (is_actionable ks t) (owned_by w.specialty t.phi && not (contains str_eq t.phi w.skip))
      h
  where
    first_of : (a b : Bool) → (a && b) ≡ true → a ≡ true
    first_of a b h = ground arith

bid-IsReady :
    (world : World) (ks : KnowledgeState) (l : ResourceLedger) (position : ℕ) (t : Task)
    (m : Method)
    → is_actionable ks t ≡ true
    → IsReady ks (bid world ks l position t m)
bid-IsReady world ks l position t m h = if_ind (IsReady ks) (can_afford l m) (λ _. h) (λ _. tt)

bid_best-IsReady :
    (world : World) (ks : KnowledgeState) (l : ResourceLedger) (position : ℕ) (w : Worker)
    (ts : List Task)
    → All (λ t. is_candidate ks w t ≡ true) ts
    → IsReady ks (bid_best world ks l position w ts)
bid_best-IsReady world ks l position w [] h = tt
bid_best-IsReady world ks l position w (t ∷ ts) h =
    let better = λ (a b : Task). ltb (world.utility ks a.phi) (world.utility ks b.phi) in
    bid-IsReady world ks l position (best_of better t ts)
      (if is_structural (best_of better t ts).kind && w.has_static
        then static
        else choose_method world ks l w (best_of better t ts).phi)
      (is_actionable-candidate ks w (best_of better t ts)
        (best_of-All (λ t. is_candidate ks w t ≡ true) better t ts h.0 h.1))

keep_affordable-IsFair :
    (ks : KnowledgeState) (l : ResourceLedger) (o : Option Proposal) (ps : List Proposal)
    → IsReady ks o
    → All (IsFair ks l) ps
    → All (IsFair ks l) (keep_affordable l o ps)
keep_affordable-IsFair ks l none ps h hs = hs
keep_affordable-IsFair ks l (some p) ps h hs =
    if_ind (All (IsFair ks l)) (can_afford l p.method)
      (λ e. (record { affordable = e; ready = h }, hs)) (λ _. hs)

proposals_from-IsFair :
    (world : World) (board : TaskBoard) (ks : KnowledgeState) (l : ResourceLedger) (position : ℕ)
    (ws : List Worker)
    → All (IsFair ks l) (proposals_from world board ks l position ws)
unfolding proposals_from propose
proposals_from-IsFair world board ks l position [] = tt
proposals_from-IsFair world board ks l position (w ∷ ws) =
    keep_affordable-IsFair ks l (propose world ks board l position w) _
      (bid_best-IsReady world ks l position w (select (is_candidate ks w) (tasks_of board))
        (All-select (is_candidate ks w) (tasks_of board)))
      (proposals_from-IsFair world board ks l (suc position) ws)

module _ (cp : ℕ → ℕ) (world : World) (board : TaskBoard) where
  -- What has to be shown of a property of the orchestrator's state.
  pub record Keeps (P : Voe → Type 0) : Type 0 where
    pub on_workers : (st : Voe) (ws : List Worker) → P st → P (record st { workers = ws })
    pub on_pay :
        (step : ℕ) (p : Proposal) (w : Worker) (s : Status) (st : Voe)
        → IsFair st.bus.ks st.ledger p
        → P st
        → P (pay step p w s st)
    pub on_learn :
        (p : Proposal) (w : Worker) (s : Status) (j : Judgment) (st : Voe)
        → P st
        → P (learn cp world board p w s j st).0

  module _ {P : Voe → Type 0} (keeps : Keeps P) where
    conclude_keeps :
        (p : Proposal) (w : Worker) (s : Status) (o : Option Judgment) (st : Voe)
        → P st
        → P (conclude cp world board p w s o st).0
    conclude_keeps p w s none st h = h
    conclude_keeps p w s (some j) st h = keeps.on_learn p w s j st h

    act_keeps :
        (step : ℕ) (st : Voe) (p : Proposal)
        → IsFair st.bus.ks st.ledger p
        → P st
        → P (act cp world board step st p).0
    unfolding act
    act_keeps step st p fair h =
        let r = execute world step st.bus.ks p.task p.method (worker_at p.worker st.workers) in
        if_ind (λ (x : Voe × Bool). P x.0) (is_error r.0.status)
          (λ _. keeps.on_workers st (set_worker p.worker r.2 st.workers) h)
          (λ _.
            conclude_keeps p r.2 r.0.status r.1 (pay step p r.2 r.0.status st)
              (keeps.on_pay step p r.2 r.0.status st fair h))

    act_best_keeps :
        (step : ℕ) (st : Voe) (ps : List Proposal)
        → All (IsFair st.bus.ks st.ledger) ps
        → P st
        → P (act_best cp world board step st ps).0
    act_best_keeps step st [] fair h = h
    act_best_keeps step st (p ∷ ps) fair h =
        act_keeps step st (best_of is_denser p ps)
          (best_of-All (IsFair st.bus.ks st.ledger) is_denser p ps fair.0 fair.1) h

    round_keeps : (step : ℕ) (st : Voe) → P st → P (round cp world board step st).0
    unfolding round
    round_keeps step st h =
        act_best_keeps step st (proposals_from world board st.bus.ks st.ledger 0 st.workers)
          (proposals_from-IsFair world board st.bus.ks st.ledger 0 st.workers) h

    rounds_from_keeps :
        (left step : ℕ) (st : Voe) → P st → P (rounds_from cp world board left step st)
    unfolding rounds_from
    rounds_from_keeps zero step st h = h
    rounds_from_keeps (suc left) step st h =
        if_ind P (round cp world board step st).1
          (λ _.
            rounds_from_keeps left (suc step) (round cp world board step st).0
              (round_keeps step st h))
          (λ _. round_keeps step st h)

    pub run_keeps :
        (max_steps budget : ℕ) (workers : List Worker)
        → P (new_voe cp world board budget workers)
        → P (run cp world board max_steps budget workers)
    unfolding run
    run_keeps max_steps budget workers h =
        rounds_from_keeps max_steps 1 (new_voe cp world board budget workers) h
