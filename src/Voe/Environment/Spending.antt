-- ===== src/Voe/Environment/Spending.antt =====
-- What the workers spend.
use ai_chip_design_platform.Common.{
  ℕ, ◌+◌, ◌≤◌, true, List, [], ◌∷◌, ◌++◌, String, ◌≡◌, refl, arith, leb,
}
use ai_chip_design_platform.Voe.Kernel.Dict.{get_item, set_item}
use ai_chip_design_platform.Voe.Board.{TaskBoard, action_cost, charge, or_zero}
use ai_chip_design_platform.Voe.Workers.{Status, World, Worker, Proposal}
use ai_chip_design_platform.Voe.Environment.{Voe, Action, pay, learn, new_voe, run}
use ai_chip_design_platform.Voe.Environment.Keeping.{IsFair, run_keeps}

abbrev pub total_cost : List Action → ℕ
total_cost [] = 0
total_cost (a ∷ as_) = a.cost + total_cost as_

abbrev pub total_of : List (String × ℕ) → ℕ
total_of [] = 0
total_of ((k, n) ∷ d) = n + total_of d

total_cost-append :
    (as_ : List Action) (a : Action) → total_cost (as_ ++ a ∷ []) ≡ total_cost as_ + a.cost
total_cost-append [] a = omega arith
total_cost-append (b ∷ as_) a = omega (arith, total_cost-append as_ a)

total_of-add :
    (k : String) (c : ℕ) (d : List (String × ℕ))
    → total_of (set_item k (or_zero (get_item k d) + c) d) ≡ total_of d + c
unfolding set_item
total_of-add k c [] = omega arith
total_of-add k c ((j, n) ∷ d) = ground (arith, total_of-add k c d)

-- The ledger keeps to its budget, and what is spent is what the actions cost, and what the workers
-- were charged.
pub record IsAccounted (budget : ℕ) (st : Voe) : Type 0 where
  pub limit : st.ledger.budget ≡ budget
  pub within : st.ledger.spent ≤ budget
  pub logged : total_cost st.action_log ≡ st.ledger.spent
  pub charged : total_of st.ledger.by_worker ≡ st.ledger.spent

pay-IsAccounted :
    (budget step : ℕ) (p : Proposal) (w : Worker) (s : Status) (st : Voe)
    → IsFair st.bus.ks st.ledger p
    → IsAccounted budget st
    → IsAccounted budget (pay step p w s st)
unfolding charge
pay-IsAccounted budget step p w s st fair h = record {
  limit = h.limit;
  within = spent (action_cost p.method) st.ledger.spent st.ledger.budget h.limit fair.affordable;
  logged = omega (arith, total_cost-append st.action_log _, h.logged);
  charged =
      omega (arith, total_of-add w.name (action_cost p.method) st.ledger.by_worker, h.charged);
}
  where
    spent : (c s b : ℕ) → b ≡ budget → leb (s + c) b ≡ true → s + c ≤ budget
    spent c s b e h = ground arith

-- Whatever the channels answer and whatever the workers are, the environment spends at most its
-- budget, and what it has spent is the cost of the actions in its log, and the sum of what its
-- workers were charged.
pub run-IsAccounted :
    (cp : ℕ → ℕ) (world : World) (board : TaskBoard) (max_steps budget : ℕ) (workers : List Worker)
    → IsAccounted budget (run cp world board max_steps budget workers)
unfolding learn new_voe
run-IsAccounted cp world board max_steps budget workers =
    run_keeps cp world board {P = IsAccounted budget}
      (record {
        on_workers = λ st ws h. record {
          limit = h.limit;
          within = h.within;
          logged = h.logged;
          charged = h.charged;
        };
        on_pay = pay-IsAccounted budget;
        on_learn = λ p w s j st h. record {
          limit = h.limit;
          within = h.within;
          logged = h.logged;
          charged = h.charged;
        };
      })
      max_steps budget workers
      (record { limit = refl; within = omega arith; logged = refl; charged = refl })
