-- ===== src/Voe/Environment/Knowledge.antt =====
-- The risk falls, and the laws hold, as the environment runs.
use ai_chip_design_platform.Common.{
  ℕ, ◌≤◌, true, List, [], ◌∷◌, String, ◌&&◌, not, if◌then◌else◌, ◌≡◌, refl, arith, leb, if_ind,
}
use ai_chip_design_platform.Voe.Kernel.{Judgment, settled, risk, laws_hold}
use ai_chip_design_platform.Voe.Bus.{JudgmentBus, publish}
use ai_chip_design_platform.Voe.Bus.Risk.{publish-risk, publish-settled}
use ai_chip_design_platform.Voe.Board.{TaskBoard, weights}
use ai_chip_design_platform.Voe.Workers.{Status, World, Worker, Proposal}
use ai_chip_design_platform.Voe.Environment.{Voe, has_task, publish_shared, learn, new_voe, run}
use ai_chip_design_platform.Voe.Environment.Keeping.{run_keeps}

pub publish_shared-settled :
    (board : TaskBoard) (who : String) (j : Judgment) (others : List String) (bus : JudgmentBus)
    (phi : String)
    → settled bus.ks phi ≡ true
    → settled (publish_shared board who j others bus).ks phi ≡ true
unfolding publish_shared
publish_shared-settled board who j [] bus phi h = h
publish_shared-settled board who j (other ∷ others) bus phi h =
    publish_shared-settled board who j others _ phi (
      if_ind (λ b. settled (JudgmentBus.ks b) phi ≡ true)
        (has_task board other && not (settled bus.ks other))
        (λ _. publish-settled who (record j { phi = other }) bus phi h) (λ _. h))

module _ (cp : ℕ → ℕ) (falls : (m n : ℕ) → m ≤ n → cp n ≤ cp m) where
  publish_shared-risk :
      (board : TaskBoard) (who : String) (j : Judgment) (others : List String) (bus : JudgmentBus)
      (props : List (String × ℕ))
      → risk cp (publish_shared board who j others bus).ks props ≤ risk cp bus.ks props
  unfolding publish_shared
  publish_shared-risk board who j [] bus props = omega arith
  publish_shared-risk board who j (other ∷ others) bus props = omega (
    arith,
    publish_shared-risk board who j others
        (if has_task board other && not (settled bus.ks other)
          then (publish who (record j { phi = other }) bus).0
          else bus)
        props,
    one,
  )
    where
      one :
          risk cp
            (if has_task board other && not (settled bus.ks other)
              then (publish who (record j { phi = other }) bus).0
              else bus).ks
            props
          ≤ risk cp bus.ks props
      one =
          if_ind (λ b. risk cp (JudgmentBus.ks b) props ≤ risk cp bus.ks props)
            (has_task board other && not (settled bus.ks other))
            (λ _. publish-risk cp falls who (record j { phi = other }) bus props) (λ _. omega arith)

  module _ (world : World) (board : TaskBoard) where
    learn-risk :
        (p : Proposal) (w : Worker) (s : Status) (j : Judgment) (st : Voe)
        → risk cp (learn cp world board p w s j st).0.bus.ks (weights board)
          ≤ risk cp st.bus.ks (weights board)
    unfolding learn
    learn-risk p w s j st = omega (
      arith,
      publish_shared-risk board w.name j p.task.shares_evidence_with (publish w.name j st.bus).0
          (weights board),
      publish-risk cp falls w.name j st.bus (weights board),
    )

    -- The risk that the loop remembers is that of its knowledge, and not more than it was at first.
    pub record IsTracked (st : Voe) : Type 0 where
      pub remembered : st.previous ≡ risk cp st.bus.ks (weights board)
      pub fallen : risk cp st.bus.ks (weights board) ≤ risk cp [] (weights board)

    learn-IsTracked :
        (p : Proposal) (w : Worker) (s : Status) (j : Judgment) (st : Voe)
        → IsTracked st
        → IsTracked (learn cp world board p w s j st).0
    unfolding learn
    learn-IsTracked p w s j st h = record {
      remembered = refl;
      fallen = omega (arith, learn-risk p w s j st, h.fallen);
    }

    -- If the bound of an obligation falls with the samples, the residual risk at the end of a run is
    -- at most the initial one, and it is the risk that the loop remembers.
    pub run-IsTracked :
        (max_steps budget : ℕ) (workers : List Worker)
        → IsTracked (run cp world board max_steps budget workers)
    unfolding new_voe
    run-IsTracked max_steps budget workers =
        run_keeps cp world board {P = IsTracked}
          (record {
            on_workers = λ st ws h. record { remembered = h.remembered; fallen = h.fallen };
            on_pay =
                λ step p w s st fair h. record { remembered = h.remembered; fallen = h.fallen };
            on_learn = learn-IsTracked;
          })
          max_steps budget workers (record { remembered = refl; fallen = omega arith })

    -- So the runtime check of the laws never stops a run: in any state that a run reaches, a further
    -- judgment of any worker passes it.
    pub run_lawful :
        (max_steps budget : ℕ) (workers : List Worker) (p : Proposal) (w : Worker) (s : Status)
        (j : Judgment)
        → (learn cp world board p w s j (run cp world board max_steps budget workers)).1 ≡ true
    unfolding learn laws_hold
    run_lawful max_steps budget workers p w s j = le_true _ _ (
        omega (
          arith,
          learn-risk p w s j (run cp world board max_steps budget workers),
          (run-IsTracked max_steps budget workers).remembered,
        ))
      where
        le_true : (a b : ℕ) → a ≤ b → leb a b ≡ true
        le_true a b h = ground arith
