-- ===== src/Voe/Environment/Samples.antt =====
-- A small board and its run.
use ai_chip_design_platform.Common.{
  ℕ, ◌-◌, ◌≤◌, true, false, none, some, List, [], ◌∷◌, ◌≡◌, refl, arith, All, map,
}
use ai_chip_design_platform.Voe.Kernel.{Judgment, deductive, inductive, believe, risk, laws_hold}
use ai_chip_design_platform.Voe.Kernel.Dict.{get_item, set_item}
use ai_chip_design_platform.Voe.Bus.{publish, outranks}
use ai_chip_design_platform.Voe.Bus.Ranks.{
  publish_all, empty_bus, Beats, IsPublished, here, there, publish_all_confluent, publish_last_wins,
}
use ai_chip_design_platform.Voe.Bus.Risk.{publish-risk}
use ai_chip_design_platform.Voe.Board.{
  Task, functional, TaskBoard, Method, new_board, formal, charge,
}
use ai_chip_design_platform.Voe.Workers.{
  World, Worker, skeptic, explorer, Evidence, proved, pass, Proposal, propose, execute,
}
use ai_chip_design_platform.Voe.Environment.{
  record_reputation, proposals_from, publish_shared, learn, act, round, rounds_from, new_voe, run,
}
use ai_chip_design_platform.Voe.Environment.Spending.{IsAccounted, run-IsAccounted}
use ai_chip_design_platform.Voe.Environment.Knowledge.{run_lawful}
use ai_chip_design_platform.Voe.Environment.Safety.{IsJustified, run-IsOrderly}

voe : Unit {0}
unfolding believe risk laws_hold set_item publish outranks publish_all new_board charge propose
    execute record_reputation proposals_from publish_shared learn act round rounds_from new_voe run
voe = tt

abbrev lemma_task : Task
lemma_task = record {
  phi = "fifo.lemma";
  weight = 1;
  formal_task = some "lemma";
  kind = functional;
  requires = [];
  shares_evidence_with = [];
}

abbrev main_task : Task
main_task = record {
  phi = "fifo.order";
  weight = 5;
  formal_task = some "order";
  kind = functional;
  requires = "fifo.lemma" ∷ [];
  shares_evidence_with = [];
}

abbrev board : TaskBoard
board = ("fifo.lemma", lemma_task) ∷ ("fifo.order", main_task) ∷ []

-- A bound that falls from 10 to 0 in ten samples.
abbrev bound : ℕ → ℕ
bound n = 10 - n

bound_falls : (m n : ℕ) → m ≤ n → bound n ≤ bound m
bound_falls m n h = omega arith

abbrev outcome : Method → Evidence
outcome formal = record { status = proved; witness = "certificate" }
outcome _ = record { status = pass; witness = "trace" }

abbrev world : World
world = record { utility = λ ks phi. 1; covers = λ phi. true; outcome = λ step m phi. outcome m }

abbrev workers : List Worker
workers =
    record {
      specialty = none;
      name = "skeptic";
      archetype = skeptic;
      has_static = false;
      skip = [];
    }
    ∷ record {
      specialty = none;
      name = "explorer";
      archetype = explorer;
      has_static = false;
      skip = [];
    }
    ∷ []

-- The explorer samples the lemma four times, until both want to prove it; then comes the other one.
lemma_first :
    let st = run bound world board 60 160 workers in
    (map (λ a. a.task.phi) st.action_log
      ≡ "fifo.lemma" ∷ "fifo.lemma" ∷ "fifo.lemma" ∷ "fifo.lemma" ∷ "fifo.lemma" ∷ "fifo.order"
        ∷ "fifo.order" ∷ "fifo.order" ∷ "fifo.order" ∷ "fifo.order" ∷ [])
    × (st.ledger.spent ≡ 64)
unfolding voe
lemma_first = (refl, refl)

abbrev proof_of : Judgment
proof_of = record {
  phi = "alu";
  warrant = deductive;
  n_eff = 2;
  counterexample = false;
  witness = "pf";
}

abbrev refutation_of : Judgment
refutation_of = record {
  phi = "alu";
  warrant = inductive;
  n_eff = 2;
  counterexample = true;
  witness = "vcd";
}

publish_last_wins_example :
    (get_item "alu"
        (publish_all (("formal", proof_of) ∷ ("formal", refutation_of) ∷ []) empty_bus).ks
      ≡ some refutation_of)
    × (get_item "alu"
          (publish_all (("formal", refutation_of) ∷ ("formal", proof_of) ∷ []) empty_bus).ks
        ≡ some proof_of)
publish_last_wins_example = publish_last_wins "formal" proof_of refutation_of refl refl refl refl

swapped :
    (j : Judgment)
    → IsPublished j (("formal", proof_of) ∷ ("sim", refutation_of) ∷ [])
    → IsPublished j (("sim", refutation_of) ∷ ("formal", proof_of) ∷ [])
swapped j here = there here
swapped j (there here) = here
swapped j (there (there h)) = elim h [ ]

refutation_believed :
    get_item "alu" (publish_all (("formal", proof_of) ∷ ("sim", refutation_of) ∷ []) empty_bus).ks
    ≡ some refutation_of
unfolding voe
refutation_believed = refl

publish_all_confluent_example :
    Beats
      (get_item "alu"
        (publish_all (("sim", refutation_of) ∷ ("formal", proof_of) ∷ []) empty_bus).ks)
      refutation_of
publish_all_confluent_example =
    publish_all_confluent (("formal", proof_of) ∷ ("sim", refutation_of) ∷ [])
      (("sim", refutation_of) ∷ ("formal", proof_of) ∷ []) swapped "alu" refutation_believed

publish-risk_example :
    risk bound (publish "formal" proof_of empty_bus).0.ks (("alu", 3) ∷ [])
    ≤ risk bound empty_bus.ks (("alu", 3) ∷ [])
publish-risk_example = publish-risk bound bound_falls "formal" proof_of empty_bus (("alu", 3) ∷ [])

run-IsAccounted_example : IsAccounted 160 (run bound world board 60 160 workers)
run-IsAccounted_example = run-IsAccounted bound world board 60 160 workers

abbrev proposal : Proposal
proposal = record { worker = 0; task = main_task; method = formal; utility = 1; cost = 16 }

abbrev first_worker : Worker
first_worker = record {
  specialty = none;
  name = "skeptic";
  archetype = skeptic;
  has_static = false;
  skip = [];
}

run_lawful_example :
    (learn bound world board proposal first_worker proved proof_of
      (run bound world board 60 160 workers)).1
    ≡ true
run_lawful_example =
    run_lawful bound bound_falls world board 60 160 workers proposal first_worker proved proof_of

run-IsOrderly_example :
    All
      (IsJustified (run bound world board 60 160 workers).bus.ks)
      (run bound world board 60 160 workers).action_log
run-IsOrderly_example = run-IsOrderly bound world board 60 160 workers
