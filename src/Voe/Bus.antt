-- ===== src/Voe/Bus.antt =====
-- The judgment bus (voe/bus.py).
pub mod Ranks
pub mod Risk
use ai_chip_design_platform.Common.{
  ℕ, Bool, true, false, Option, none, some, List, [], ◌∷◌, ◌++◌, String, ◌&&◌, ◌||◌, not, ◌==◌,
  str_eq, ltb, leb, if◌then◌else◌,
}
use ai_chip_design_platform.Voe.Kernel.{
  Judgment, KnowledgeState, believe, is_deductive, proven, disproven, is_proof, is_refutation,
}
use ai_chip_design_platform.Voe.Kernel.Dict.{get_item, set_item}

-- `_rank`: whether it is a proof or a counterexample, and the samples.
abbrev pub is_strong : Judgment → Bool
is_strong j = is_deductive j.warrant || j.counterexample

abbrev pub strength : Judgment → ℕ
strength j = if is_strong j then 1 else 0

-- `_rank(j) >= _rank(old)`, on tuples.
unfoldable pub outranks : Judgment → Judgment → Bool
outranks j old =
    ltb (strength old) (strength j) || ((strength j == strength old) && leb old.n_eff j.n_eff)

pub record JudgmentBus : Type 0 where
  pub ks : KnowledgeState
  pub contributor : List (String × String)
  pub calibration_events : List (String × String)
  pub history : List (String × Judgment)

pub record MergeResult : Type 0 where
  pub accepted : Bool
  pub dominated_worker : Option String

-- `prev_worker and prev_worker != worker`
abbrev pub other_worker : String → Option String → Option String
other_worker worker none = none
other_worker worker (some w) = if str_eq w "" || str_eq w worker then none else some w

-- The worker whose earlier pass an incoming counterexample refutes.
abbrev pub dominated_by : String → Judgment → JudgmentBus → Option Judgment → Option String
dominated_by worker j bus none = none
dominated_by worker j bus (some old) =
    if j.counterexample && (not old.counterexample && not (is_deductive old.warrant))
    then other_worker worker (get_item j.phi bus.contributor)
    else none

abbrev pub accepts : Judgment → Option Judgment → Bool
accepts j none = true
accepts j (some old) = outranks j old

abbrev pub with_event : String → Option String → List (String × String) → List (String × String)
with_event phi none events = events
with_event phi (some w) events = events ++ (w, phi) ∷ []

-- `publish`
unfoldable pub publish : String → Judgment → JudgmentBus → JudgmentBus × MergeResult
publish worker j bus =
    let old = get_item j.phi bus.ks in
    let dominated = dominated_by worker j bus old in
    let accepted = accepts j old in
    (
      record {
        ks = if accepted then believe j bus.ks else bus.ks;
        contributor = if accepted then set_item j.phi worker bus.contributor else bus.contributor;
        calibration_events = with_event j.phi dominated bus.calibration_events;
        history = bus.history ++ (worker, j) ∷ [];
      },
      record { accepted = accepted; dominated_worker = dominated },
    )
