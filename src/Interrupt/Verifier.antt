-- ===== src/Interrupt/Verifier.antt =====
-- `InterruptVerifier` of AGENT_H/interrupt_verifier.py: the events of a trace against the golden
-- controllers. The texts of the violations are left out.
use ai_chip_design_platform.Common.{
  ℕ, suc, ◌+◌, ℤ, pos, eq_ℤ, leb_ℤ, leb, Bool, true, false, not, eq_bool, Option, none, some, List,
  [], ◌∷◌, ◌++◌, if◌then◌else◌, contains, ◌||◌, length, ◌==◌,
}
use ai_chip_design_platform.Interrupt.Sources.{Context}
use ai_chip_design_platform.Interrupt.Plic as Plic
use ai_chip_design_platform.Interrupt.Clic as Clic
use ai_chip_design_platform.Interrupt.Plic.{PlicModel, new_plic}
use ai_chip_design_platform.Interrupt.Clic.{ClicModel, new_clic, level}

-- An event, by its `op` in lower case. `result` stands for `e.get("result", e.get("claimed"))`.
pub data Event : Type 0 where
  config :
      (priorities : List (Option ℤ × Option ℤ)) (enables : List (Context × List (Option ℤ)))
      (thresholds : List (Context × Option ℤ))
      → Event
  clic_config :
      (nlbits : Option ℤ) (ctl : List (Option ℤ × Option ℤ)) (enables : Option (List (Option ℤ)))
      (mintthresh : Option ℤ)
      → Event
  set_pending : (source : Option ℤ) → Event
  claim : (context : Context) (result : Option ℤ) → Event
  clic_claim : (result : Option ℤ) → Event
  complete : Event
  clint : (mtime mtimecmp : Option ℤ) (mtip msip expected_msip : Option Bool) → Event
  other : Event

pub data Check : Type 0 where
  plic_claim_wrong plic_priority0 plic_threshold : Check
  clic_arbitration clic_disabled clic_threshold : Check
  clint_mtip clint_msip : Check

pub record Metrics : Type 0 where
  pub claims : ℕ
  pub completes : ℕ
  pub pendings : ℕ
  pub clint_checks : ℕ
  pub clic_claims : ℕ
  pub plic_active : Bool
  pub clint_active : Bool
  pub clic_active : Bool

pub record InterruptVerifier : Type 0 where
  pub plic : PlicModel
  pub clic : ClicModel
  pub violations : List (ℕ × Check)
  pub metrics : Metrics

abbrev pub new_verifier : InterruptVerifier
new_verifier = record {
  plic = new_plic;
  clic = new_clic;
  violations = [];
  metrics = record {
    claims = 0;
    completes = 0;
    pendings = 0;
    clint_checks = 0;
    clic_claims = 0;
    plic_active = false;
    clint_active = false;
    clic_active = false;
  };
}

-- `_v` for a check, if the test says so.
abbrev pub flag_if : Bool → ℕ → Check → List (ℕ × Check)
flag_if b i check = if b then (i, check) ∷ [] else []

-- The violations of a claim of `dut`, where the model claims `golden`.
abbrev pub claim_issues : PlicModel → ℕ → Context → ℤ → List (ℕ × Check)
claim_issues plic i ctx dut =
    flag_if (not (eq_ℤ dut (Plic.best plic ctx))) i plic_claim_wrong
    ++ (if eq_ℤ dut (pos 0)
        then []
        else flag_if (eq_ℤ (plic.prio dut) (pos 0)) i plic_priority0
          ++ flag_if (leb_ℤ (plic.prio dut) (plic.thresh ctx)) i plic_threshold)

abbrev pub clic_claim_issues : ClicModel → ℕ → ℤ → List (ℕ × Check)
clic_claim_issues clic i dut =
    flag_if (not (eq_ℤ dut (Clic.best clic))) i clic_arbitration
    ++ (if eq_ℤ dut (pos 0)
        then []
        else flag_if (not (contains eq_ℤ dut clic.enable)) i clic_disabled
          ++ flag_if (leb (level clic (clic.ctl dut)) (level clic clic.thresh)) i clic_threshold)

-- `_check_claim`
unfoldable pub check_claim : ℕ → Context → Option ℤ → InterruptVerifier → InterruptVerifier
check_claim i ctx none v = record v {
  plic = Plic.clear_pending (Plic.best v.plic ctx) v.plic;
  metrics = record v.metrics { claims = suc v.metrics.claims; plic_active = true };
}
check_claim i ctx (some dut) v = record v {
  plic = Plic.clear_pending (if eq_ℤ dut (pos 0) then Plic.best v.plic ctx else dut) v.plic;
  violations = v.violations ++ claim_issues v.plic i ctx dut;
  metrics = record v.metrics { claims = suc v.metrics.claims; plic_active = true };
}

-- `_check_clic_claim`
unfoldable pub check_clic_claim : ℕ → Option ℤ → InterruptVerifier → InterruptVerifier
check_clic_claim i none v = record v {
  clic = Clic.clear_pending (Clic.best v.clic) v.clic;
  metrics = record v.metrics { clic_claims = suc v.metrics.clic_claims; clic_active = true };
}
check_clic_claim i (some dut) v = record v {
  clic = Clic.clear_pending (if eq_ℤ dut (pos 0) then Clic.best v.clic else dut) v.clic;
  violations = v.violations ++ clic_claim_issues v.clic i dut;
  metrics = record v.metrics { clic_claims = suc v.metrics.clic_claims; clic_active = true };
}

abbrev pub mtip_issues : ℕ → Option ℤ → Option ℤ → Option Bool → List (ℕ × Check)
mtip_issues i (some mt) (some cmp) (some mtip) =
    flag_if (not (eq_bool mtip (leb_ℤ cmp mt))) i clint_mtip
mtip_issues i _ _ _ = []

abbrev pub msip_issues : ℕ → Option Bool → Option Bool → List (ℕ × Check)
msip_issues i (some msip) (some expected) = flag_if (not (eq_bool msip expected)) i clint_msip
msip_issues i _ _ = []

-- `_check_clint`
unfoldable pub check_clint :
    ℕ
    → (mtime mtimecmp : Option ℤ) (mtip msip expected_msip : Option Bool) → InterruptVerifier
    → InterruptVerifier
check_clint i mtime mtimecmp mtip msip expected_msip v = record v {
  violations =
      v.violations ++ (mtip_issues i mtime mtimecmp mtip ++ msip_issues i msip expected_msip);
  metrics = record v.metrics { clint_checks = suc v.metrics.clint_checks; clint_active = true };
}

-- The body of the loop of `run`, on the event at index `i`.
unfoldable pub check_event : ℕ → Event → InterruptVerifier → InterruptVerifier
check_event i (config priorities enables thresholds) v = record v {
  plic = Plic.configure priorities enables thresholds v.plic;
}
check_event i (clic_config nlbits ctl enables mintthresh) v = record v {
  clic = Clic.configure nlbits ctl enables mintthresh v.clic;
  metrics = record v.metrics { clic_active = true };
}
check_event i (set_pending none) v = v
check_event i (set_pending (some s)) v = record v {
  plic = Plic.set_pending s v.plic;
  clic = Clic.set_pending s v.clic;
  metrics = record v.metrics { pendings = suc v.metrics.pendings };
}
check_event i (claim ctx result) v = check_claim i ctx result v
check_event i (clic_claim result) v = check_clic_claim i result v
check_event i complete v = record v {
  metrics = record v.metrics { completes = suc v.metrics.completes };
}
check_event i (clint mtime mtimecmp mtip msip expected_msip) v =
    check_clint i mtime mtimecmp mtip msip expected_msip v
check_event i other v = v

abbrev pub events_from : ℕ → List Event → InterruptVerifier → InterruptVerifier
events_from i [] v = v
events_from i (e ∷ es) v = events_from (suc i) es (check_event i e v)

unfoldable pub run : List Event → InterruptVerifier
run events = events_from 0 events new_verifier

-- `_report`, of which the rest is copied or counted from these.
unfoldable pub passes : InterruptVerifier → Bool
passes v = length v.violations == 0

abbrev pub severity_score : InterruptVerifier → ℕ
severity_score v = length v.violations + length v.violations + length v.violations

abbrev pub interrupt_active : InterruptVerifier → Bool
interrupt_active v = v.metrics.plic_active || (v.metrics.clint_active || v.metrics.clic_active)
