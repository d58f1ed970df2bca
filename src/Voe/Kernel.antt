-- ===== src/Voe/Kernel.antt =====
-- The kernel that the environment loads (docs/vsa_reference.py): judgments, the state of knowledge
-- and the residual risk.
pub mod Dict
use ai_chip_design_platform.Common.{
  ℕ, ◌+◌, ◌*◌, Bool, true, false, Option, none, some, List, [], ◌∷◌, String, ◌||◌, if◌then◌else◌,
  Outcome, ok, raise, value_error, leb,
}
use Dict.{get_item, set_item}

pub data Warrant : Type 0 where
  definitional deductive inductive : Warrant

-- `evidence` holds at most the two keys that the code reads.
pub record Judgment : Type 0 where
  pub phi : String
  pub warrant : Warrant
  pub n_eff : ℕ
  pub counterexample : Bool
  pub witness : String

-- `Judgment.__init__`: without a witness there is no judgment.
unfoldable pub new_judgment : String → Warrant → ℕ → Bool → Option String → Outcome Judgment
new_judgment phi warrant n_eff counterexample none = raise value_error
new_judgment phi warrant n_eff counterexample (some w) = ok (record {
  phi = phi;
  warrant = warrant;
  n_eff = n_eff;
  counterexample = counterexample;
  witness = w;
})

-- `self.K`
abbrev pub KnowledgeState : Type 0
KnowledgeState = List (String × Judgment)

unfoldable pub believe : Judgment → KnowledgeState → KnowledgeState
believe j ks = set_item j.phi j ks

abbrev pub is_deductive : Warrant → Bool
is_deductive deductive = true
is_deductive _ = false

abbrev pub n_eff_of : Option Judgment → ℕ
n_eff_of none = 0
n_eff_of (some j) = j.n_eff

abbrev pub is_proof : Option Judgment → Bool
is_proof none = false
is_proof (some j) = is_deductive j.warrant

abbrev pub is_refutation : Option Judgment → Bool
is_refutation none = false
is_refutation (some j) = j.counterexample

abbrev pub n_eff : KnowledgeState → String → ℕ
n_eff ks phi = n_eff_of (get_item phi ks)

abbrev pub proven : KnowledgeState → String → Bool
proven ks phi = is_proof (get_item phi ks)

abbrev pub disproven : KnowledgeState → String → Bool
disproven ks phi = is_refutation (get_item phi ks)

-- Proven or refuted.
abbrev pub settled : KnowledgeState → String → Bool
settled ks phi = proven ks phi || disproven ks phi

-- `_cp`, the bound of a failure rate after n passes. It is a decreasing function into the floats;
-- here it is a parameter, in any unit fine enough.
module _ (cp : ℕ → ℕ) where
  -- `R`, the residual risk of the weighted obligations.
  unfoldable pub risk : KnowledgeState → List (String × ℕ) → ℕ
  risk ks [] = 0
  risk ks ((phi, w) ∷ props) = (if settled ks phi then 0 else w * cp (n_eff ks phi)) + risk ks props

  -- `check_laws` for an update: the risk has not risen. The other laws speak of the representation.
  unfoldable pub laws_hold : KnowledgeState → List (String × ℕ) → (previous : ℕ) → Bool
  laws_hold ks props previous = leb (risk ks props) previous
