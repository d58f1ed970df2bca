-- ===== src/Voe/Bus/Risk.antt =====
-- The bus never raises the residual risk, and what is settled stays settled.
use ai_chip_design_platform.Common.{
  ℕ, ◌*◌, ◌≤◌, Bool, true, false, Option, none, some, List, [], ◌∷◌, String, str_eq, if◌then◌else◌,
  ◌||◌, ◌≡◌, refl, sym, subst, arith, if_ind,
}
use ai_chip_design_platform.Voe.Kernel.{Judgment, n_eff_of, is_proof, is_refutation, settled, risk}
use ai_chip_design_platform.Voe.Kernel.Dict.{get_item}
use ai_chip_design_platform.Voe.Bus.{JudgmentBus, publish, outranks}
use ai_chip_design_platform.Voe.Bus.Ranks.{merged, lookup-publish}

-- Whether a belief settles its obligation.
abbrev pub settles : Option Judgment → Bool
settles o = is_proof o || is_refutation o

settles-merged :
    (j : Judgment) (old : Option Judgment) → settles old ≡ true → settles (merged j old) ≡ true
unfolding outranks
settles-merged j none h = cc
settles-merged j (some old) h = ground arith

n_eff-merged :
    (j : Judgment) (old : Option Judgment)
    → settles (merged j old) ≡ false
    → n_eff_of old ≤ n_eff_of (merged j old)
unfolding outranks
n_eff-merged j none h = omega arith
n_eff-merged j (some old) h = ground arith

-- What is settled stays settled, whatever is published.
pub publish-settled :
    (w : String) (j : Judgment) (bus : JudgmentBus) (phi : String)
    → settled bus.ks phi ≡ true
    → settled (publish w j bus).0.ks phi ≡ true
publish-settled w j bus phi h =
    subst (λ o. settles o ≡ true) (sym (lookup-publish w j bus phi))
      (if_ind (λ o. settles o ≡ true) (str_eq j.phi phi)
        (λ _. settles-merged j (get_item phi bus.ks) h) (λ _. h))

module _ (cp : ℕ → ℕ) (falls : (m n : ℕ) → m ≤ n → cp n ≤ cp m) where
  -- What an obligation of some weight adds to the risk.
  abbrev share : ℕ → Option Judgment → ℕ
  share w o = if settles o then 0 else w * cp (n_eff_of o)

  share-merged :
      (j : Judgment) (old : Option Judgment) (w : ℕ) → share w (merged j old) ≤ share w old
  share-merged j old w =
      by_settled (settles (merged j old)) (settles old) (settles-merged j old)
        (λ h. falls _ _ (n_eff-merged j old h)) refl
    where
      by_settled :
          (after before : Bool)
          → (before ≡ true → settles (merged j old) ≡ true)
          → (settles (merged j old) ≡ false → cp (n_eff_of (merged j old)) ≤ cp (n_eff_of old))
          → settles (merged j old) ≡ after
          → (if after then 0 else w * cp (n_eff_of (merged j old)))
            ≤ (if before then 0 else w * cp (n_eff_of old))
      by_settled true before s f e = omega arith
      by_settled false true s f e = cc (s refl)
      by_settled false false s f e = grind (arith, f e)

  share-publish :
      (who : String) (j : Judgment) (bus : JudgmentBus) (phi : String) (w : ℕ)
      → share w (get_item phi (publish who j bus).0.ks) ≤ share w (get_item phi bus.ks)
  share-publish who j bus phi w =
      subst (λ o. share w o ≤ share w (get_item phi bus.ks)) (sym (lookup-publish who j bus phi))
        (if_ind (λ o. share w o ≤ share w (get_item phi bus.ks)) (str_eq j.phi phi)
          (λ _. share-merged j (get_item phi bus.ks) w) (λ _. omega arith))

  -- If the bound of an obligation falls with the samples, no judgment that is published raises the
  -- residual risk, whatever obligations it is summed over.
  pub publish-risk :
      (who : String) (j : Judgment) (bus : JudgmentBus) (props : List (String × ℕ))
      → risk cp (publish who j bus).0.ks props ≤ risk cp bus.ks props
  unfolding risk
  publish-risk who j bus [] = omega arith
  publish-risk who j bus ((phi, w) ∷ props) =
      omega (arith, share-publish who j bus phi w, publish-risk who j bus props)
