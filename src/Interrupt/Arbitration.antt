-- ===== src/Interrupt/Arbitration.antt =====
-- `max(cands, key=...)` over the sources that pass a test, or 0 without any, in both models of
-- AGENT_H/interrupt_verifier.py.
use ai_chip_design_platform.Common.{
  ℤ, pos, eq_ℤ, eq_ℤ_iff, Bool, true, false, ◌||◌, ◌&&◌, List, [], ◌∷◌, if◌then◌else◌, contains,
  ◌≡◌, refl, sym, ap, subst, ◌∙◌, arith, if_ind,
}

abbrev pub filter : (ℤ → Bool) → List ℤ → List ℤ
filter test [] = []
filter test (s ∷ ss) = if test s then s ∷ filter test ss else filter test ss

module _ (above : ℤ → ℤ → Bool) where
  abbrev pub greatest : ℤ → List ℤ → ℤ
  greatest c [] = c
  greatest c (s ∷ ss) = greatest (if above s c then s else c) ss

  abbrev pub greatest_or_zero : List ℤ → ℤ
  greatest_or_zero [] = pos 0
  greatest_or_zero (c ∷ ss) = greatest c ss

  -- `s` is one of the sources, and none of them is above it.
  abbrev pub IsGreatest : List ℤ → ℤ → Type 0
  IsGreatest ss s =
      (contains eq_ℤ s ss ≡ true) × ((t : ℤ) → contains eq_ℤ t ss ≡ true → above t s ≡ false)

kept_law :
    (same c test_s : Bool)
    → (same ≡ true → test_s ≡ true)
    → (same || (c && test_s)) ≡ ((same || c) && test_s)
kept_law same c test_s h = ground (arith, h)

left_law :
    (same c test_s : Bool)
    → (same ≡ true → test_s ≡ false)
    → (c && test_s) ≡ ((same || c) && test_s)
left_law same c test_s h = ground (arith, h)

pub contains-filter :
    (test : ℤ → Bool) (s : ℤ) (ss : List ℤ)
    → contains eq_ℤ s (filter test ss) ≡ (contains eq_ℤ s ss && test s)
contains-filter test s [] = refl
contains-filter test s (t ∷ ss) =
    if_ind (λ (xs : List ℤ). contains eq_ℤ s xs ≡ (contains eq_ℤ s (t ∷ ss) && test s)) (test t)
      (λ e.
        ap (λ b. eq_ℤ s t || b) (contains-filter test s ss)
        ∙ kept_law (eq_ℤ s t) (contains eq_ℤ s ss) (test s) (λ h. ap test ((eq_ℤ_iff s t).0 h) ∙ e))
      (λ e.
        contains-filter test s ss
        ∙ left_law (eq_ℤ s t) (contains eq_ℤ s ss) (test s) (λ h. ap test ((eq_ℤ_iff s t).0 h) ∙ e))

-- An order of the sources in which no two of them are equally high.
pub record IsRanking (above : ℤ → ℤ → Bool) : Type 0 where
  pub irreflexive : (a : ℤ) → above a a ≡ false
  pub asymmetric : (a b : ℤ) → above a b ≡ true → above b a ≡ false
  pub connected : (a b : ℤ) → above a b ≡ false → above b a ≡ false → a ≡ b
  pub transitive : (a b c : ℤ) → above a b ≡ false → above b c ≡ false → above a c ≡ false

module _ (above : ℤ → ℤ → Bool) (ranking : IsRanking above) where
  abbrev higher : ℤ → ℤ → ℤ
  higher s c = if above s c then s else c

  none_above-higher : (s c : ℤ) → (above c (higher s c) ≡ false) × (above s (higher s c) ≡ false)
  none_above-higher s c =
      if_ind (λ m. (above c m ≡ false) × (above s m ≡ false)) (above s c)
        (λ e. (ranking.asymmetric s c e, ranking.irreflexive s)) (λ e. (ranking.irreflexive c, e))

  higher-contains :
      (g s c : ℤ) (b : Bool)
      → (eq_ℤ g (higher s c) || b) ≡ true
      → (eq_ℤ g c || (eq_ℤ g s || b)) ≡ true
  higher-contains g s c b =
      if_ind (λ m. (eq_ℤ g m || b) ≡ true → (eq_ℤ g c || (eq_ℤ g s || b)) ≡ true) (above s c)
        (λ _ h. ground (arith, h)) (λ _ h. ground (arith, h))

  member-below :
      (c s g t : ℤ) (ss : List ℤ)
      → above (higher s c) g ≡ false
      → (contains eq_ℤ t ss ≡ true → above t g ≡ false)
      → contains eq_ℤ t (c ∷ s ∷ ss) ≡ true
      → above t g ≡ false
  member-below c s g t ss first rest =
      cases (eq_ℤ t c) (eq_ℤ t s) (contains eq_ℤ t ss)
        (λ e.
          subst (λ x. above x g ≡ false) (sym ((eq_ℤ_iff t c).0 e))
            (ranking.transitive c (higher s c) g (none_above-higher s c).0 first))
        (λ e.
          subst (λ x. above x g ≡ false) (sym ((eq_ℤ_iff t s).0 e))
            (ranking.transitive s (higher s c) g (none_above-higher s c).1 first))
        rest
    where
      cases :
          (a b d : Bool)
          → (a ≡ true → above t g ≡ false)
          → (b ≡ true → above t g ≡ false)
          → (d ≡ true → above t g ≡ false)
          → (a || (b || d)) ≡ true
          → above t g ≡ false
      cases true b d f g h e = f refl
      cases false true d f g h e = g refl
      cases false false d f g h e = h e

  higher-IsGreatest :
      (c s g : ℤ) (ss : List ℤ)
      → IsGreatest above (higher s c ∷ ss) g
      → IsGreatest above (c ∷ s ∷ ss) g
  higher-IsGreatest c s g ss h = (
    higher-contains g s c (contains eq_ℤ g ss) h.0,
    λ t.
        member-below c s g t ss
          (h.1 (higher s c) (ground (arith, eq_ℤ_iff (higher s c) (higher s c))))
          (λ e. h.1 t (ground (arith, e))),
  )

  pub greatest-IsGreatest : (c : ℤ) (ss : List ℤ) → IsGreatest above (c ∷ ss) (greatest above c ss)
  greatest-IsGreatest c [] = (
    ground (arith, eq_ℤ_iff c c),
    λ t h.
        subst (λ x. above x c ≡ false) (sym ((eq_ℤ_iff t c).0 (only (eq_ℤ t c) h)))
          (ranking.irreflexive c),
  )
    where
      only : (b : Bool) → (b || false) ≡ true → b ≡ true
      only b h = ground arith
  greatest-IsGreatest c (s ∷ ss) =
      higher-IsGreatest c s (greatest above (higher s c) ss) ss
        (greatest-IsGreatest (higher s c) ss)

  pub IsGreatest-unique :
      (ss : List ℤ) (s t : ℤ) → IsGreatest above ss s → IsGreatest above ss t → s ≡ t
  IsGreatest-unique ss s t h k = ranking.connected s t (k.1 s h.0) (h.1 t k.0)
