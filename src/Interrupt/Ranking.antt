-- ===== src/Interrupt/Ranking.antt =====
-- Which source a claim has to return, and that the models of AGENT_H/interrupt_verifier.py return it.
use native.Mathlib.Nat.{div-lt_iff_lt-mul}
use ai_chip_design_platform.Comparator.Record.Widths.{pow2_pos}
use ai_chip_design_platform.Common.{
  ℕ, suc, ◌*◌, if◌then◌else◌, ◌-◌, ◌/◌, ◌^◌, ◌≤◌, ◌<◌, ltb, ◌==◌, ℤ, pos, eq_ℤ, ltb_ℤ, leb_ℤ, Bool,
  true, false, ◌&&◌, ◌||◌, List, [], ◌∷◌, contains, ◌≡◌, refl, sym, ◌∙◌, arith, ◌⊎◌,
}
use ai_chip_design_platform.Interrupt.Arbitration.{
  filter, greatest, greatest_or_zero, contains-filter, IsRanking, greatest-IsGreatest, IsGreatest,
}
use ai_chip_design_platform.Interrupt.Sources.{Context}
use ai_chip_design_platform.Interrupt.Plic as Plic
use ai_chip_design_platform.Interrupt.Clic as Clic
use ai_chip_design_platform.Interrupt.Plic.{PlicModel}
use ai_chip_design_platform.Interrupt.Clic.{ClicModel, level}

-- What a claim returns: 0 if no source can be claimed, else the one that precedes all of them.
pub data IsClaim (IsClaimable : ℤ → Type 0) (Precedes : ℤ → ℤ → Type 0) : ℤ → Type 0 where
  no_source : ((s : ℤ) → IsClaimable s → ⊥) → IsClaim IsClaimable Precedes (pos 0)
  source :
      {s : ℤ}
      → IsClaimable s
      → ((t : ℤ) → IsClaimable t → Precedes s t)
      → IsClaim IsClaimable Precedes s

module _ {IsClaimable : ℤ → Type 0} {Precedes : ℤ → ℤ → Type 0}
    (antisymmetric : (s t : ℤ) → Precedes s t → Precedes t s → s ≡ t) where
  pub IsClaim-unique :
      {s t : ℤ} → IsClaim IsClaimable Precedes s → IsClaim IsClaimable Precedes t → s ≡ t
  IsClaim-unique (no_source f) (no_source g) = refl
  IsClaim-unique (no_source f) (source {s = t} k q) = absurd (f t k)
  IsClaim-unique (source {s = s} h p) (no_source g) = absurd (g s h)
  IsClaim-unique (source {s = s} h p) (source {s = t} k q) = antisymmetric s t (p t k) (q s h)

-- The first of the candidates' greatest is a claim.
module _ (above : ℤ → ℤ → Bool) (ranking : IsRanking above) (test : ℤ → Bool)
    (Precedes : ℤ → ℤ → Type 0) (precedes : (s t : ℤ) → above t s ≡ false → Precedes s t) where
  abbrev IsPending : List ℤ → ℤ → Type 0
  IsPending pending s = (contains eq_ℤ s pending ≡ true) × (test s ≡ true)

  of_candidates :
      (pending cands : List ℤ)
      → ((s : ℤ) → contains eq_ℤ s cands ≡ (contains eq_ℤ s pending && test s))
      → IsClaim (IsPending pending) Precedes (greatest_or_zero above cands)
  of_candidates pending [] h =
      no_source (λ s k. none (contains eq_ℤ s pending) (test s) (h s) k.0 k.1)
    where
      none : (a b : Bool) → false ≡ (a && b) → a ≡ true → b ≡ true → ⊥
      none a b h k l = ground arith
  of_candidates pending (c ∷ ss) h =
      source (both (sym (h g) ∙ most.0)) (λ t k. precedes g t (most.1 t (h t ∙ together k.0 k.1)))
    where
      g : ℤ
      g = greatest above c ss

      most : IsGreatest above (c ∷ ss) g
      most = greatest-IsGreatest above ranking c ss

      both : {a b : Bool} → (a && b) ≡ true → (a ≡ true) × (b ≡ true)
      both {a = a} {b = b} h = ground arith

      together : {a b : Bool} → a ≡ true → b ≡ true → (a && b) ≡ true
      together h k = ground arith

  pub greatest-IsClaim :
      (pending : List ℤ)
      → IsClaim (IsPending pending) Precedes (greatest_or_zero above (filter test pending))
  greatest-IsClaim pending =
      of_candidates pending (filter test pending) (λ s. contains-filter test s pending)

-- The platform-level controller: pending, enabled for the context, of a priority above its threshold
-- and above 0; then the higher priority, then the smaller number.
abbrev pub IsPlicClaimable : PlicModel → Context → ℤ → Type 0
IsPlicClaimable plic ctx s =
    (contains eq_ℤ s plic.pending ≡ true) × (Plic.claimable plic ctx s ≡ true)

abbrev pub PlicPrecedes : PlicModel → ℤ → ℤ → Type 0
PlicPrecedes plic s t =
    (ltb_ℤ (plic.prio t) (plic.prio s) ≡ true) ⊎ ((plic.prio s ≡ plic.prio t) × (leb_ℤ s t ≡ true))

abbrev pub IsPlicClaim : PlicModel → Context → ℤ → Type 0
IsPlicClaim plic ctx = IsClaim (IsPlicClaimable plic ctx) (PlicPrecedes plic)

plic-IsRanking : (plic : PlicModel) → IsRanking (Plic.above plic)
plic-IsRanking plic = record {
  irreflexive = λ a. irreflexive (plic.prio a) a;
  asymmetric = λ a b. asymmetric (plic.prio a) (plic.prio b) a b;
  connected = λ a b. connected (plic.prio a) (plic.prio b) a b;
  transitive = λ a b c. transitive (plic.prio a) (plic.prio b) (plic.prio c) a b c;
}
  where
    before : ℤ → ℤ → ℤ → ℤ → Bool
    before p q a b = ltb_ℤ q p || (eq_ℤ p q && ltb_ℤ a b)

    irreflexive : (p a : ℤ) → before p p a a ≡ false
    irreflexive p a = ground arith

    asymmetric : (p q a b : ℤ) → before p q a b ≡ true → before q p b a ≡ false
    asymmetric p q a b h = ground arith

    connected : (p q a b : ℤ) → before p q a b ≡ false → before q p b a ≡ false → a ≡ b
    connected p q a b h k = ground arith

    transitive :
        (p q r a b c : ℤ) → before p q a b ≡ false → before q r b c ≡ false → before p r a c ≡ false
    transitive p q r a b c h k = ground arith

plic_precedes : (plic : PlicModel) (s t : ℤ) → Plic.above plic t s ≡ false → PlicPrecedes plic s t
plic_precedes plic s t = cases (plic.prio s) (plic.prio t)
  where
    cases :
        (p q : ℤ)
        → (ltb_ℤ p q || (eq_ℤ q p && ltb_ℤ t s)) ≡ false
        → (ltb_ℤ q p ≡ true) ⊎ ((p ≡ q) × (leb_ℤ s t ≡ true))
    cases p q h = ground arith

plic_antisymmetric :
    (plic : PlicModel) (s t : ℤ) → PlicPrecedes plic s t → PlicPrecedes plic t s → s ≡ t
plic_antisymmetric plic s t = cases (plic.prio s) (plic.prio t)
  where
    cases :
        (p q : ℤ)
        → (ltb_ℤ q p ≡ true) ⊎ ((p ≡ q) × (leb_ℤ s t ≡ true))
        → (ltb_ℤ p q ≡ true) ⊎ ((q ≡ p) × (leb_ℤ t s ≡ true))
        → s ≡ t
    cases p q h k = ground arith

pub plic_best-IsPlicClaim :
    (plic : PlicModel) (ctx : Context) → IsPlicClaim plic ctx (Plic.best plic ctx)
unfolding Plic.best
plic_best-IsPlicClaim plic ctx =
    greatest-IsClaim (Plic.above plic) (plic-IsRanking plic) (Plic.claimable plic ctx)
      (PlicPrecedes plic) (plic_precedes plic) plic.pending

pub IsPlicClaim-best :
    (plic : PlicModel) (ctx : Context) {s : ℤ} → IsPlicClaim plic ctx s → s ≡ Plic.best plic ctx
IsPlicClaim-best plic ctx h =
    IsClaim-unique (plic_antisymmetric plic) h (plic_best-IsPlicClaim plic ctx)

-- The core-local controller: pending, enabled, of a level above the threshold's; then the higher
-- level, then the higher control value, then the higher number.
abbrev pub IsClicClaimable : ClicModel → ℤ → Type 0
IsClicClaimable clic s = (contains eq_ℤ s clic.pending ≡ true) × (Clic.claimable clic s ≡ true)

abbrev pub ClicPrecedes : ClicModel → ℤ → ℤ → Type 0
ClicPrecedes clic s t =
    (level clic (clic.ctl t) < level clic (clic.ctl s))
    ⊎ ((level clic (clic.ctl t) ≡ level clic (clic.ctl s))
        × ((clic.ctl t < clic.ctl s) ⊎ ((clic.ctl t ≡ clic.ctl s) × (leb_ℤ t s ≡ true))))

abbrev pub IsClicClaim : ClicModel → ℤ → Type 0
IsClicClaim clic = IsClaim (IsClicClaimable clic) (ClicPrecedes clic)

clic-IsRanking : (clic : ClicModel) → IsRanking (Clic.above clic)
clic-IsRanking clic = record {
  irreflexive = λ a. irreflexive (clic.ctl a) a;
  asymmetric = λ a b. asymmetric (clic.ctl a) (clic.ctl b) a b;
  connected = λ a b. connected (clic.ctl a) (clic.ctl b) a b;
  transitive = λ a b c. transitive (clic.ctl a) (clic.ctl b) (clic.ctl c) a b c;
}
  where
    before : ℕ → ℕ → ℤ → ℤ → Bool
    before p q a b = ltb q p || ((p == q) && ltb_ℤ b a)

    irreflexive : (p : ℕ) (a : ℤ) → before p p a a ≡ false
    irreflexive p a = ground arith

    asymmetric : (p q : ℕ) (a b : ℤ) → before p q a b ≡ true → before q p b a ≡ false
    asymmetric p q a b h = ground arith

    connected : (p q : ℕ) (a b : ℤ) → before p q a b ≡ false → before q p b a ≡ false → a ≡ b
    connected p q a b h k = ground arith

    transitive :
        (p q r : ℕ) (a b c : ℤ)
        → before p q a b ≡ false
        → before q r b c ≡ false
        → before p r a c ≡ false
    transitive p q r a b c h k = ground arith

div_mono : (k : ℕ) {m n : ℕ} → 0 < k → m ≤ n → m / k ≤ n / k
div_mono k {m = m} {n = n} p h = omega (arith, bound_div)
  where
    above_n : n < suc (n / k) * k
    above_n = (div-lt_iff_lt-mul p).0 (omega arith)

    bound : m < suc (n / k) * k
    bound = omega (arith, h, above_n)

    bound_div : m / k < suc (n / k)
    bound_div = (div-lt_iff_lt-mul p).1 bound

-- A greater control value has no lower level.
level_mono : (clic : ClicModel) (m n : ℕ) → m ≤ n → level clic m ≤ level clic n
unfolding level
level_mono clic m n h =
    by_test (clic.nlbits == 0) (div_mono (2 ^ (8 - clic.nlbits)) (pow2_pos (8 - clic.nlbits)) h)
  where
    by_test : (b : Bool) {x y : ℕ} → x ≤ y → (if b then 0 else x) ≤ (if b then 0 else y)
    by_test true h = omega arith
    by_test false h = h

clic_precedes : (clic : ClicModel) (s t : ℤ) → Clic.above clic t s ≡ false → ClicPrecedes clic s t
clic_precedes clic s t =
    cases (clic.ctl s) (clic.ctl t) (level clic (clic.ctl s)) (level clic (clic.ctl t))
      (level_mono clic (clic.ctl t) (clic.ctl s))
  where
    cases :
        (p q m n : ℕ)
        → (q ≤ p → n ≤ m)
        → (ltb p q || ((q == p) && ltb_ℤ s t)) ≡ false
        → (n < m) ⊎ ((n ≡ m) × ((q < p) ⊎ ((q ≡ p) × (leb_ℤ t s ≡ true))))
    cases p q m n f h = ground (arith, f)

clic_antisymmetric :
    (clic : ClicModel) (s t : ℤ) → ClicPrecedes clic s t → ClicPrecedes clic t s → s ≡ t
clic_antisymmetric clic s t =
    cases (clic.ctl s) (clic.ctl t) (level clic (clic.ctl s)) (level clic (clic.ctl t))
  where
    cases :
        (p q m n : ℕ)
        → (n < m) ⊎ ((n ≡ m) × ((q < p) ⊎ ((q ≡ p) × (leb_ℤ t s ≡ true))))
        → (m < n) ⊎ ((m ≡ n) × ((p < q) ⊎ ((p ≡ q) × (leb_ℤ s t ≡ true))))
        → s ≡ t
    cases p q m n h k = ground arith

pub clic_best-IsClicClaim : (clic : ClicModel) → IsClicClaim clic (Clic.best clic)
unfolding Clic.best
clic_best-IsClicClaim clic =
    greatest-IsClaim (Clic.above clic) (clic-IsRanking clic) (Clic.claimable clic)
      (ClicPrecedes clic) (clic_precedes clic) clic.pending

pub IsClicClaim-best : (clic : ClicModel) {s : ℤ} → IsClicClaim clic s → s ≡ Clic.best clic
IsClicClaim-best clic h = IsClaim-unique (clic_antisymmetric clic) h (clic_best-IsClicClaim clic)
