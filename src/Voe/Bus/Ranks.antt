-- ===== src/Voe/Bus/Ranks.antt =====
-- The order of publishing: what does not depend on it, and what does.
use ai_chip_design_platform.Common.{
  ℕ, Bool, true, false, Option, none, some, List, [], ◌∷◌, String, str_eq, str_eq_iff, str_eq_self,
  if◌then◌else◌, ◌≡◌, refl, sym, ap, subst, ◌∙◌, ◌⊎◌, inl, inr, arith, if_ind, ltb, leb, ◌==◌, ◌&&◌,
  ◌||◌,
}
use ai_chip_design_platform.Voe.Kernel.{Judgment, believe, deductive}
use ai_chip_design_platform.Voe.Kernel.Dict.{get_item, get-set_if}
use ai_chip_design_platform.Voe.Bus.{JudgmentBus, publish, outranks, accepts, strength, is_strong}

-- Publishing one after the other.
unfoldable pub publish_all : List (String × Judgment) → JudgmentBus → JudgmentBus
publish_all [] bus = bus
publish_all ((w, j) ∷ js) bus = publish_all js (publish w j bus).0

abbrev pub empty_bus : JudgmentBus
empty_bus = record { ks = []; contributor = []; calibration_events = []; history = [] }

pub outranks_refl : (j : Judgment) → outranks j j ≡ true
unfolding outranks
outranks_refl j = ground arith

outranks_trans :
    (a b c : Judgment) → outranks a b ≡ true → outranks b c ≡ true → outranks a c ≡ true
unfolding outranks
outranks_trans a b c h k = order (strength a) (strength b) (strength c) a.n_eff b.n_eff c.n_eff h k
  where
    order :
        (x y z m n o : ℕ)
        → (ltb y x || ((x == y) && leb n m)) ≡ true
        → (ltb z y || ((y == z) && leb o n)) ≡ true
        → (ltb z x || ((x == z) && leb o m)) ≡ true
    order x y z m n o h k = ground arith

outranks_total : (a b : Judgment) → outranks a b ≡ false → outranks b a ≡ true
unfolding outranks
outranks_total a b h = order (strength a) (strength b) a.n_eff b.n_eff h
  where
    order :
        (x y m n : ℕ)
        → (ltb y x || ((x == y) && leb n m)) ≡ false
        → (ltb x y || ((y == x) && leb m n)) ≡ true
    order x y m n h = ground arith

-- The belief that a judgment leaves of its own obligation.
abbrev pub merged : Judgment → Option Judgment → Option Judgment
merged j old = if accepts j old then some j else old

pub lookup-publish :
    (w : String) (j : Judgment) (bus : JudgmentBus) (phi : String)
    → get_item phi (publish w j bus).0.ks
      ≡ (if str_eq j.phi phi then merged j (get_item phi bus.ks) else get_item phi bus.ks)
unfolding publish believe
lookup-publish w j bus phi = get-set_if (accepts j) j.phi phi j bus.ks

-- The belief of an obligation is at least as strong as a judgment.
abbrev pub Beats : Option Judgment → Judgment → Type 0
Beats none j = ⊥
Beats (some b) j = outranks b j ≡ true

merged-Beats_new : (j : Judgment) (old : Option Judgment) → Beats (merged j old) j
merged-Beats_new j none = outranks_refl j
merged-Beats_new j (some old) =
    if_ind (λ o. Beats o j) (outranks j old) (λ _. outranks_refl j) (outranks_total j old)

merged-Beats_old : (j i : Judgment) (old : Option Judgment) → Beats old i → Beats (merged j old) i
merged-Beats_old j i none h = absurd h
merged-Beats_old j i (some old) h =
    if_ind (λ o. Beats o i) (outranks j old) (λ e. outranks_trans j old i e h) (λ _. h)

publish-Beats_new :
    (w : String) (j : Judgment) (bus : JudgmentBus)
    → Beats (get_item j.phi (publish w j bus).0.ks) j
publish-Beats_new w j bus =
    subst (λ o. Beats o j) (sym (lookup-publish w j bus j.phi))
      (subst
        (λ (b : Bool).
          Beats (if b then merged j (get_item j.phi bus.ks) else get_item j.phi bus.ks) j)
        (sym (str_eq_self j.phi)) (merged-Beats_new j (get_item j.phi bus.ks)))

publish-Beats_old :
    (w : String) (j i : Judgment) (bus : JudgmentBus) (phi : String)
    → Beats (get_item phi bus.ks) i
    → Beats (get_item phi (publish w j bus).0.ks) i
publish-Beats_old w j i bus phi h =
    subst (λ o. Beats o i) (sym (lookup-publish w j bus phi))
      (if_ind (λ o. Beats o i) (str_eq j.phi phi)
        (λ _. merged-Beats_old j i (get_item phi bus.ks) h) (λ _. h))

publish_all-Beats_old :
    (js : List (String × Judgment)) (i : Judgment) (bus : JudgmentBus) (phi : String)
    → Beats (get_item phi bus.ks) i
    → Beats (get_item phi (publish_all js bus).ks) i
unfolding publish_all
publish_all-Beats_old [] i bus phi h = h
publish_all-Beats_old ((w, j) ∷ js) i bus phi h =
    publish_all-Beats_old js i (publish w j bus).0 phi (publish-Beats_old w j i bus phi h)

-- A judgment is among those that are published.
pub data IsPublished (j : Judgment) : List (String × Judgment) → Type 0 where
  here : {w : String} {js : List (String × Judgment)} → IsPublished j ((w, j) ∷ js)
  there :
      {p : String × Judgment} {js : List (String × Judgment)}
      → IsPublished j js
      → IsPublished j (p ∷ js)

-- The belief of an obligation is at least as strong as every judgment about it that was published.
pub publish_all-Beats :
    (js : List (String × Judgment)) (bus : JudgmentBus) {j : Judgment}
    → IsPublished j js
    → Beats (get_item j.phi (publish_all js bus).ks) j
unfolding publish_all
publish_all-Beats [] bus h = elim h [ ]
publish_all-Beats ((w, j) ∷ js) bus here =
    publish_all-Beats_old js j (publish w j bus).0 j.phi (publish-Beats_new w j bus)
publish_all-Beats ((w, j) ∷ js) bus (there h) = publish_all-Beats js (publish w j bus).0 h

-- Where the belief of an obligation comes from.
Origin : (js : List (String × Judgment)) (phi : String) (o before : Option Judgment) → Type 0
Origin js phi o before =
    (o ≡ before) ⊎ ((j : Judgment) × IsPublished j js × (j.phi ≡ phi) × (o ≡ some j))

Origin-there :
    (p : String × Judgment) (js : List (String × Judgment)) (phi : String)
    (o before : Option Judgment)
    → Origin js phi o before
    → Origin (p ∷ js) phi o before
unfolding Origin
Origin-there p js phi o before (inl e) = inl e
Origin-there p js phi o before (inr (j, h, e, f)) = inr (j, there h, e, f)

publish-Origin :
    (w : String) (j : Judgment) (bus : JudgmentBus) (phi : String)
    → Origin ((w, j) ∷ []) phi (get_item phi (publish w j bus).0.ks) (get_item phi bus.ks)
unfolding Origin
publish-Origin w j bus phi =
    subst (λ o. Origin ((w, j) ∷ []) phi o (get_item phi bus.ks)) (sym (lookup-publish w j bus phi))
      (if_ind (λ o. Origin ((w, j) ∷ []) phi o (get_item phi bus.ks)) (str_eq j.phi phi)
        (λ e.
          if_ind (λ o. Origin ((w, j) ∷ []) phi o (get_item phi bus.ks))
            (accepts j (get_item phi bus.ks)) (λ _. inr (j, here, (str_eq_iff j.phi phi).0 e, refl))
            (λ _. inl refl))
        (λ _. inl refl))

publish_all-Origin :
    (js : List (String × Judgment)) (bus : JudgmentBus) (phi : String)
    → Origin js phi (get_item phi (publish_all js bus).ks) (get_item phi bus.ks)
unfolding publish_all Origin
publish_all-Origin [] bus phi = inl refl
publish_all-Origin ((w, j) ∷ js) bus phi = elim (publish_all-Origin js (publish w j bus).0 phi) [
  | inr r ↦ Origin-there (w, j) js phi _ _ (inr r)
  | inl e ↦ elim (publish-Origin w j bus phi) [
    | inl f ↦ inl (e ∙ f)
    | inr r ↦ inr (r.0, first_of r.1, r.2, e ∙ r.3)
  ]
]
  where
    first_of : {i : Judgment} → IsPublished i ((w, j) ∷ []) → IsPublished i ((w, j) ∷ js)
    first_of here = here
    first_of (there h) = elim h [ ]

-- Whatever the order of the judgments, and whoever publishes them, the belief of an obligation
-- ends at the same rank: for two sequences of the same judgments, published on an empty bus, each
-- belief that the first leaves is matched by one of the second that is as strong as it.
pub publish_all_confluent :
    (js js' : List (String × Judgment))
    → ((j : Judgment) → IsPublished j js → IsPublished j js')
    → (phi : String) {b : Judgment} → get_item phi (publish_all js empty_bus).ks ≡ some b
    → Beats (get_item phi (publish_all js' empty_bus).ks) b
unfolding Origin
publish_all_confluent js js' same phi {b} h = elim (publish_all-Origin js empty_bus phi) [
  | inl e ↦ cc (sym h ∙ e)
  | inr (j, p, e, f) ↦
      subst (λ i. Beats (get_item phi (publish_all js' empty_bus).ks) i) (some-inj (sym f ∙ h))
        (subst (λ x. Beats (get_item x (publish_all js' empty_bus).ks) j) e
          (publish_all-Beats js' empty_bus (same j p)))
]
  where
    some-inj : {i k : Judgment} → some i ≡ some k → i ≡ k
    some-inj e = cc

publish_own :
    (w : String) (j : Judgment) (bus : JudgmentBus)
    → get_item j.phi (publish w j bus).0.ks ≡ merged j (get_item j.phi bus.ks)
publish_own w j bus =
    lookup-publish w j bus j.phi
    ∙ ap (λ (b : Bool). if b then merged j (get_item j.phi bus.ks) else get_item j.phi bus.ks)
        (str_eq_self j.phi)

publish_after :
    (w : String) (first second : Judgment)
    → first.phi ≡ second.phi
    → outranks second first ≡ true
    → get_item second.phi (publish_all ((w, first) ∷ (w, second) ∷ []) empty_bus).ks ≡ some second
unfolding publish_all
publish_after w first second same higher =
    publish_own w second (publish w first empty_bus).0
    ∙ ap (merged second) (
        ap (λ x. get_item x (publish w first empty_bus).0.ks) (sym same)
        ∙ publish_own w first empty_bus)
    ∙ ap (λ (b : Bool). if b then some second else some first) higher

outranks-strong : (a b : Judgment) → is_strong a ≡ true → a.n_eff ≡ b.n_eff → outranks a b ≡ true
unfolding outranks
outranks-strong a b h e = order (is_strong a) (is_strong b) a.n_eff b.n_eff h e
  where
    order :
        (x y : Bool) (m n : ℕ)
        → x ≡ true
        → m ≡ n
        → (ltb (if y then 1 else 0) (if x then 1 else 0)
            || (((if x then 1 else 0) == (if y then 1 else 0)) && leb n m))
          ≡ true
    order true true m n h e = ground arith
    order true false m n h e = refl
    order false y m n h e = cc

-- What the belief says can depend on the order: of a proof and a counterexample of an obligation,
-- with the same number of samples, the one that is published last is believed.
pub publish_last_wins :
    (w : String) (p r : Judgment)
    → p.phi ≡ r.phi
    → p.warrant ≡ deductive
    → r.counterexample ≡ true
    → p.n_eff ≡ r.n_eff
    → (get_item r.phi (publish_all ((w, p) ∷ (w, r) ∷ []) empty_bus).ks ≡ some r)
      × (get_item p.phi (publish_all ((w, r) ∷ (w, p) ∷ []) empty_bus).ks ≡ some p)
publish_last_wins w p r same proof refutation samples = (
  publish_after w p r same (outranks-strong r p (ground arith) (sym samples)),
  publish_after w r p (sym same) (outranks-strong p r (ground arith) samples),
)
