-- ===== src/Coherence/Counting.antt =====
-- How many cores of a list pass a test (`len` of the lists in `_check_swmr`).
use ai_chip_design_platform.Common.{
  ℕ, suc, ◌<◌, Bool, true, false, ◌||◌, List, [], ◌∷◌, if◌then◌else◌, contains, ◌≡◌, ◌≢◌, refl, sym,
  subst, ◌∙◌, arith,
}
use ai_chip_design_platform.Coherence.State.{Core, eq_core, eq_core_iff, count_if}

module _ (test : Core → Bool) where
  pub count_one :
      (c : Core) (cs : List Core)
      → contains eq_core c cs ≡ true
      → test c ≡ true
      → 0 < count_if test cs
  count_one c [] h t = ground arith
  count_one c (x ∷ cs) h t = step (eq_core c x) (test x) same h (count_one c cs)
    where
      same : eq_core c x ≡ true → test x ≡ true
      same e = subst (λ y. test y ≡ true) ((eq_core_iff c x).0 e) t

      step :
          (here passing : Bool)
          → (here ≡ true → passing ≡ true)
          → (here || contains eq_core c cs) ≡ true
          → (contains eq_core c cs ≡ true → test c ≡ true → 0 < count_if test cs)
          → 0 < (if passing then suc (count_if test cs) else count_if test cs)
      step here true f h k = omega arith
      step true false f h k = ground (arith, f)
      step false false f h k = k h t

  pub count_two :
      (c d : Core) (cs : List Core)
      → c ≢ d
      → contains eq_core c cs ≡ true
      → contains eq_core d cs ≡ true
      → test c ≡ true
      → test d ≡ true
      → 1 < count_if test cs
  count_two c d [] ne h k t u = ground arith
  count_two c d (x ∷ cs) ne h k t u =
      step (eq_core c x) (eq_core d x) (test x) (contains eq_core c cs) (contains eq_core d cs)
        (λ e. subst (λ y. test y ≡ true) ((eq_core_iff c x).0 e) t)
        (λ e. subst (λ y. test y ≡ true) ((eq_core_iff d x).0 e) u)
        (λ e f. ne ((eq_core_iff c x).0 e ∙ sym ((eq_core_iff d x).0 f))) h k
        (λ e. count_one c cs e t) (λ e. count_one d cs e u) (λ e f. count_two c d cs ne e f t u)
    where
      step :
          (c_here d_here passing c_later d_later : Bool) {n : ℕ}
          → (c_here ≡ true → passing ≡ true)
          → (d_here ≡ true → passing ≡ true)
          → (c_here ≡ true → d_here ≡ true → ⊥)
          → (c_here || c_later) ≡ true
          → (d_here || d_later) ≡ true
          → (c_later ≡ true → 0 < n)
          → (d_later ≡ true → 0 < n)
          → (c_later ≡ true → d_later ≡ true → 1 < n)
          → 1 < (if passing then suc n else n)
      step true true passing c_later d_later f g ne h k m l w = absurd (ne refl refl)
      step true false true c_later d_later f g ne h k m l w = omega (arith, l k)
      step true false false c_later d_later f g ne h k m l w = ground (arith, f)
      step false true true c_later d_later f g ne h k m l w = omega (arith, m h)
      step false true false c_later d_later f g ne h k m l w = ground (arith, g)
      step false false true c_later d_later f g ne h k m l w = omega (arith, w h k)
      step false false false c_later d_later f g ne h k m l w = w h k
