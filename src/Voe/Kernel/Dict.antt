-- ===== src/Voe/Kernel/Dict.antt =====
-- Python dicts with texts as keys, as association lists.
use ai_chip_design_platform.Common.{
  Bool, true, false, ap, ◌∙◌, Option, none, some, List, [], ◌∷◌, String, str_eq, str_eq_iff,
  if◌then◌else◌, ◌≡◌, refl, arith,
}

module _ {ℓ} {V : Type ℓ} where
  -- `dict.get(key)`, with none for a missing key
  abbrev pub get_item : (key : String) → List (String × V) → Option V
  get_item key [] = none
  get_item key (item ∷ dict) = if str_eq item.0 key then some item.1 else get_item key dict

  -- `dict[key] = val`: a present key keeps its place, a new one goes to the end.
  unfoldable pub set_item : (key : String) (val : V) → List (String × V) → List (String × V)
  set_item key val [] = (key, val) ∷ []
  set_item key val (item ∷ dict) =
      if str_eq item.0 key then (key, val) ∷ dict else item ∷ set_item key val dict

  pub get-set :
      (key other : String) (val : V) (dict : List (String × V))
      → get_item other (set_item key val dict)
        ≡ (if str_eq key other then some val else get_item other dict)
  unfolding set_item
  get-set key other val [] = refl
  get-set key other val (item ∷ dict) = ground (
    arith,
    get-set key other val dict,
    str_eq_iff item.0 key,
    str_eq_iff key other,
    str_eq_iff item.0 other,
  )

  written :
      (passed t : Bool) (v : V) (old : Option V)
      → (t ≡ true → true ≡ passed)
      → (if t then some v else old) ≡ (if t then if passed then some v else old else old)
  written passed false v old h = refl
  written true true v old h = refl
  written false true v old h = cc (h refl)

  kept :
      (passed t : Bool) (v : V) (old : Option V)
      → (t ≡ true → false ≡ passed)
      → old ≡ (if t then if passed then some v else old else old)
  kept passed false v old h = refl
  kept false true v old h = refl
  kept true true v old h = cc (h refl)

  by_test :
      (k j : String) (v : V) (m : List (String × V)) (b passed : Bool)
      → (str_eq k j ≡ true → b ≡ passed)
      → get_item j (if b then set_item k v m else m)
        ≡ (if str_eq k j then if passed then some v else get_item j m else get_item j m)
  by_test k j v m true passed h = get-set k j v m ∙ written passed (str_eq k j) v (get_item j m) h
  by_test k j v m false passed h = kept passed (str_eq k j) v (get_item j m) h

  -- A write that is made if a test of the old value at its key passes.
  pub get-set_if :
      (test : Option V → Bool) (k j : String) (v : V) (m : List (String × V))
      → get_item j (if test (get_item k m) then set_item k v m else m) ≡ (
          if str_eq k j then if test (get_item j m) then some v else get_item j m else get_item j m)
  get-set_if test k j v m =
      by_test k j v m (test (get_item k m)) (test (get_item j m))
        (λ e. ap (λ x. test (get_item x m)) ((str_eq_iff k j).0 e))
