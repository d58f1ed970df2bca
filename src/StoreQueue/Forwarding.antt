-- ===== src/StoreQueue/Forwarding.antt =====
-- Loads read the youngest older store (`LSQVerifier.run` of AGENT_H/lsq_verifier.py).
use ai_chip_design_platform.Common.{
  ℤ, eq_ℤ, eq_ℤ_iff, Bool, true, false, Option, none, some, List, [], ◌∷◌, ◌++◌, length, ◌==◌,
  append_empty, suc, if◌then◌else◌, ◌≡◌, refl, sym, ap, subst, ◌∙◌, arith,
}
use ai_chip_design_platform.Coherence.Order.{in_order}
use ai_chip_design_platform.Coherence.State.{add_addr}
use ai_chip_design_platform.StoreQueue.{
  Kind, load, store, MemOp, LsqRecord, Check, lsq_forward, LsqState, new_lsq, check_forward,
  take_access, take_op, ops_of, take_ops, check_store_order, run, passes,
}

-- The value at an address behind an operation, of that before it.
abbrev written_value : Kind → (addr value : Option ℤ) → ℤ → Option ℤ → Option ℤ
written_value store (some b) (some v) a old = if eq_ℤ a b then some v else old
written_value _ _ _ a old = old

-- The value of the youngest store to an address that tells one, of operations that are listed
-- youngest first.
abbrev last_value : ℤ → List (Option ℤ × MemOp) → Option ℤ
last_value a [] = none
last_value a ((c, op) ∷ ops) = written_value op.kind op.addr op.value a (last_value a ops)

abbrev store_at : Kind → (addr : Option ℤ) → ℤ → Bool
store_at store (some b) a = eq_ℤ a b
store_at _ _ a = false

-- What the youngest store to an address tells as its value; nothing without a store.
abbrev pub youngest_store : ℤ → List (Option ℤ × MemOp) → Option (Option ℤ)
youngest_store a [] = none
youngest_store a ((c, op) ∷ ops) =
    if store_at op.kind op.addr a then some op.value else youngest_store a ops

youngest_store-last_value :
    (a g : ℤ) (ops : List (Option ℤ × MemOp))
    → youngest_store a ops ≡ some (some g)
    → last_value a ops ≡ some g
youngest_store-last_value a g [] h = cc h
youngest_store-last_value a g ((c, op) ∷ ops) h =
    by_fields op.kind op.addr op.value h (youngest_store-last_value a g ops)
  where
    by_fields :
        (kind : Kind) (addr value : Option ℤ)
        → (if store_at kind addr a then some value else youngest_store a ops) ≡ some (some g)
        → (youngest_store a ops ≡ some (some g) → last_value a ops ≡ some g)
        → written_value kind addr value a (last_value a ops) ≡ some g
    by_fields load addr value h f = f h
    by_fields store none value h f = f h
    by_fields store (some b) none h f = untold (eq_ℤ a b) h f
      where
        untold :
            (t : Bool)
            → (if t then some none else youngest_store a ops) ≡ some (some g)
            → (youngest_store a ops ≡ some (some g) → last_value a ops ≡ some g)
            → last_value a ops ≡ some g
        untold true h f = ground (arith, h)
        untold false h f = f h
    by_fields store (some b) (some v) h f = told (eq_ℤ a b) h f
      where
        told :
            (t : Bool)
            → (if t then some (some v) else youngest_store a ops) ≡ some (some g)
            → (youngest_store a ops ≡ some (some g) → last_value a ops ≡ some g)
            → (if t then some v else last_value a ops) ≡ some g
        told true h f = cc h
        told false h f = f h

abbrev pub youngest_first :
    List (Option ℤ × MemOp) → List (Option ℤ × MemOp) → List (Option ℤ × MemOp)
youngest_first [] older = older
youngest_first (op ∷ ops) older = youngest_first ops (op ∷ older)

check_forward-last_store :
    (golden value : Option ℤ) (st : LsqState)
    → (check_forward golden value st).last_store ≡ st.last_store
unfolding check_forward
check_forward-last_store none value st = refl
check_forward-last_store (some g) none st = refl
check_forward-last_store (some g) (some v) st = refl

take_access-last_store :
    (kind : Kind) (b : ℤ) (value commit : Option ℤ) (st : LsqState) (a : ℤ)
    → (take_access kind b value commit st).last_store a
      ≡ written_value kind (some b) value a (st.last_store a)
unfolding take_access
take_access-last_store load b value commit st a =
    ap (λ f. f a) (check_forward-last_store (st.last_store b) value _)
take_access-last_store store b none commit st a = refl
take_access-last_store store b (some v) commit st a = refl

take_op-last_store :
    (commit : Option ℤ) (op : MemOp) (st : LsqState) (a : ℤ)
    → (take_op commit op st).last_store a
      ≡ written_value op.kind op.addr op.value a (st.last_store a)
unfolding take_op
take_op-last_store commit op st a = by_addr op.addr op.kind
  where
    by_addr :
        (addr : Option ℤ) (kind : Kind)
        → (elim addr as (λ _. LsqState) [
          | none ↦ st
          | some b ↦ take_access kind b op.value commit st
        ]).last_store
            a
          ≡ written_value kind addr op.value a (st.last_store a)
    by_addr none load = refl
    by_addr none store = refl
    by_addr (some b) kind = take_access-last_store kind b op.value commit st a

take_ops-last_store :
    (ops older : List (Option ℤ × MemOp)) (st : LsqState) (a : ℤ)
    → st.last_store a ≡ last_value a older
    → (take_ops ops st).last_store a ≡ last_value a (youngest_first ops older)
take_ops-last_store [] older st a h = h
take_ops-last_store ((c, op) ∷ ops) older st a h =
    take_ops-last_store ops ((c, op) ∷ older) (take_op c op st) a
      (take_op-last_store c op st a ∙ ap (written_value op.kind op.addr op.value a) h)

check_forward-grows :
    (golden value : Option ℤ) (st : LsqState)
    → (check_forward golden value st).violations ≡ []
    → st.violations ≡ []
unfolding check_forward
check_forward-grows none value st h = h
check_forward-grows (some g) none st h = h
check_forward-grows (some g) (some v) st h = (append_empty _ _ h).0

take_access-grows :
    (kind : Kind) (b : ℤ) (value commit : Option ℤ) (st : LsqState)
    → (take_access kind b value commit st).violations ≡ []
    → st.violations ≡ []
unfolding take_access
take_access-grows load b value commit st h = check_forward-grows (st.last_store b) value _ h
take_access-grows store b value commit st h = h

take_op-grows :
    (commit : Option ℤ) (op : MemOp) (st : LsqState)
    → (take_op commit op st).violations ≡ []
    → st.violations ≡ []
unfolding take_op
take_op-grows commit op st = by_addr op.addr
  where
    by_addr :
        (addr : Option ℤ)
        → (elim addr as (λ _. LsqState) [
          | none ↦ st
          | some b ↦ take_access op.kind b op.value commit st
        ]).violations
          ≡ []
        → st.violations ≡ []
    by_addr none h = h
    by_addr (some b) h = take_access-grows op.kind b op.value commit st h

take_ops-grows :
    (ops : List (Option ℤ × MemOp)) (st : LsqState)
    → (take_ops ops st).violations ≡ []
    → st.violations ≡ []
take_ops-grows [] st h = h
take_ops-grows ((c, op) ∷ ops) st h = take_op-grows c op st (take_ops-grows ops (take_op c op st) h)

take_ops-append :
    (ops later : List (Option ℤ × MemOp)) (st : LsqState)
    → take_ops (ops ++ later) st ≡ take_ops later (take_ops ops st)
take_ops-append [] later st = refl
take_ops-append ((c, op) ∷ ops) later st = take_ops-append ops later (take_op c op st)

forwarded :
    (commit : Option ℤ) (op : MemOp) (a v g : ℤ) (st : LsqState)
    → op.kind ≡ load
    → op.addr ≡ some a
    → op.value ≡ some v
    → st.last_store a ≡ some g
    → (take_op commit op st).violations ≡ []
    → v ≡ g
unfolding take_op take_access check_forward
forwarded commit op a v g st is_load at told last h = (eq_ℤ_iff v g).0 (
    same (eq_ℤ v g)
      (append_empty _ _ (
        subst (λ o. (check_forward o (some v) entered).violations ≡ []) last
          (subst (λ o. (check_forward (st.last_store a) o entered).violations ≡ []) told
            (subst (λ k. (take_access k a op.value commit st).violations ≡ []) is_load
              (subst
                (λ o.
                  (elim o as (λ _. LsqState) [
                    | none ↦ st
                    | some b ↦ take_access op.kind b op.value commit st
                  ]).violations
                  ≡ [])
                at h))))).1)
  where
    entered : LsqState
    entered = record st { addrs = add_addr a st.addrs; loads = suc st.loads }

    same : (b : Bool) → (if b then [] else lsq_forward ∷ []) ≡ [] → b ≡ true
    same true h = refl
    same false h = cc h

-- If the records pass, and the youngest older store to the address of a load tells its value, the load
-- tells the same value, if it tells one.
pub run-forwards :
    (recs : List LsqRecord) (before later : List (Option ℤ × MemOp)) (commit : Option ℤ)
    (op : MemOp) (a v g : ℤ)
    → passes (run recs) ≡ true
    → ops_of (in_order (λ (r : LsqRecord). r.seq) recs) ≡ before ++ (commit, op) ∷ later
    → op.kind ≡ load
    → op.addr ≡ some a
    → op.value ≡ some v
    → youngest_store a (youngest_first before []) ≡ some (some g)
    → v ≡ g
unfolding run check_store_order
run-forwards recs before later commit op a v g h e is_load at told last =
    forwarded commit op a v g (take_ops before new_lsq) is_load at told
      (take_ops-last_store before [] new_lsq a refl
        ∙ youngest_store-last_value a g (youngest_first before []) last)
      (take_ops-grows later (take_op commit op (take_ops before new_lsq)) (
        ap (λ (st : LsqState). st.violations)
          (sym (take_ops-append before ((commit, op) ∷ later) new_lsq))
        ∙ ap (λ ops. (take_ops ops new_lsq).violations) (sym e)
        ∙ (append_empty _ _ (none_left _ h)).0))
  where
    none_left : (xs : List Check) → (length xs == 0) ≡ true → xs ≡ []
    none_left [] h = refl
    none_left (x ∷ xs) h = ground arith
