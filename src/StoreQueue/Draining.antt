-- ===== src/StoreQueue/Draining.antt =====
-- The stores of an address drain in program order (`_check_store_order` of AGENT_H/lsq_verifier.py).
use ai_chip_design_platform.Common.{
  ℤ, eq_ℤ, eq_ℤ_iff, ltb_ℤ, Bool, true, false, ◌||◌, Option, none, some, List, [], ◌∷◌, ◌++◌,
  length, ◌==◌, append-nil, append_assoc, append_empty, contains, All, All-map, if◌then◌else◌, ◌≡◌,
  refl, sym, ap, subst, ◌∙◌, arith, if_ind,
}
use ai_chip_design_platform.Coherence.Order.{in_order}
use ai_chip_design_platform.Coherence.State.{max_ℤ}
use ai_chip_design_platform.StoreQueue.{
  Kind, load, store, MemOp, LsqRecord, Check, lsq_store_order, LsqState, new_lsq, check_forward,
  take_access, take_op, ops_of, take_ops, draining_issues, store_order_issues, keep_commit,
  keep_addr, check_store_order, run, passes,
}

-- No commit is before an earlier one.
abbrev pub Ascending : List ℤ → Type 0
Ascending [] = Unit
Ascending (c ∷ cs) = All (λ d. ltb_ℤ d c ≡ false) cs × Ascending cs

max_of_later : (p c : ℤ) → ltb_ℤ c p ≡ false → max_ℤ p c ≡ c
max_of_later p c h = ground arith

later_trans : (p c d : ℤ) → ltb_ℤ c p ≡ false → ltb_ℤ d c ≡ false → ltb_ℤ d p ≡ false
later_trans p c d h k = ground arith

draining_issues-silent :
    (p : ℤ) (cs : List ℤ) → draining_issues (some p) cs ≡ [] → Ascending (p ∷ cs)
draining_issues-silent p [] h = (tt, tt)
draining_issues-silent p (c ∷ cs) h =
    let parts = append_empty _ _ h in
    let later = silent (ltb_ℤ c p) parts.0 in
    let rest =
      draining_issues-silent c cs
        (subst (λ m. draining_issues (some m) cs ≡ []) (max_of_later p c later) parts.1) in
    ((later, All-map cs (λ d k. later_trans p c d later k) rest.0), rest)
  where
    silent : (b : Bool) → (if b then lsq_store_order ∷ [] else []) ≡ [] → b ≡ false
    silent true h = cc h
    silent false h = refl

draining_issues-Ascending : (cs : List ℤ) → draining_issues none cs ≡ [] → Ascending cs
draining_issues-Ascending [] h = tt
draining_issues-Ascending (c ∷ cs) h = draining_issues-silent c cs h

store_order_issues-Ascending :
    (hist : ℤ → List ℤ) (addrs : List ℤ) (a : ℤ)
    → store_order_issues hist addrs ≡ []
    → contains eq_ℤ a addrs ≡ true
    → Ascending (hist a)
store_order_issues-Ascending hist [] a h k = ground arith
store_order_issues-Ascending hist (b ∷ addrs) a h k =
    by_first (eq_ℤ a b) (λ e. (eq_ℤ_iff a b).0 e) k
      (store_order_issues-Ascending hist addrs a (append_empty _ _ h).1)
  where
    by_first :
        (t : Bool)
        → (t ≡ true → a ≡ b)
        → (t || contains eq_ℤ a addrs) ≡ true
        → (contains eq_ℤ a addrs ≡ true → Ascending (hist a))
        → Ascending (hist a)
    by_first true f k g =
        subst (λ x. Ascending (hist x)) (sym (f refl))
          (draining_issues-Ascending (hist b) (append_empty _ _ h).0)
    by_first false f k g = g k

-- The commits of the stores to an address, in program order.
abbrev commit_of : Kind → (addr commit : Option ℤ) → ℤ → List ℤ
commit_of store (some b) (some c) a = if eq_ℤ a b then c ∷ [] else []
commit_of _ _ _ a = []

abbrev pub commits_to : ℤ → List (Option ℤ × MemOp) → List ℤ
commits_to a [] = []
commits_to a ((commit, op) ∷ ops) = commit_of op.kind op.addr commit a ++ commits_to a ops

-- `store_hist` has the commits so far, and `hist_addrs` the addresses that have any.
abbrev Recorded : LsqState → ℤ → List ℤ → Type 0
Recorded st a cs =
    (st.store_hist a ≡ cs) × (contains eq_ℤ a st.hist_addrs ≡ false → st.store_hist a ≡ [])

check_forward-hist :
    (golden value : Option ℤ) (st : LsqState)
    → ((check_forward golden value st).store_hist ≡ st.store_hist)
      × ((check_forward golden value st).hist_addrs ≡ st.hist_addrs)
unfolding check_forward
check_forward-hist none value st = (refl, refl)
check_forward-hist (some g) none st = (refl, refl)
check_forward-hist (some g) (some v) st = (refl, refl)

keep_commit-hist :
    (b a : ℤ) (commit : Option ℤ) (hist : ℤ → List ℤ)
    → keep_commit b commit hist a ≡ hist a ++ commit_of store (some b) commit a
keep_commit-hist b a none hist = sym (append-nil (hist a))
keep_commit-hist b a (some c) hist = by_address (eq_ℤ a b) (λ e. (eq_ℤ_iff a b).0 e)
  where
    by_address :
        (t : Bool)
        → (t ≡ true → a ≡ b)
        → (if t then hist b ++ c ∷ [] else hist a) ≡ hist a ++ (if t then c ∷ [] else [])
    by_address true f = ap (λ x. hist x ++ c ∷ []) (sym (f refl))
    by_address false f = sym (append-nil (hist a))

contains-append :
    (a b : ℤ) (xs : List ℤ) → contains eq_ℤ a (xs ++ b ∷ []) ≡ (contains eq_ℤ a xs || eq_ℤ a b)
contains-append a b [] = ground arith
contains-append a b (x ∷ xs) = ground (arith, contains-append a b xs)

contains-keep_addr :
    (b a : ℤ) (c : ℤ) (addrs : List ℤ)
    → contains eq_ℤ a (keep_addr b (some c) addrs) ≡ (contains eq_ℤ a addrs || eq_ℤ a b)
contains-keep_addr b a c addrs =
    if_ind (λ (xs : List ℤ). contains eq_ℤ a xs ≡ (contains eq_ℤ a addrs || eq_ℤ a b))
      (contains eq_ℤ b addrs)
      (λ e.
        present (contains eq_ℤ a addrs) (eq_ℤ a b)
          (λ same. ap (λ x. contains eq_ℤ x addrs) ((eq_ℤ_iff a b).0 same) ∙ e))
      (λ _. contains-append a b addrs)
  where
    present : (x y : Bool) → (y ≡ true → x ≡ true) → x ≡ (x || y)
    present x y h = ground (arith, h)

keep_addr-hist :
    (b a : ℤ) (commit : Option ℤ) (hist : ℤ → List ℤ) (addrs : List ℤ)
    → (contains eq_ℤ a addrs ≡ false → hist a ≡ [])
    → contains eq_ℤ a (keep_addr b commit addrs) ≡ false
    → keep_commit b commit hist a ≡ []
keep_addr-hist b a none hist addrs h k = h k
keep_addr-hist b a (some c) hist addrs h k =
    untouched (contains eq_ℤ a addrs) (eq_ℤ a b) h (sym (contains-keep_addr b a c addrs) ∙ k)
  where
    untouched :
        (x y : Bool)
        → (x ≡ false → hist a ≡ [])
        → (x || y) ≡ false
        → (if y then hist b ++ c ∷ [] else hist a) ≡ []
    untouched true y h k = cc
    untouched false true h k = cc
    untouched false false h k = h refl

take_access-Recorded :
    (kind : Kind) (b : ℤ) (value commit : Option ℤ) (st : LsqState) (a : ℤ) (cs : List ℤ)
    → Recorded st a cs
    → Recorded (take_access kind b value commit st) a (cs ++ commit_of kind (some b) commit a)
unfolding take_access
take_access-Recorded load b value commit st a cs h =
    let same = check_forward-hist (st.last_store b) value _ in
    (
      ap (λ f. f a) same.0 ∙ h.0 ∙ sym (append-nil cs),
      λ k. ap (λ f. f a) same.0 ∙ h.1 (ap (contains eq_ℤ a) (sym same.1) ∙ k),
    )
take_access-Recorded store b value commit st a cs h = (
  keep_commit-hist b a commit st.store_hist
      ∙ ap (λ xs. xs ++ commit_of store (some b) commit a) h.0,
  keep_addr-hist b a commit st.store_hist st.hist_addrs h.1,
)

take_op-Recorded :
    (commit : Option ℤ) (op : MemOp) (st : LsqState) (a : ℤ) (cs : List ℤ)
    → Recorded st a cs
    → Recorded (take_op commit op st) a (cs ++ commit_of op.kind op.addr commit a)
unfolding take_op
take_op-Recorded commit op st a cs h = by_addr op.addr op.kind
  where
    kept : Recorded st a (cs ++ [])
    kept = (h.0 ∙ sym (append-nil cs), h.1)

    by_addr :
        (addr : Option ℤ) (kind : Kind)
        → Recorded
            (elim addr as (λ _. LsqState) [
              | none ↦ st
              | some b ↦ take_access kind b op.value commit st
            ])
            a
            (cs ++ commit_of kind addr commit a)
    by_addr none load = kept
    by_addr none store = kept
    by_addr (some b) kind = take_access-Recorded kind b op.value commit st a cs h

take_ops-Recorded :
    (ops : List (Option ℤ × MemOp)) (st : LsqState) (a : ℤ) (cs : List ℤ)
    → Recorded st a cs
    → Recorded (take_ops ops st) a (cs ++ commits_to a ops)
take_ops-Recorded [] st a cs h = (h.0 ∙ sym (append-nil cs), h.1)
take_ops-Recorded ((commit, op) ∷ ops) st a cs h =
    subst (Recorded (take_ops ops (take_op commit op st)) a)
      (append_assoc cs (commit_of op.kind op.addr commit a) (commits_to a ops))
      (take_ops-Recorded ops (take_op commit op st) a (cs ++ commit_of op.kind op.addr commit a)
        (take_op-Recorded commit op st a cs h))

-- If the records pass, the commits that the stores to an address tell, in program order, ascend.
pub run-Ascending :
    (recs : List LsqRecord) (a : ℤ)
    → passes (run recs) ≡ true
    → Ascending (commits_to a (ops_of (in_order (λ (r : LsqRecord). r.seq) recs)))
unfolding run check_store_order
run-Ascending recs a h =
    let ops = ops_of (in_order (λ (r : LsqRecord). r.seq) recs) in
    let st : LsqState = take_ops ops new_lsq in
    let recorded = take_ops-Recorded ops new_lsq a [] (refl, λ _. refl) in
    subst Ascending recorded.0 (
      by_address st (contains eq_ℤ a st.hist_addrs) refl recorded.1
        (append_empty _ _ (none_left _ h)).1)
  where
    none_left : (xs : List Check) → (length xs == 0) ≡ true → xs ≡ []
    none_left [] h = refl
    none_left (x ∷ xs) h = ground arith

    by_address :
        (st : LsqState) (b : Bool)
        → contains eq_ℤ a st.hist_addrs ≡ b
        → (contains eq_ℤ a st.hist_addrs ≡ false → st.store_hist a ≡ [])
        → store_order_issues st.store_hist st.hist_addrs ≡ []
        → Ascending (st.store_hist a)
    by_address st true e k i = store_order_issues-Ascending st.store_hist st.hist_addrs a i e
    by_address st false e k i = subst Ascending (sym (k e)) tt
