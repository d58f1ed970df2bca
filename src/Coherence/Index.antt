-- ===== src/Coherence/Index.antt =====
-- `val_vers` of `CoherenceVerifier.run` is an index of `writes` by the values.
use ai_chip_design_platform.Common.{
  ℕ, suc, ℤ, eq_ℤ, eq_ℤ_iff, Bool, true, false, Option, none, some, List, [], ◌∷◌, ◌++◌,
  if◌then◌else◌, length, ◌≡◌, refl, sym, ap, ◌∙◌, arith, if_ind,
}
use ai_chip_design_platform.Coherence.State.{
  Core, Mesi, Op, load, store, norm_op, Event, Write, CoherenceState, set_where,
}
use ai_chip_design_platform.Coherence.Verifier.{
  matched, check_load, do_store, check_swmr, take_state, take_access, enter, take_event,
  check_event, check_events, version_or, index_value,
}

abbrev pub is_write_of : ℤ → Write → Bool
is_write_of v w = elim w.value [ none ↦ false | some x ↦ eq_ℤ v x ]

-- The versions of the writes of a value, in their order.
abbrev pub versions_with : ℤ → List Write → List ℤ
versions_with v [] = []
versions_with v (w ∷ ws) =
    if is_write_of v w then w.ver ∷ versions_with v ws else versions_with v ws

-- `val_vers` is the index of `writes` by values.
abbrev pub IsIndexed : CoherenceState → Type 0
IsIndexed st = (a v : ℤ) → st.val_vers a v ≡ versions_with v (st.writes a)

versions_with-append :
    (v : ℤ) (ws : List Write) (w : Write)
    → versions_with v (ws ++ w ∷ [])
      ≡ (if is_write_of v w then versions_with v ws ++ w.ver ∷ [] else versions_with v ws)
versions_with-append v [] w = ground arith
versions_with-append v (x ∷ ws) w =
    step (is_write_of v x) (is_write_of v w) (versions_with-append v ws w)
  where
    step :
        (b c : Bool)
        → versions_with v (ws ++ w ∷ [])
          ≡ (if c then versions_with v ws ++ w.ver ∷ [] else versions_with v ws)
        → (if b then x.ver ∷ versions_with v (ws ++ w ∷ []) else versions_with v (ws ++ w ∷ [])) ≡ (
            if c
            then (if b then x.ver ∷ versions_with v ws else versions_with v ws) ++ w.ver ∷ []
            else if b
            then x.ver ∷ versions_with v ws
            else versions_with v ws)
    step true true h = cc h
    step true false h = cc h
    step false true h = h
    step false false h = h

-- The index of one address behind a write.
module _ (st : CoherenceState) (h : IsIndexed st) (addr n : ℤ) (core : Core) where
  abbrev written : Option ℤ → List Write
  written value = st.writes addr ++ record { ver = n; value = value; core = core } ∷ []

  unvalued : (v : ℤ) → st.val_vers addr v ≡ versions_with v (written none)
  unvalued v = h addr v ∙ sym (versions_with-append v (st.writes addr) _)

  valued :
      (v x : ℤ)
      → (if eq_ℤ v x then st.val_vers addr x ++ n ∷ [] else st.val_vers addr v)
        ≡ versions_with v (written (some x))
  valued v x =
      by_value (eq_ℤ v x) (λ e. (eq_ℤ_iff v x).0 e)
      ∙ sym (versions_with-append v (st.writes addr) _)
    where
      by_value :
          (b : Bool)
          → (b ≡ true → v ≡ x)
          → (if b then st.val_vers addr x ++ n ∷ [] else st.val_vers addr v) ≡ (
              if b
              then versions_with v (st.writes addr) ++ n ∷ []
              else versions_with v (st.writes addr))
      by_value true f = ap (λ xs. xs ++ n ∷ []) (ap (st.val_vers addr) (sym (f refl)) ∙ h addr v)
      by_value false f = h addr v

  index_value-step :
      (value : Option ℤ) (a v : ℤ)
      → index_value addr value n st.val_vers a v
        ≡ versions_with v (set_where (λ x. eq_ℤ x addr) (written value) st.writes a)
  index_value-step none a v =
      if_ind (λ (ws : List Write). st.val_vers a v ≡ versions_with v ws) (eq_ℤ a addr)
        (λ e. ap (λ x. st.val_vers x v) ((eq_ℤ_iff a addr).0 e) ∙ unvalued v) (λ _. h a v)
  index_value-step (some x) a v = by_address (eq_ℤ a addr)
    where
      by_address :
          (b : Bool)
          → if◌then◌else◌ {A = ℤ → List ℤ} b
              (λ y. if eq_ℤ y x then st.val_vers addr x ++ n ∷ [] else st.val_vers addr y)
              (st.val_vers a)
              v
            ≡ versions_with v (if b then written (some x) else st.writes a)
      by_address true = valued v x
      by_address false = h a v

do_store-IsIndexed :
    (addr : ℤ) (core : Core) (ver value : Option ℤ) (st : CoherenceState)
    → IsIndexed st
    → IsIndexed (do_store addr core ver value st)
unfolding do_store
do_store-IsIndexed addr core ver value st h a v =
    index_value-step st h addr (version_or ver (length (st.writes addr))) core value a v

check_load-IsIndexed :
    (i : ℕ) (addr : ℤ) (core : Core) (value m : Option ℤ) (st : CoherenceState)
    → IsIndexed st
    → IsIndexed (check_load i addr core value m st)
unfolding check_load
check_load-IsIndexed i addr core value none st h = h
check_load-IsIndexed i addr core value (some m) st h = h

take_access-IsIndexed :
    (i : ℕ) (op : Op) (addr : ℤ) (core : Core) (ev : Event) (st : CoherenceState)
    → IsIndexed st
    → IsIndexed (take_access i op addr core ev st)
unfolding take_access
take_access-IsIndexed i load addr core ev st h =
    check_load-IsIndexed i addr core ev.value (matched st addr ev.ver ev.value)
      (record st { loads = suc st.loads }) h
take_access-IsIndexed i store addr core ev st h = do_store-IsIndexed addr core ev.ver ev.value st h

take_state-IsIndexed :
    (i : ℕ) (addr : ℤ) (core : Core) (s : Option Mesi) (st : CoherenceState)
    → IsIndexed st
    → IsIndexed (take_state i addr core s st)
unfolding take_state check_swmr
take_state-IsIndexed i addr core none st h = h
take_state-IsIndexed i addr core (some s) st h = h

pub take_event-IsIndexed :
    (i : ℕ) (op : Option Op) (addr : Option ℤ) (core : Option Core) (ev : Event)
    (st : CoherenceState)
    → IsIndexed st
    → IsIndexed (take_event i op addr core ev st)
unfolding take_event enter
take_event-IsIndexed i none addr core ev st h = h
take_event-IsIndexed i (some op) none core ev st h = h
take_event-IsIndexed i (some op) (some addr) none ev st h = h
take_event-IsIndexed i (some op) (some addr) (some core) ev st h =
    take_state-IsIndexed i addr core ev.state (take_access i op addr core ev (enter addr core st))
      (take_access-IsIndexed i op addr core ev (enter addr core st) h)

pub check_events-IsIndexed :
    (evs : List (ℕ × Event)) (st : CoherenceState) → IsIndexed st → IsIndexed (check_events evs st)
unfolding check_event
check_events-IsIndexed [] st h = h
check_events-IsIndexed ((i, ev) ∷ evs) st h =
    check_events-IsIndexed evs (check_event i ev st)
      (take_event-IsIndexed i (norm_op ev.op) ev.addr ev.core ev st h)
