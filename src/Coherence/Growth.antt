-- ===== src/Coherence/Growth.antt =====
-- No step of the verifier takes a violation back.
use ai_chip_design_platform.Common.{
  ℕ, suc, ℤ, Option, none, some, true, List, [], ◌∷◌, ◌++◌, length, ◌==◌, ◌≡◌, refl, sym, ap, ◌∙◌,
  arith, append_empty,
}
use ai_chip_design_platform.Coherence.Order.{in_order}
use ai_chip_design_platform.Coherence.State.{
  Core, Mesi, Op, load, store, norm_op, Event, Check, CoherenceState, new_state,
}
use ai_chip_design_platform.Coherence.Verifier.{
  matched, check_load, do_store, check_swmr, take_state, take_access, enter, take_event,
  check_event, check_events, run, passes,
}

pub check_load-grows :
    (i : ℕ) (addr : ℤ) (core : Core) (value m : Option ℤ) (st : CoherenceState)
    → (check_load i addr core value m st).violations ≡ []
    → st.violations ≡ []
unfolding check_load
check_load-grows i addr core value none st h = (append_empty _ _ h).0
check_load-grows i addr core value (some m) st h = (append_empty _ _ h).0

pub take_state-grows :
    (i : ℕ) (addr : ℤ) (core : Core) (s : Option Mesi) (st : CoherenceState)
    → (take_state i addr core s st).violations ≡ []
    → st.violations ≡ []
unfolding take_state check_swmr
take_state-grows i addr core none st h = h
take_state-grows i addr core (some s) st h = (append_empty _ _ h).0

take_access-grows :
    (i : ℕ) (op : Op) (addr : ℤ) (core : Core) (ev : Event) (st : CoherenceState)
    → (take_access i op addr core ev st).violations ≡ []
    → st.violations ≡ []
unfolding take_access do_store
take_access-grows i load addr core ev st h =
    check_load-grows i addr core ev.value (matched st addr ev.ver ev.value)
      (record st { loads = suc st.loads }) h
take_access-grows i store addr core ev st h = h

take_event-grows :
    (i : ℕ) (op : Option Op) (addr : Option ℤ) (core : Option Core) (ev : Event)
    (st : CoherenceState)
    → (take_event i op addr core ev st).violations ≡ []
    → st.violations ≡ []
unfolding take_event enter
take_event-grows i none addr core ev st h = h
take_event-grows i (some op) none core ev st h = h
take_event-grows i (some op) (some addr) none ev st h = h
take_event-grows i (some op) (some addr) (some core) ev st h =
    take_access-grows i op addr core ev (enter addr core st)
      (take_state-grows i addr core ev.state (take_access i op addr core ev (enter addr core st)) h)

pub check_events-grows :
    (evs : List (ℕ × Event)) (st : CoherenceState)
    → (check_events evs st).violations ≡ []
    → st.violations ≡ []
unfolding check_event
check_events-grows [] st h = h
check_events-grows ((i, ev) ∷ evs) st h =
    take_event-grows i (norm_op ev.op) ev.addr ev.core ev st
      (check_events-grows evs (check_event i ev st) h)

check_events-append :
    (before later : List (ℕ × Event)) (st : CoherenceState)
    → check_events (before ++ later) st ≡ check_events later (check_events before st)
check_events-append [] later st = refl
check_events-append ((i, ev) ∷ before) later st =
    check_events-append before later (check_event i ev st)

-- A trace that passes has had no violation at any moment, and none at any event.
module _ (events : List Event) (v : passes (run events) ≡ true) where
  pub passes-before :
      (before later : List (ℕ × Event))
      → in_order (λ (ev : Event). ev.cycle) events ≡ before ++ later
      → (check_events later (check_events before new_state)).violations ≡ []
  unfolding run
  passes-before before later h =
      ap (λ (st : CoherenceState). st.violations) (sym (check_events-append before later new_state))
      ∙ ap (λ evs. (check_events evs new_state).violations) (sym h)
      ∙ none_left _ v
    where
      none_left : (xs : List (ℕ × Check)) → (length xs == 0) ≡ true → xs ≡ []
      none_left [] h = refl
      none_left (x ∷ xs) h = ground arith
