-- ===== src/Coherence/SingleWriter.antt =====
-- The states that a trace without violations tells have a single writer (`_check_swmr`).
use ai_chip_design_platform.Common.{
  ℕ, suc, ◌<◌, ltb, ℤ, eq_ℤ, eq_ℤ_iff, Bool, true, false, ◌&&◌, ◌||◌, Option, none, some, List, [],
  ◌∷◌, ◌++◌, if◌then◌else◌, contains, ◌≡◌, ◌≢◌, refl, sym, subst, arith, if_ind, append_empty,
}
use ai_chip_design_platform.Coherence.State.{
  Core, eq_core, eq_core_iff, Mesi, is_exclusive, is_valid, Op, load, store, norm_op, Event, Check,
  CoherenceState, new_state, swmr, set_core_addr, add_core,
}
use ai_chip_design_platform.Coherence.Verifier.{
  breaks_swmr, swmr_issues, matched, check_load, do_store, check_swmr, take_state, take_access,
  enter, take_event, check_event, check_events, run, passes,
}
use ai_chip_design_platform.Coherence.Order.{in_order}
use ai_chip_design_platform.Coherence.Growth.{check_events-grows, passes-before}
use ai_chip_design_platform.Coherence.Counting.{count_one, count_two}
use ai_chip_design_platform.Coherence.Trace.{youngest_first, last_told}
use ai_chip_design_platform.Coherence.Seen.{run-Tracks}

abbrev pub HasSingleWriter : (Core → ℤ → Mesi) → ℤ → Type 0
HasSingleWriter state a =
    (c d : Core) → c ≢ d → is_exclusive (state c a) ≡ true → is_valid (state d a) ≡ false

-- All addresses have a single writer, and only cores that were seen hold a line.
pub record IsSwmr (state : Core → ℤ → Mesi) (cores : List Core) : Type 0 where
  pub single : (a : ℤ) → HasSingleWriter state a
  pub seen : (c : Core) (a : ℤ) → is_valid (state c a) ≡ true → contains eq_core c cores ≡ true

exclusive-valid : (s : Mesi) → is_exclusive s ≡ true → is_valid s ≡ true
exclusive-valid s h = ground arith

-- Without a report of `_check_swmr`, the address has a single writer.
breaks_swmr-HasSingleWriter :
    (st : CoherenceState) (a : ℤ)
    → ((c : Core) → is_valid (st.state c a) ≡ true → contains eq_core c st.cores ≡ true)
    → breaks_swmr st a ≡ false
    → HasSingleWriter st.state a
breaks_swmr-HasSingleWriter st a seen h c d ne e = by_valid (is_valid (st.state d a)) refl
  where
    c_valid : is_valid (st.state c a) ≡ true
    c_valid = exclusive-valid (st.state c a) e

    broken : (m n : ℕ) → (ltb 1 m || (ltb 0 m && ltb 1 n)) ≡ false → 0 < m → 1 < n → ⊥
    broken m n h k l = ground arith

    by_valid : (b : Bool) → is_valid (st.state d a) ≡ b → b ≡ false
    by_valid false k = refl
    by_valid true k = absurd (
        broken _ _ h (count_one (λ c. is_exclusive (st.state c a)) c st.cores (seen c c_valid) e) (
          count_two (λ c. is_valid (st.state c a)) c d st.cores ne (seen c c_valid) (seen d k)
            c_valid k))

-- What an access and the entry of a core leave alone.
contains-add_core :
    (c d : Core) (cs : List Core)
    → contains eq_core c cs ≡ true
    → contains eq_core c (add_core d cs) ≡ true
contains-add_core c d cs h =
    if_ind (λ (xs : List Core). contains eq_core c xs ≡ true) (contains eq_core d cs) (λ _. h)
      (λ _. ground (arith, h))

add_core_self : (c : Core) (cs : List Core) → contains eq_core c (add_core c cs) ≡ true
add_core_self c cs =
    if_ind (λ (xs : List Core). contains eq_core c xs ≡ true) (contains eq_core c cs) (λ e. e)
      (λ _. ground (arith, eq_core_iff c c))

enter-IsSwmr :
    (addr : ℤ) (core : Core) (st : CoherenceState)
    → IsSwmr st.state st.cores
    → IsSwmr st.state (enter addr core st).cores
unfolding enter
enter-IsSwmr addr core st h = record {
  single = h.single;
  seen = λ c a e. contains-add_core c core st.cores (h.seen c a e);
}

-- An access changes neither the states nor the cores.
check_load-cores :
    (i : ℕ) (addr : ℤ) (core : Core) (value m : Option ℤ) (st : CoherenceState)
    → ((check_load i addr core value m st).state ≡ st.state)
      × ((check_load i addr core value m st).cores ≡ st.cores)
unfolding check_load
check_load-cores i addr core value none st = (refl, refl)
check_load-cores i addr core value (some m) st = (refl, refl)

take_access-cores :
    (i : ℕ) (op : Op) (addr : ℤ) (core : Core) (ev : Event) (st : CoherenceState)
    → ((take_access i op addr core ev st).state ≡ st.state)
      × ((take_access i op addr core ev st).cores ≡ st.cores)
unfolding take_access do_store
take_access-cores i load addr core ev st =
    check_load-cores i addr core ev.value (matched st addr ev.ver ev.value)
      (record st { loads = suc st.loads })
take_access-cores i store addr core ev st = (refl, refl)

set_core_addr-other :
    (core c : Core) (addr a : ℤ) (s : Mesi) (state : Core → ℤ → Mesi)
    → eq_ℤ a addr ≡ false
    → set_core_addr core addr s state c a ≡ state c a
set_core_addr-other core c addr a s state h = ground (arith, h)

swmr_issues-silent :
    (i : ℕ) (addr : ℤ) (st : CoherenceState)
    → swmr_issues i addr st ≡ []
    → breaks_swmr st addr ≡ false
swmr_issues-silent i addr st = silent (breaks_swmr st addr)
  where
    silent :
        (b : Bool) → if◌then◌else◌ {A = List (ℕ × Check)} b ((i, swmr) ∷ []) [] ≡ [] → b ≡ false
    silent false h = refl
    silent true h = cc

module _ (i : ℕ) (addr : ℤ) (core : Core) (s : Mesi) (st : CoherenceState)
    (known : contains eq_core core st.cores ≡ true) (h : IsSwmr st.state st.cores) where
  abbrev after : CoherenceState
  after = record st { state = set_core_addr core addr s st.state }

  seen_after :
      (c : Core) (a : ℤ) → is_valid (after.state c a) ≡ true → contains eq_core c st.cores ≡ true
  seen_after c a =
      if_ind (λ t. is_valid t ≡ true → contains eq_core c st.cores ≡ true) (eq_core c core)
        (λ e _.
          subst (λ x. contains eq_core x st.cores ≡ true) (sym ((eq_core_iff c core).0 e)) known)
        (λ _. h.seen c a)

  single_after : breaks_swmr after addr ≡ false → (a : ℤ) → HasSingleWriter after.state a
  single_after unbroken a = by_address (eq_ℤ a addr) refl
    where
      by_address : (b : Bool) → eq_ℤ a addr ≡ b → HasSingleWriter after.state a
      by_address true e =
          subst (HasSingleWriter after.state) (sym ((eq_ℤ_iff a addr).0 e))
            (breaks_swmr-HasSingleWriter after addr (λ c. seen_after c addr) unbroken)
      by_address false e = λ c d ne x.
          subst (λ t. is_valid t ≡ false) (sym (set_core_addr-other core d addr a s st.state e))
            (h.single a c d ne (
              subst (λ t. is_exclusive t ≡ true) (set_core_addr-other core c addr a s st.state e)
                x))

  set_state-IsSwmr :
      (take_state i addr core (some s) st).violations ≡ []
      → IsSwmr (take_state i addr core (some s) st).state (take_state i addr core (some s) st).cores
  unfolding take_state check_swmr
  set_state-IsSwmr v = record {
    single = single_after (swmr_issues-silent i addr after (append_empty _ _ v).1);
    seen = seen_after;
  }

take_access-IsSwmr :
    (i : ℕ) (op : Op) (addr : ℤ) (core : Core) (ev : Event) (st : CoherenceState)
    → IsSwmr st.state st.cores
    → IsSwmr (take_access i op addr core ev st).state (take_access i op addr core ev st).cores
take_access-IsSwmr i op addr core ev st h =
    let same = take_access-cores i op addr core ev st in
    subst (λ s. IsSwmr s (take_access i op addr core ev st).cores) (sym same.0)
      (subst (λ cs. IsSwmr st.state cs) (sym same.1) h)

take_access-known :
    (i : ℕ) (op : Op) (addr : ℤ) (core : Core) (ev : Event) (st : CoherenceState)
    → contains eq_core core (take_access i op addr core ev (enter addr core st)).cores ≡ true
unfolding enter
take_access-known i op addr core ev st =
    subst (λ cs. contains eq_core core cs ≡ true)
      (sym (take_access-cores i op addr core ev (enter addr core st)).1)
      (add_core_self core st.cores)

take_event-IsSwmr :
    (i : ℕ) (op : Option Op) (addr : Option ℤ) (core : Option Core) (ev : Event)
    (st : CoherenceState)
    → IsSwmr st.state st.cores
    → (take_event i op addr core ev st).violations ≡ []
    → IsSwmr (take_event i op addr core ev st).state (take_event i op addr core ev st).cores
unfolding take_event take_state enter
take_event-IsSwmr i none addr core ev st h v = h
take_event-IsSwmr i (some op) none core ev st h v = h
take_event-IsSwmr i (some op) (some addr) none ev st h v = h
take_event-IsSwmr i (some op) (some addr) (some core) ev st h v = by_state ev.state v
  where
    accessed : CoherenceState
    accessed = take_access i op addr core ev (enter addr core st)

    kept : IsSwmr accessed.state accessed.cores
    kept = take_access-IsSwmr i op addr core ev (enter addr core st) (enter-IsSwmr addr core st h)

    by_state :
        (s : Option Mesi)
        → (take_state i addr core s accessed).violations ≡ []
        → IsSwmr (take_state i addr core s accessed).state (take_state i addr core s accessed).cores
    by_state none v = kept
    by_state (some s) v =
        set_state-IsSwmr i addr core s accessed (take_access-known i op addr core ev st) kept v

check_events-IsSwmr :
    (evs : List (ℕ × Event)) (st : CoherenceState)
    → IsSwmr st.state st.cores
    → (check_events evs st).violations ≡ []
    → IsSwmr (check_events evs st).state (check_events evs st).cores
unfolding check_event
check_events-IsSwmr [] st h v = h
check_events-IsSwmr ((i, ev) ∷ evs) st h v =
    check_events-IsSwmr evs (check_event i ev st)
      (take_event-IsSwmr i (norm_op ev.op) ev.addr ev.core ev st h
        (check_events-grows evs (check_event i ev st) v))
      v

-- If a trace passes the verifier, then at each moment, in the order of the cycles, no core holds a
-- line for which another core is a writer, by the states that the events told last for each core.
pub run-HasSingleWriter :
    (events : List Event) (before later : List (ℕ × Event))
    → in_order (λ (ev : Event). ev.cycle) events ≡ before ++ later
    → passes (run events) ≡ true
    → (a : ℤ) → HasSingleWriter (last_told (youngest_first before [])) a
run-HasSingleWriter events before later h v a c d ne e =
    let told = (run-Tracks before).state in
    let kept =
      check_events-IsSwmr before new_state
        (record { single = λ a c d ne e. refl; seen = λ c a e. ground (arith, e) })
        (check_events-grows later (check_events before new_state)
          (passes-before events v before later h)) in
    subst (λ t. is_valid t ≡ false) (told d a)
      (kept.single a c d ne (subst (λ t. is_exclusive t ≡ true) (sym (told c a)) e))
