-- ===== src/Coherence/Seen.antt =====
-- `last_seen` of `CoherenceVerifier.run` is no less than any version that a core has seen, and the
-- verifier's state behind some events is what they tell.
use ai_chip_design_platform.Common.{
  ℕ, suc, ℤ, eq_ℤ, eq_ℤ_iff, ltb_ℤ, Bool, true, false, ◌&&◌, Option, none, some, List, [], ◌∷◌,
  ◌++◌, length, if◌then◌else◌, ◌≡◌, refl, sym, ap, subst, ◌∙◌, arith, All, All-append, if_ind,
}
use ai_chip_design_platform.Coherence.State.{
  Core, eq_core, eq_core_iff, Op, load, store, norm_op, Event, CoherenceState, new_state,
  set_core_addr, max_ℤ,
}
use ai_chip_design_platform.Coherence.Verifier.{
  matched, check_load, version_or, do_store, take_access, enter, take_event, check_event,
  check_events,
}
use ai_chip_design_platform.Coherence.Index.{IsIndexed, take_event-IsIndexed}
use ai_chip_design_platform.Coherence.Trace.{
  youngest_first, version_of, write_of, writes_to, version_read, version_seen, versions_seen,
  state_told, last_told,
}
use ai_chip_design_platform.Coherence.Tracking.{
  to_list, version_read-matched, version_or-version_of, take_state-dicts, take_event-writes,
  take_event-state,
}

-- `n` is not below any of the versions.
abbrev pub IsRecent : ℤ → List ℤ → Type 0
IsRecent n = All (λ m. ltb_ℤ n m ≡ false)

max_bounds : (l m n : ℤ) → ltb_ℤ n (max_ℤ l m) ≡ false → (ltb_ℤ n l ≡ false) × (ltb_ℤ n m ≡ false)
max_bounds l m n h = (ground arith, ground arith)

-- An update of `last_seen` by a version.
set_seen :
    (core c : Core) (addr a m n : ℤ) (last : Core → ℤ → ℤ)
    → ltb_ℤ n (set_core_addr core addr (max_ℤ (last core addr) m) last c a) ≡ false
    → (ltb_ℤ n (last c a) ≡ false)
      × IsRecent n (if eq_core c core && eq_ℤ a addr then m ∷ [] else [])
set_seen core c addr a m n last =
    by_tests (eq_core c core) (eq_ℤ a addr) (λ e. (eq_core_iff c core).0 e)
      (λ e. (eq_ℤ_iff a addr).0 e)
  where
    by_tests :
        (x y : Bool)
        → (x ≡ true → c ≡ core)
        → (y ≡ true → a ≡ addr)
        → ltb_ℤ n (if x then if y then max_ℤ (last core addr) m else last c a else last c a) ≡ false
        → (ltb_ℤ n (last c a) ≡ false) × IsRecent n (if x && y then m ∷ [] else [])
    by_tests true true f g h =
        let parts = max_bounds (last core addr) m n h in
        (
          subst (λ d. ltb_ℤ n (last d a) ≡ false) (sym (f refl))
              (subst (λ b. ltb_ℤ n (last core b) ≡ false) (sym (g refl)) parts.0),
          (parts.1, tt),
        )
    by_tests true false f g h = (h, tt)
    by_tests false y f g h = (h, tt)

check_load-seen :
    (i : ℕ) (addr : ℤ) (core : Core) (value m : Option ℤ) (st : CoherenceState) (c : Core) (a n : ℤ)
    → ltb_ℤ n ((check_load i addr core value m st).last_seen c a) ≡ false
    → (ltb_ℤ n (st.last_seen c a) ≡ false)
      × IsRecent n (if eq_core c core && eq_ℤ a addr then to_list m else [])
unfolding check_load
check_load-seen i addr core value none st c a n h =
    (h, if_ind (IsRecent n) (eq_core c core && eq_ℤ a addr) (λ _. tt) (λ _. tt))
check_load-seen i addr core value (some m) st c a n h = set_seen core c addr a m n st.last_seen h

-- The versions under a test of the address are those of the address that is tested.
at_address :
    (x : Bool) (a addr : ℤ) (f : ℤ → List ℤ)
    → (if x && eq_ℤ a addr then f addr else []) ≡ (if x && eq_ℤ a addr then f a else [])
at_address x a addr f = by_tests x (eq_ℤ a addr) (λ e. (eq_ℤ_iff a addr).0 e)
  where
    by_tests :
        (x y : Bool)
        → (y ≡ true → a ≡ addr)
        → (if x && y then f addr else []) ≡ (if x && y then f a else [])
    by_tests true true g = ap f (sym (g refl))
    by_tests true false g = refl
    by_tests false y g = refl

take_access-seen :
    (i : ℕ) (op : Op) (addr : ℤ) (core : Core) (ev : Event) (st : CoherenceState) (c : Core)
    (a n : ℤ)
    → IsIndexed st
    → ltb_ℤ n ((take_access i op addr core ev st).last_seen c a) ≡ false
    → (ltb_ℤ n (st.last_seen c a) ≡ false)
      × IsRecent n (version_seen (some op) (some addr) (some core) ev c a (st.writes a))
unfolding take_access do_store
take_access-seen i load addr core ev st c a n k h =
    let seen =
      check_load-seen i addr core ev.value (matched st addr ev.ver ev.value)
        (record st { loads = suc st.loads }) c a n h in
    (
      seen.0,
      subst (IsRecent n)
          (ap (λ vs. if eq_core c core && eq_ℤ a addr then vs else [])
              (sym (version_read-matched st addr ev.ver ev.value k))
            ∙ at_address (eq_core c core) a addr (λ b. version_read (st.writes b) ev.ver ev.value))
          seen.1,
    )
take_access-seen i store addr core ev st c a n k h =
    let seen =
      set_seen core c addr a (version_or ev.ver (length (st.writes addr))) n st.last_seen h in
    (
      seen.0,
      subst (IsRecent n)
          (ap (λ m. if eq_core c core && eq_ℤ a addr then m ∷ [] else [])
              (version_or-version_of ev.ver (st.writes addr))
            ∙ at_address (eq_core c core) a addr (λ b. version_of ev.ver (st.writes b) ∷ []))
          seen.1,
    )

take_event-seen :
    (i : ℕ) (op : Option Op) (addr : Option ℤ) (core : Option Core) (ev : Event)
    (st : CoherenceState) (c : Core) (a n : ℤ)
    → IsIndexed st
    → ltb_ℤ n ((take_event i op addr core ev st).last_seen c a) ≡ false
    → (ltb_ℤ n (st.last_seen c a) ≡ false)
      × IsRecent n (version_seen op addr core ev c a (st.writes a))
unfolding take_event enter
take_event-seen i none addr core ev st c a n k h = (h, tt)
take_event-seen i (some op) none core ev st c a n k h = (h, tt)
take_event-seen i (some op) (some addr) none ev st c a n k h = (h, tt)
take_event-seen i (some op) (some addr) (some core) ev st c a n k h =
    take_access-seen i op addr core ev (enter addr core st) c a n k
      (subst (λ f. ltb_ℤ n (f c a) ≡ false) (take_state-dicts i addr core ev.state _).1 h)

-- The state is what the events tell.
pub record Tracks (past : List (ℕ × Event)) (st : CoherenceState) : Type 0 where
  pub index : IsIndexed st
  pub writes : (a : ℤ) → st.writes a ≡ writes_to a past
  pub state : (c : Core) (a : ℤ) → st.state c a ≡ last_told past c a
  pub seen :
      (c : Core) (a n : ℤ)
      → ltb_ℤ n (st.last_seen c a) ≡ false
      → IsRecent n (versions_seen c a past)

check_event-Tracks :
    (i : ℕ) (ev : Event) (past : List (ℕ × Event)) (st : CoherenceState)
    → Tracks past st
    → Tracks ((i, ev) ∷ past) (check_event i ev st)
unfolding check_event
check_event-Tracks i ev past st t = record {
  index = take_event-IsIndexed i (norm_op ev.op) ev.addr ev.core ev st t.index;
  writes = λ a.
      take_event-writes i (norm_op ev.op) ev.addr ev.core ev st a
      ∙ ap (λ ws. ws ++ write_of (norm_op ev.op) ev.addr ev.core ev a ws) (t.writes a);
  state = λ c a.
      take_event-state i (norm_op ev.op) ev.addr ev.core ev st c a
      ∙ ap (state_told (norm_op ev.op) ev.addr ev.core ev.state c a) (t.state c a);
  seen = λ c a n h.
      let parts = take_event-seen i (norm_op ev.op) ev.addr ev.core ev st c a n t.index h in
      All-append _ (version_seen (norm_op ev.op) ev.addr ev.core ev c a (writes_to a past)) _
        (subst (λ ws. IsRecent n (version_seen (norm_op ev.op) ev.addr ev.core ev c a ws))
          (t.writes a) parts.1)
        (t.seen c a n parts.0);
}

check_events-Tracks :
    (evs past : List (ℕ × Event)) (st : CoherenceState)
    → Tracks past st
    → Tracks (youngest_first evs past) (check_events evs st)
check_events-Tracks [] past st t = t
check_events-Tracks ((i, ev) ∷ evs) past st t =
    check_events-Tracks evs ((i, ev) ∷ past) (check_event i ev st)
      (check_event-Tracks i ev past st t)

pub run-Tracks :
    (before : List (ℕ × Event)) → Tracks (youngest_first before []) (check_events before new_state)
run-Tracks before =
    check_events-Tracks before [] new_state (record {
      index = λ a v. refl;
      writes = λ a. refl;
      state = λ c a. refl;
      seen = λ c a n h. tt;
    })
