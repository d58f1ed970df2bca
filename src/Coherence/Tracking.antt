-- ===== src/Coherence/Tracking.antt =====
-- The dicts of `CoherenceVerifier.run` hold what the events tell.
use ai_chip_design_platform.Common.{
  ℕ, ℤ, pos, negsuc, eq_ℤ, eq_ℤ_iff, Bool, true, false, ◌&&◌, ◌||◌, Option, none, some, List, [],
  ◌∷◌, ◌++◌, append-nil, length, if◌then◌else◌, ◌≡◌, refl, sym, ap, ◌∙◌,
}
use ai_chip_design_platform.Coherence.State.{
  Core, eq_core, Mesi, Op, load, store, Event, Write, CoherenceState,
}
use ai_chip_design_platform.Coherence.Verifier.{
  is_nil, has_version, last_of, match_value, matched, check_load, version_or, do_store, check_swmr,
  take_state, take_access, enter, take_event,
}
use ai_chip_design_platform.Coherence.Index.{is_write_of, versions_with, IsIndexed}
use ai_chip_design_platform.Coherence.Trace.{
  version_of, write_of, wrote_version, last_version, initial_version, version_read, state_told,
}

abbrev pub to_list : Option ℤ → List ℤ
to_list none = []
to_list (some n) = n ∷ []

abbrev last_in : List ℤ → Option ℤ
last_in [] = none
last_in (x ∷ xs) = some (last_of x xs)

last_version-last_in : (v : ℤ) (ws : List Write) → last_version v ws ≡ last_in (versions_with v ws)
last_version-last_in v [] = refl
last_version-last_in v (w ∷ ws) =
    step (is_write_of v w) (versions_with v ws) (last_version-last_in v ws)
  where
    step :
        (b : Bool) (vs : List ℤ)
        → last_version v ws ≡ last_in vs
        → (elim (last_version v ws) as (λ _. Option ℤ) [
          | some n ↦ some n
          | none ↦ if b then some w.ver else none
        ])
          ≡ last_in (if b then w.ver ∷ vs else vs)
    step true [] h = cc h
    step true (x ∷ vs) h = cc h
    step false [] h = cc h
    step false (x ∷ vs) h = cc h

has_version-wrote_version : (n : ℤ) (ws : List Write) → wrote_version n ws ≡ has_version n ws
has_version-wrote_version n [] = refl
has_version-wrote_version n (w ∷ ws) = ap (λ b. eq_ℤ w.ver n || b) (has_version-wrote_version n ws)

initial_version-to_list :
    (ws : List Write) (b : Bool)
    → initial_version ws b ≡ to_list (if is_nil ws && b then some (negsuc 0) else none)
initial_version-to_list [] true = refl
initial_version-to_list [] false = refl
initial_version-to_list (w ∷ ws) b = refl

pub version_read-matched :
    (st : CoherenceState) (a : ℤ) (ver value : Option ℤ)
    → IsIndexed st
    → version_read (st.writes a) ver value ≡ to_list (matched st a ver value)
version_read-matched st a (some n) value h =
    ap (λ b. if b then n ∷ [] else []) (has_version-wrote_version n (st.writes a))
    ∙ by_test (has_version n (st.writes a))
  where
    by_test : (b : Bool) → (if b then n ∷ [] else []) ≡ to_list (if b then some n else none)
    by_test true = refl
    by_test false = refl
version_read-matched st a none none h = initial_version-to_list (st.writes a) true
version_read-matched st a none (some v) h =
    ap given (last_version-last_in v (st.writes a))
    ∙ by_versions (versions_with v (st.writes a))
    ∙ ap (λ vs. to_list (match_value (st.writes a) (some v) vs)) (sym (h a v))
  where
    given : Option ℤ → List ℤ
    given o = elim o [ some n ↦ n ∷ [] | none ↦ initial_version (st.writes a) (eq_ℤ v (pos 0)) ]

    by_versions :
        (vs : List ℤ) → given (last_in vs) ≡ to_list (match_value (st.writes a) (some v) vs)
    by_versions [] = initial_version-to_list (st.writes a) (eq_ℤ v (pos 0))
    by_versions (x ∷ vs) = refl

-- The dicts behind an access are those behind the event.
pub take_state-dicts :
    (i : ℕ) (addr : ℤ) (core : Core) (s : Option Mesi) (st : CoherenceState)
    → ((take_state i addr core s st).writes ≡ st.writes)
      × ((take_state i addr core s st).last_seen ≡ st.last_seen)
unfolding take_state check_swmr
take_state-dicts i addr core none st = (refl, refl)
take_state-dicts i addr core (some s) st = (refl, refl)

check_load-dicts :
    (i : ℕ) (addr : ℤ) (core : Core) (value m : Option ℤ) (st : CoherenceState)
    → ((check_load i addr core value m st).writes ≡ st.writes)
      × ((check_load i addr core value m st).state ≡ st.state)
unfolding check_load
check_load-dicts i addr core value none st = (refl, refl)
check_load-dicts i addr core value (some m) st = (refl, refl)

pub version_or-version_of :
    (ver : Option ℤ) (ws : List Write) → version_or ver (length ws) ≡ version_of ver ws
version_or-version_of none ws = refl
version_or-version_of (some n) ws = refl

take_access-writes :
    (i : ℕ) (op : Op) (addr : ℤ) (core : Core) (ev : Event) (st : CoherenceState) (a : ℤ)
    → (take_access i op addr core ev st).writes a
      ≡ st.writes a ++ write_of (some op) (some addr) (some core) ev a (st.writes a)
unfolding take_access do_store
take_access-writes i load addr core ev st a =
    ap (λ f. f a) (check_load-dicts i addr core ev.value (matched st addr ev.ver ev.value) _).0
    ∙ sym (append-nil (st.writes a))
take_access-writes i store addr core ev st a = by_address (eq_ℤ a addr) (λ e. (eq_ℤ_iff a addr).0 e)
  where
    stored : ℤ → Write
    stored n = record { ver = n; value = ev.value; core = core }

    by_address :
        (b : Bool)
        → (b ≡ true → a ≡ addr)
        → (if b
            then st.writes addr ++ stored (version_or ev.ver (length (st.writes addr))) ∷ []
            else st.writes a)
          ≡ st.writes a ++ (if b then stored (version_of ev.ver (st.writes a)) ∷ [] else [])
    by_address true f =
        ap (λ n. st.writes addr ++ stored n ∷ []) (version_or-version_of ev.ver (st.writes addr))
        ∙ ap (λ x. st.writes x ++ stored (version_of ev.ver (st.writes x)) ∷ []) (sym (f refl))
    by_address false f = sym (append-nil (st.writes a))

pub take_event-writes :
    (i : ℕ) (op : Option Op) (addr : Option ℤ) (core : Option Core) (ev : Event)
    (st : CoherenceState) (a : ℤ)
    → (take_event i op addr core ev st).writes a
      ≡ st.writes a ++ write_of op addr core ev a (st.writes a)
unfolding take_event enter
take_event-writes i none addr core ev st a = sym (append-nil (st.writes a))
take_event-writes i (some load) none core ev st a = sym (append-nil (st.writes a))
take_event-writes i (some store) none core ev st a = sym (append-nil (st.writes a))
take_event-writes i (some load) (some addr) none ev st a = sym (append-nil (st.writes a))
take_event-writes i (some store) (some addr) none ev st a = sym (append-nil (st.writes a))
take_event-writes i (some op) (some addr) (some core) ev st a =
    ap (λ f. f a) (take_state-dicts i addr core ev.state _).0
    ∙ take_access-writes i op addr core ev (enter addr core st) a

-- The states.
take_access-state :
    (i : ℕ) (op : Op) (addr : ℤ) (core : Core) (ev : Event) (st : CoherenceState)
    → (take_access i op addr core ev st).state ≡ st.state
unfolding take_access do_store
take_access-state i load addr core ev st =
    (check_load-dicts i addr core ev.value (matched st addr ev.ver ev.value) _).1
take_access-state i store addr core ev st = refl

take_state-state :
    (i : ℕ) (op : Op) (addr : ℤ) (core : Core) (s : Option Mesi) (st : CoherenceState) (c : Core)
    (a : ℤ)
    → (take_state i addr core s st).state c a
      ≡ state_told (some op) (some addr) (some core) s c a (st.state c a)
unfolding take_state check_swmr
take_state-state i op addr core none st c a = refl
take_state-state i op addr core (some s) st c a = by_tests (eq_core c core) (eq_ℤ a addr)
  where
    by_tests :
        (x y : Bool)
        → (if x then if y then s else st.state c a else st.state c a)
          ≡ (if x && y then s else st.state c a)
    by_tests true y = refl
    by_tests false y = refl

pub take_event-state :
    (i : ℕ) (op : Option Op) (addr : Option ℤ) (core : Option Core) (ev : Event)
    (st : CoherenceState) (c : Core) (a : ℤ)
    → (take_event i op addr core ev st).state c a
      ≡ state_told op addr core ev.state c a (st.state c a)
unfolding take_event enter
take_event-state i none addr core ev st c a = refl
take_event-state i (some op) none core ev st c a = refl
take_event-state i (some op) (some addr) none ev st c a = refl
take_event-state i (some op) (some addr) (some core) ev st c a =
    take_state-state i op addr core ev.state _ c a
    ∙ ap (λ f. state_told (some op) (some addr) (some core) ev.state c a (f c a))
        (take_access-state i op addr core ev (enter addr core st))
