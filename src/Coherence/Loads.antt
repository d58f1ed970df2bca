-- ===== src/Coherence/Loads.antt =====
-- What a load of a trace without violations reads (`_check_load`).
use ai_chip_design_platform.Common.{
  ℕ, suc, ℤ, pos, negsuc, eq_ℤ, eq_ℤ_iff, ltb_ℤ, Bool, true, false, ◌&&◌, not, ◌||◌, Option, none,
  some, List, [], ◌∷◌, ◌++◌, if◌then◌else◌, ◌≡◌, refl, sym, ap, subst, ◌⊎◌, inl, inr, arith, if_ind,
  append_empty, All, All-map, Any,
}
use ai_chip_design_platform.Coherence.Order.{in_order}
use ai_chip_design_platform.Coherence.State.{
  Core, load, norm_op, Event, Write, Check, coherence_read_monotonic, read_from_valid,
  CoherenceState, new_state,
}
use ai_chip_design_platform.Coherence.Verifier.{
  is_nil, has_version, last_of, match_value, matched, check_load, take_access, enter, take_event,
  check_event, check_events, run, passes,
}
use ai_chip_design_platform.Coherence.Growth.{take_state-grows, check_events-grows, passes-before}
use ai_chip_design_platform.Coherence.Index.{is_write_of, versions_with, IsIndexed}
use ai_chip_design_platform.Coherence.Trace.{youngest_first, writes_to, versions_seen}
use ai_chip_design_platform.Coherence.Seen.{IsRecent, Tracks, run-Tracks}

has_version-Any :
    (n : ℤ) (ws : List Write) → has_version n ws ≡ true → Any (λ (w : Write). w.ver ≡ n) ws
has_version-Any n [] h = ground arith
has_version-Any n (w ∷ ws) h =
    by_first (eq_ℤ w.ver n) (λ e. (eq_ℤ_iff w.ver n).0 e) h (has_version-Any n ws)
  where
    by_first :
        (b : Bool)
        → (b ≡ true → w.ver ≡ n)
        → (b || has_version n ws) ≡ true
        → (has_version n ws ≡ true → Any (λ (w : Write). w.ver ≡ n) ws)
        → (w.ver ≡ n) ⊎ Any (λ (w : Write). w.ver ≡ n) ws
    by_first true f h k = inl (f refl)
    by_first false f h k = inr (k h)

-- A write of a version and a value.
abbrev pub Wrote : ℤ → ℤ → Write → Type 0
Wrote n v w = (w.ver ≡ n) × (w.value ≡ some v)

versions_with-Any : (v : ℤ) (ws : List Write) → All (λ n. Any (Wrote n v) ws) (versions_with v ws)
versions_with-Any v [] = tt
versions_with-Any v (w ∷ ws) =
    let later : All (λ n. Any (Wrote n v) (w ∷ ws)) (versions_with v ws) =
      All-map (versions_with v ws) (λ n h. inr h) (versions_with-Any v ws) in
    if_ind (λ (xs : List ℤ). All (λ n. Any (Wrote n v) (w ∷ ws)) xs) (is_write_of v w)
      (λ e. (inl (refl, of_value w.value e), later)) (λ _. later)
  where
    of_value : (o : Option ℤ) → elim o [ none ↦ false | some x ↦ eq_ℤ v x ] ≡ true → o ≡ some v
    of_value none h = ground arith
    of_value (some x) h = ap some (sym ((eq_ℤ_iff v x).0 h))

last_of-All : (P : ℤ → Type 0) (x : ℤ) (xs : List ℤ) → All P (x ∷ xs) → P (last_of x xs)
last_of-All P x [] h = h.0
last_of-All P x (y ∷ xs) h = last_of-All P y xs h.1

-- What a load of the value `v` reads, of the writes of its address, where its core has seen some
-- versions there: a write of the version that it tells, or else of its value, and none below a
-- version that was seen; or the initial zero.
pub data ReadsFrom (writes : List Write) (seen : List ℤ) (v : ℤ) : Option ℤ → Type 0 where
  reads_version :
      {n : ℤ}
      → Any (λ (w : Write). w.ver ≡ n) writes
      → IsRecent n seen
      → ReadsFrom writes seen v (some n)
  reads_value : (n : ℤ) → Any (Wrote n v) writes → IsRecent n seen → ReadsFrom writes seen v none
  reads_zero : writes ≡ [] → v ≡ pos 0 → IsRecent (negsuc 0) seen → ReadsFrom writes seen v none

-- A load that is not reported is of a version that is no older than what its core has seen.
check_load-silent :
    (i : ℕ) (addr : ℤ) (core : Core) (v : ℤ) (m : Option ℤ) (st : CoherenceState)
    → (check_load i addr core (some v) m st).violations ≡ []
    → (n : ℤ) × (m ≡ some n) × (ltb_ℤ n (st.last_seen core addr) ≡ false)
unfolding check_load
check_load-silent i addr core v none st h =
    absurd (told (is_nil (st.writes addr)) (eq_ℤ v (pos 0)) (append_empty _ _ h).1)
  where
    told :
        (a b : Bool)
        → if◌then◌else◌ {A = List (ℕ × Check)}
            (a && not b)
            ((i, read_from_valid) ∷ [])
            ((i, read_from_valid) ∷ [])
          ≡ []
        → ⊥
    told true true h = cc
    told true false h = cc
    told false b h = cc
check_load-silent i addr core v (some n) st h =
    (n, refl, silent (ltb_ℤ n (st.last_seen core addr)) (append_empty _ _ h).1)
  where
    silent :
        (b : Bool)
        → if◌then◌else◌ {A = List (ℕ × Check)} b ((i, coherence_read_monotonic) ∷ []) [] ≡ []
        → b ≡ false
    silent false h = refl
    silent true h = cc

matched-ReadsFrom :
    (st : CoherenceState) (addr v n : ℤ) (seen : List ℤ) (ver : Option ℤ)
    → IsIndexed st
    → matched st addr ver (some v) ≡ some n
    → IsRecent n seen
    → ReadsFrom (st.writes addr) seen v ver
matched-ReadsFrom st addr v n seen (some m) h e k =
    by_test (has_version m (st.writes addr)) (has_version-Any m (st.writes addr)) e
  where
    by_test :
        (b : Bool)
        → (b ≡ true → Any (λ (w : Write). w.ver ≡ m) (st.writes addr))
        → (if b then some m else none) ≡ some n
        → ReadsFrom (st.writes addr) seen v (some m)
    by_test true f e = reads_version (f refl) (subst (λ x. IsRecent x seen) (sym (same e)) k)
      where
        same : some m ≡ some n → m ≡ n
        same e = cc e
    by_test false f e = cc e
matched-ReadsFrom st addr v n seen none h e k =
    by_versions (st.val_vers addr v)
      (subst (All (λ x. Any (Wrote x v) (st.writes addr))) (sym (h addr v))
        (versions_with-Any v (st.writes addr)))
      e
  where
    untouched :
        (ws : List Write)
        → (if is_nil ws && eq_ℤ v (pos 0) then some (negsuc 0) else none) ≡ some n
        → (ws ≡ []) × (v ≡ pos 0) × (negsuc 0 ≡ n)
    untouched [] e = by_zero (eq_ℤ v (pos 0)) (λ x. (eq_ℤ_iff v (pos 0)).0 x) e
      where
        by_zero :
            (b : Bool)
            → (b ≡ true → v ≡ pos 0)
            → (if b then some (negsuc 0) else none) ≡ some n
            → (◌≡◌ {A = List Write} [] []) × (v ≡ pos 0) × (negsuc 0 ≡ n)
        by_zero true f e = (refl, f refl, cc e)
        by_zero false f e = cc e
    untouched (w ∷ ws) e = cc e

    by_versions :
        (ns : List ℤ)
        → All (λ x. Any (Wrote x v) (st.writes addr)) ns
        → match_value (st.writes addr) (some v) ns ≡ some n
        → ReadsFrom (st.writes addr) seen v none
    by_versions [] all e =
        let zero = untouched (st.writes addr) e in
        reads_zero zero.0 zero.1 (subst (λ x. IsRecent x seen) (sym zero.2) k)
    by_versions (x ∷ ns) all e =
        reads_value (last_of x ns) (last_of-All (λ y. Any (Wrote y v) (st.writes addr)) x ns all)
          (subst (λ y. IsRecent y seen) (sym (same e)) k)
      where
        same : some (last_of x ns) ≡ some n → last_of x ns ≡ n
        same e = cc e

-- What a load does to the checks, where its fields are as told.
take_load-ReadsFrom :
    (i : ℕ) (addr : ℤ) (core : Core) (v : ℤ) (ev : Event) (st : CoherenceState)
    → (past : List (ℕ × Event)) → Tracks past st
    → ev.value ≡ some v
    → (take_event i (some load) (some addr) (some core) ev st).violations ≡ []
    → ReadsFrom (writes_to addr past) (versions_seen core addr past) v ev.ver
unfolding take_event take_access enter
take_load-ReadsFrom i addr core v ev st past t e silent =
    let entered : CoherenceState = enter addr core st in
    let loading : CoherenceState = record entered { loads = suc st.loads } in
    let m : Option ℤ = matched st addr ev.ver (some v) in
    let found = check_load-silent i addr core v m loading (
      subst (λ x. (check_load i addr core x (matched st addr ev.ver x) loading).violations ≡ []) e
        (take_state-grows i addr core ev.state
          (check_load i addr core ev.value (matched st addr ev.ver ev.value) loading) silent)) in
    subst (λ ws. ReadsFrom ws (versions_seen core addr past) v ev.ver) (t.writes addr)
      (matched-ReadsFrom st addr v found.0 (versions_seen core addr past) ev.ver t.index found.1
        (t.seen core addr found.0 found.2))

-- If a trace passes the verifier, each load that tells an address, a core and a value reads, of the
-- writes that came before it in the order of the cycles, one of the version that it tells, or else
-- one of its value, and no older one than any that its core has written or read at the address; or
-- it tells 0 of an address never written, and its core has seen no later version there. A load that
-- tells no version counts as a read of the last write of its value.
pub run-ReadsFrom :
    (events : List Event) (before later : List (ℕ × Event)) (i : ℕ) (ev : Event) (addr v : ℤ)
    (core : Core)
    → in_order (λ (x : Event). x.cycle) events ≡ before ++ (i, ev) ∷ later
    → passes (run events) ≡ true
    → norm_op ev.op ≡ some load
    → ev.addr ≡ some addr
    → ev.core ≡ some core
    → ev.value ≡ some v
    → let past = youngest_first before [] in
      ReadsFrom (writes_to addr past) (versions_seen core addr past) v ev.ver
unfolding check_event
run-ReadsFrom events before later i ev addr v core h p is_load at by told =
    take_load-ReadsFrom i addr core v ev st (youngest_first before []) (run-Tracks before) told (
      subst (λ c. (take_event i (some load) (some addr) c ev st).violations ≡ []) by
        (subst (λ a. (take_event i (some load) a ev.core ev st).violations ≡ []) at
          (subst (λ o. (take_event i o ev.addr ev.core ev st).violations ≡ []) is_load
            (check_events-grows later (check_event i ev st)
              (passes-before events p before ((i, ev) ∷ later) h)))))
  where
    st : CoherenceState
    st = check_events before new_state
