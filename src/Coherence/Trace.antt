-- ===== src/Coherence/Trace.antt =====
-- What the events themselves tell: the writes of an address, the versions that a core has seen there
-- and the states of the lines, without the dicts of `CoherenceVerifier.run`. Events are listed with
-- the youngest first.
use ai_chip_design_platform.Common.{
  ℕ, ℤ, pos, negsuc, eq_ℤ, Bool, true, false, ◌&&◌, ◌||◌, Option, none, some, List, [], ◌∷◌, ◌++◌,
  length, if◌then◌else◌,
}
use ai_chip_design_platform.Coherence.State.{
  Core, eq_core, Mesi, invalid, Op, load, store, norm_op, Event, Write,
}

abbrev pub youngest_first : List (ℕ × Event) → List (ℕ × Event) → List (ℕ × Event)
youngest_first [] past = past
youngest_first (e ∷ es) past = youngest_first es (e ∷ past)

-- A store that tells no version has the number of the writes of its address before it.
abbrev pub version_of : Option ℤ → List Write → ℤ
version_of none ws = pos (length ws)
version_of (some n) ws = n

abbrev pub write_of : Option Op → Option ℤ → Option Core → Event → ℤ → List Write → List Write
write_of (some store) (some b) (some c) ev a ws =
    if eq_ℤ a b then record { ver = version_of ev.ver ws; value = ev.value; core = c } ∷ [] else []
write_of _ _ _ ev a ws = []

-- The writes of an address, the oldest first.
abbrev pub writes_to : ℤ → List (ℕ × Event) → List Write
writes_to a [] = []
writes_to a ((i, ev) ∷ past) =
    writes_to a past ++ write_of (norm_op ev.op) ev.addr ev.core ev a (writes_to a past)

abbrev pub wrote_version : ℤ → List Write → Bool
wrote_version n [] = false
wrote_version n (w ∷ ws) = eq_ℤ w.ver n || wrote_version n ws

abbrev pub wrote_value : ℤ → Write → Bool
wrote_value v w = elim w.value [ none ↦ false | some x ↦ eq_ℤ v x ]

-- The version of the last write of a value.
abbrev pub last_version : ℤ → List Write → Option ℤ
last_version v [] = none
last_version v (w ∷ ws) = elim (last_version v ws) [
  | some n ↦ some n
  | none ↦ if wrote_value v w then some w.ver else none
]

abbrev pub initial_version : List Write → Bool → List ℤ
initial_version [] true = negsuc 0 ∷ []
initial_version _ _ = []

-- The version that a load reads, if any is known: the one that it tells, if there is such a write;
-- else that of the last write of its value; else -1 for the initial value.
abbrev pub version_read : List Write → (ver value : Option ℤ) → List ℤ
version_read ws (some n) value = if wrote_version n ws then n ∷ [] else []
version_read ws none none = initial_version ws true
version_read ws none (some v) = elim (last_version v ws) [
  | some n ↦ n ∷ []
  | none ↦ initial_version ws (eq_ℤ v (pos 0))
]

abbrev pub version_at : Op → Event → List Write → List ℤ
version_at store ev ws = version_of ev.ver ws ∷ []
version_at load ev ws = version_read ws ev.ver ev.value

abbrev pub version_seen :
    Option Op → Option ℤ → Option Core → Event → Core → ℤ → List Write → List ℤ
version_seen (some op) (some b) (some d) ev c a ws =
    if eq_core c d && eq_ℤ a b then version_at op ev ws else []
version_seen _ _ _ ev c a ws = []

-- The versions that a core has written or read at an address.
abbrev pub versions_seen : Core → ℤ → List (ℕ × Event) → List ℤ
versions_seen c a [] = []
versions_seen c a ((i, ev) ∷ past) =
    version_seen (norm_op ev.op) ev.addr ev.core ev c a (writes_to a past) ++ versions_seen c a past

abbrev pub state_told : Option Op → Option ℤ → Option Core → Option Mesi → Core → ℤ → Mesi → Mesi
state_told (some op) (some b) (some d) (some s) c a old = if eq_core c d && eq_ℤ a b then s else old
state_told _ _ _ _ c a old = old

-- The state of a line that was told last for a core, invalid before any.
abbrev pub last_told : List (ℕ × Event) → Core → ℤ → Mesi
last_told [] c a = invalid
last_told ((i, ev) ∷ past) c a =
    state_told (norm_op ev.op) ev.addr ev.core ev.state c a (last_told past c a)
