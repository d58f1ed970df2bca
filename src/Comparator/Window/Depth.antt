-- ===== src/Comparator/Window/Depth.antt =====
-- The window never holds more than its depth.
use ai_chip_design_platform.Common.{
  ℕ, ◌-◌, ◌≤◌, List, [], ◌∷◌, ◌++◌, ◌≡◌, refl, arith, length, length-drop, if_ind, ◌==◌,
}
use ai_chip_design_platform.Comparator.Entry.{CommitEntry}
use ai_chip_design_platform.Comparator.Window.{
  DeltaWindow, DeltaEntry, Shadow, push, delta, append_ring, replay, replay_all, snapshot,
  zero_state,
}

abbrev pub Fits : DeltaWindow → Type 0
Fits w = length w.ring ≤ w.maxlen

length-append_ring :
    (n : ℕ) (ring : List DeltaEntry) (d : DeltaEntry) → length (append_ring n ring d) ≤ n
length-append_ring n ring d =
    let all = ring ++ d ∷ [] in omega (arith, length-drop (length all - n) all)

pub push-Fits : (e : CommitEntry) (w : DeltaWindow) → Fits w → Fits (push e w)
unfolding push
push-Fits e w h =
    if_ind Fits (w.maxlen == 0) (λ _. h) (λ _. length-append_ring w.maxlen w.ring (delta w.prev e))

pub maxlen-push : (e : CommitEntry) (w : DeltaWindow) → (push e w).maxlen ≡ w.maxlen
unfolding push
maxlen-push e w =
    if_ind (λ (v : DeltaWindow). v.maxlen ≡ w.maxlen) (w.maxlen == 0) (λ _. refl) (λ _. refl)

length-replay_all : (ds : List DeltaEntry) (s : Shadow) → length (replay_all ds s) ≡ length ds
unfolding replay_all
length-replay_all [] s = refl
length-replay_all (d ∷ ds) s = omega (arith, length-replay_all ds (replay d s))

pub length-snapshot : (w : DeltaWindow) → length (snapshot w) ≡ length w.ring
unfolding snapshot
length-snapshot w = length-replay_all w.ring zero_state
