-- ===== src/Quarks/Status/Ready.antt =====
-- When the status reconciler takes a QuarksStatefulSet to be ready, and what it then writes.
use quarks_statefulset.Prelude.{
  true, List, [], ◌∷◌, length, ◌≡◌, ◌↔◌, refl, arith, All, inl, inr, Bool-cases,
}
use quarks_statefulset.Kube.Types.{StatefulSet}
use quarks_statefulset.Quarks.Status.{count_ready, is_ready, all_ready}

abbrev pub AllReady : List StatefulSet → Type 0
AllReady ss = All (λ s. is_ready s ≡ true) ss

count_ready-AllReady : (ss : List StatefulSet) → count_ready ss ≡ length ss → AllReady ss
unfolding count_ready
count_ready-AllReady [] h = tt
count_ready-AllReady (s ∷ ss) h = elim (Bool-cases (is_ready s)) [
  | inl y ↦ (y, count_ready-AllReady ss (ground (arith, h, y)))
  | inr n ↦ ground (arith, h, n)
]

AllReady-count_ready : (ss : List StatefulSet) → AllReady ss → count_ready ss ≡ length ss
unfolding count_ready
AllReady-count_ready [] h = refl
AllReady-count_ready (s ∷ ss) (hs, h) = rw (hs, AllReady-count_ready ss h) refl

-- The count that stops at the first StatefulSet that is not ready reaches the number of
-- StatefulSets exactly if each of them has as many ready replicas as it wants.
pub all_ready_iff :
    (s : StatefulSet) (ss : List StatefulSet) → (all_ready (s ∷ ss) ≡ true) ↔ AllReady (s ∷ ss)
unfolding all_ready
all_ready_iff s ss = (
  λ e. count_ready-AllReady (s ∷ ss) (ground (arith, e)),
  λ h. rw (AllReady-count_ready (s ∷ ss) h) (ground arith),
)
