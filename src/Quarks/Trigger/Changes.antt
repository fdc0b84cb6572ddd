-- ===== src/Quarks/Trigger/Changes.antt =====
-- Which updates of a QuarksStatefulSet start a reconcile.
use quarks_statefulset.Prelude.{
  false, ◌≡◌, ◌↔◌, sym, ◌∙◌, false≢true, refl, deep_equal_of_eq, deep_equal_ne,
}
use quarks_statefulset.Kube.Types.{QuarksStatefulSet}
use quarks_statefulset.Kube.Equality.{StringMap-discrete, QuarksStatefulSetSpec-discrete}
use quarks_statefulset.Quarks.Trigger.{has_changed}

-- An update of a QuarksStatefulSet passes exactly if the spec or the labels differ: a change of
-- annotations or of the status alone does not.
has_changed_iff :
    (old new : QuarksStatefulSet)
    → (has_changed old new ≡ false) ↔ ((old.spec ≡ new.spec) × (old.meta.labels ≡ new.meta.labels))
unfolding has_changed
has_changed_iff old new =
    go (QuarksStatefulSetSpec-discrete old.spec new.spec)
      (StringMap-discrete old.meta.labels new.meta.labels)
  where
    go :
        Dec (old.spec ≡ new.spec)
        → Dec (old.meta.labels ≡ new.meta.labels)
        → (has_changed old new ≡ false)
          ↔ ((old.spec ≡ new.spec) × (old.meta.labels ≡ new.meta.labels))
    go (yes a) (yes b) = (
      λ e. (a, b),
      λ h.
          rw
            (
              deep_equal_of_eq QuarksStatefulSetSpec-discrete _ _ a,
              deep_equal_of_eq StringMap-discrete _ _ b,
            )
            refl,
    )
    go (no a) _ = (
      λ e.
          absurd
            (false≢true (sym e ∙ rw (deep_equal_ne QuarksStatefulSetSpec-discrete _ _ a) refl)),
      λ h. absurd (a h.0),
    )
    go (yes a) (no b) = (
      λ e. absurd (
          false≢true (
            sym e
            ∙ rw
                (
                  deep_equal_of_eq QuarksStatefulSetSpec-discrete _ _ a,
                  deep_equal_ne StringMap-discrete _ _ b,
                )
                refl)),
      λ h. absurd (b h.1),
    )
