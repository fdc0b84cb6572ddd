-- ===== src/Quarks/Generate/Pods.antt =====
-- The pods of a StatefulSet that generateSingleStatefulSet (quarksstatefulset_reconciler.go) makes for
-- a zone: where they run, and the variables of their containers.
use quarks_statefulset.Prelude.{
  ℕ, String, false, none, some, List, [], ◌∷◌, ◌++◌, ℤ, pos, ◌≡◌, refl, sym, ◌∙◌, subst, ◌==◌,
  Outcome, ok, err, panic, ok_injective, map_outcome,
}
use quarks_statefulset.Kube.Types.{StatefulSet, QuarksStatefulSet, PodSpec, Container, EnvVar}
use quarks_statefulset.Kube.Env.{Env}
use quarks_statefulset.Quarks.Affinity.{update_affinity, zone_term}
use quarks_statefulset.Quarks.Affinity.Terms.{terms_of, terms_of-update_affinity}
use quarks_statefulset.Quarks.Envs.{
  container_envs, inject_containers, inject_container_env, cons_ok, both_ok,
}
use quarks_statefulset.Quarks.Envs.Upsert.{HasZone, container_envs-HasZone}
use quarks_statefulset.Quarks.Generate.{
  name_prefix, zone_labels, template_annotations, placed, labelled, generate_single_statefulset,
}

-- The containers in order, each with the variables of the zone, and otherwise as it was.
abbrev pub EachHasZone : ℕ → String → ℤ → List Container → List Container → Type 0
EachHasZone index zone replicas [] [] = Unit
EachHasZone index zone replicas [] (c' ∷ cs') = ⊥
EachHasZone index zone replicas (c ∷ cs) [] = ⊥
EachHasZone index zone replicas (c ∷ cs) (c' ∷ cs') =
    (c'.name ≡ c.name)
    × (c'.other ≡ c.other)
    × HasZone index zone replicas c.env c'.env
    × EachHasZone index zone replicas cs cs'

-- What the pods of a zone are, beside those of the template.
pub record IsPlaced (label : String) (index : ℕ) (zone : String) (replicas : ℤ)
    (template s : StatefulSet) : Type 0 where
  pub terms :
      terms_of s
      ≡ terms_of template
        ++ record {
          match_expressions = record { key = label; operator = "In"; values = zone ∷ [] } ∷ [];
          other = "";
        }
          ∷ []
  pub containers :
      EachHasZone index zone replicas template.spec.template.spec.containers
        s.spec.template.spec.containers
  pub init_containers :
      EachHasZone index zone replicas template.spec.template.spec.init_containers
        s.spec.template.spec.init_containers
  pub same_volumes : s.spec.template.spec.volumes ≡ template.spec.template.spec.volumes

module _ (index : ℕ) (zone : String) (replicas : ℤ) where
  abbrev injected : List Container → Outcome (List Container)
  injected cs = inject_containers (pos index) zone (some replicas) none cs

  abbrev envs_of : Container → Outcome (List EnvVar)
  envs_of c = container_envs (pos index) zone (some replicas) none c.env

  consed :
      (c : Container) (cs cs' : List Container) (o : Outcome (List EnvVar))
      (rest : Outcome (List Container))
      → ((envs : List EnvVar) → o ≡ ok envs → HasZone index zone replicas c.env envs)
      → ((ds : List Container) → rest ≡ ok ds → EachHasZone index zone replicas cs ds)
      → cons_ok c o rest ≡ ok cs'
      → EachHasZone index zone replicas (c ∷ cs) cs'
  consed c cs cs' (ok envs) (ok ds) has each e =
      subst (EachHasZone index zone replicas (c ∷ cs)) (ok_injective e)
        (refl, refl, has envs refl, each ds refl)
  consed c cs cs' (ok envs) (err x) has each e = absurd (cc e)
  consed c cs cs' (ok envs) panic has each e = absurd (cc e)
  consed c cs cs' (err x) rest has each e = absurd (cc e)
  consed c cs cs' panic rest has each e = absurd (cc e)

  inject-EachHasZone :
      (cs cs' : List Container) → injected cs ≡ ok cs' → EachHasZone index zone replicas cs cs'
  unfolding inject_containers
  inject-EachHasZone [] cs' e = subst (EachHasZone index zone replicas []) (ok_injective e) tt
  inject-EachHasZone (c ∷ cs) cs' e =
      consed c cs cs' (envs_of c) (injected cs)
        (λ envs given. container_envs-HasZone index zone replicas c.env envs given)
        (λ ds given. inject-EachHasZone cs ds given) e

  -- The pod spec with the variables, beside that without.
  abbrev IsInjected : PodSpec → PodSpec → Type 0
  IsInjected spec spec' =
      EachHasZone index zone replicas spec.containers spec'.containers
      × EachHasZone index zone replicas spec.init_containers spec'.init_containers
      × (spec'.volumes ≡ spec.volumes)
      × (spec'.affinity ≡ spec.affinity)

  both-IsInjected :
      (spec spec' : PodSpec) (o o' : Outcome (List Container))
      → ((cs : List Container) → o ≡ ok cs → EachHasZone index zone replicas spec.containers cs)
      → ((cs : List Container)
          → o' ≡ ok cs
          → EachHasZone index zone replicas spec.init_containers cs)
      → both_ok spec o o' ≡ ok spec'
      → IsInjected spec spec'
  both-IsInjected spec spec' (ok cs) (ok is) each each' e =
      subst (IsInjected spec) (ok_injective e) (each cs refl, each' is refl, refl, refl)
  both-IsInjected spec spec' (ok cs) (err x) each each' e = absurd (cc e)
  both-IsInjected spec spec' (ok cs) panic each each' e = absurd (cc e)
  both-IsInjected spec spec' (err x) o' each each' e = absurd (cc e)
  both-IsInjected spec spec' panic o' each each' e = absurd (cc e)

  inject_container_env-IsInjected :
      (spec spec' : PodSpec)
      → inject_container_env spec (pos index) zone (some replicas) none ≡ ok spec'
      → IsInjected spec spec'
  unfolding inject_container_env
  inject_container_env-IsInjected spec spec' e =
      both-IsInjected spec spec' (injected spec.containers) (injected spec.init_containers)
        (λ cs given. inject-EachHasZone spec.containers cs given)
        (λ cs given. inject-EachHasZone spec.init_containers cs given) e

placed-update_affinity :
    (s : StatefulSet) (label zone : String)
    → (zone == "") ≡ false
    → placed s label zone ≡ update_affinity s label zone
unfolding placed
placed-update_affinity s label zone named = rw named refl

module _ (env : Env) (q : QuarksStatefulSet) (template : StatefulSet) (index : ℕ) (zone : String)
    (version replicas : ℤ) (named : (zone == "") ≡ false) where
  abbrev label : String
  label = q.spec.zone_node_label

  abbrev here : StatefulSet
  here = update_affinity template label zone

  abbrev make : PodSpec → StatefulSet
  make =
      labelled env here (name_prefix q.meta.name (pos index) zone)
        (zone_labels (name_prefix q.meta.name (pos index) zone) (pos index) zone)
        (template_annotations q.spec.zones zone) version

  make-IsPlaced :
      (spec : PodSpec)
      → IsInjected index zone replicas here.spec.template.spec spec
      → IsPlaced label index zone replicas template (make spec)
  unfolding labelled update_affinity zone_term
  make-IsPlaced spec (containers, init_containers, volumes, affinity) = record {
    terms = terms_of_same ∙ terms_of-update_affinity template label zone;
    containers = containers;
    init_containers = init_containers;
    same_volumes = volumes;
  }
    where
      terms_of_same : terms_of (make spec) ≡ terms_of here
      terms_of_same = rw affinity refl

  made-IsPlaced :
      (s : StatefulSet) (o : Outcome PodSpec)
      → ((spec : PodSpec)
          → o ≡ ok spec
          → IsInjected index zone replicas here.spec.template.spec spec)
      → map_outcome make o ≡ ok s
      → IsPlaced label index zone replicas template s
  made-IsPlaced s (ok spec) each e =
      subst (IsPlaced label index zone replicas template) (ok_injective e)
        (make-IsPlaced spec (each spec refl))
  made-IsPlaced s (err x) each e = absurd (cc e)
  made-IsPlaced s panic each e = absurd (cc e)

  -- A StatefulSet that is generated for a zone with a name, of a QuarksStatefulSet that wants a
  -- number of replicas and says nothing on its injection: its pods ask for the node selector terms
  -- of the template, in order, and then for one that has the zone's name as the value of the
  -- zone label; its containers and init containers are
  -- those of the template, in order, each with the zone's index and name and the number of replicas
  -- in its variables and the values of its other variables kept; its volumes are the template's.
  pub generate_single_statefulset-IsPlaced :
      (s : StatefulSet)
      → q.spec.template.spec.replicas ≡ some replicas
      → q.spec.inject_replicas_env ≡ none
      → generate_single_statefulset env q template (pos index) zone version ≡ ok s
      → IsPlaced label index zone replicas template s
  unfolding generate_single_statefulset
  generate_single_statefulset-IsPlaced s wanted unsaid e =
      made-IsPlaced s
        (inject_container_env here.spec.template.spec (pos index) zone (some replicas) none)
        (λ spec given.
          inject_container_env-IsInjected index zone replicas here.spec.template.spec spec given)
        (sym (rw (placed-update_affinity template label zone named, wanted, unsaid) refl) ∙ e)
