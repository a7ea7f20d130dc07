-- ===== src/Actuator/Topology/Wanted.antt =====
-- The list of the labels that setTopologyLabels wants, and what setting them all does.
use machine_api_provider_nvi.Base.{
  ◌≡◌, ◌≢◌, refl, ap, ◌∙◌, String, true, false, ◌&&◌, Option, none, some, List, [], ◌∷◌, ◌++◌, All,
  is_set, Bool-cases, inl, inr, ◌==◌, string_eq, eq_refl, if◌then◌else◌, arith, eq_iff,
}
use machine_api_provider_nvi.Base.Dict.{Dict, lookup, lookup-insert}
use machine_api_provider_nvi.Api.Types.{NicoMachineProviderSpec}
use machine_api_provider_nvi.Api.Sdk.{Instance, NvLinkInterface, InfiniBandInterface}
use machine_api_provider_nvi.Actuator.Topology.{Labels, differs, set_label, set_label?}

differs-false :
    (old : Option String) (v : String) → is_set v ≡ true → differs old v ≡ false → old ≡ some v
differs-false none v h d = ground (arith, h, d)
differs-false (some o) v h d = ground (arith, h, d, eq_iff o v)

-- A label that is there already is set as one that is not.
lookup-set_label :
    (k v j : String) (s : Labels)
    → lookup j (set_label k v s).0 ≡ (if is_set v && k == j then some v else lookup j s.0)
unfolding set_label
lookup-set_label k v j s = elim (Bool-cases (is_set v)) [
  | inr n ↦ rw n
  | inl y ↦ elim (Bool-cases (differs (lookup k s.0) v)) [
    | inl d ↦ rw y (rw d (lookup-insert k j v s.0))
    | inr d ↦ rw y (
        rw d
          (ground (arith, eq_iff k j, ap (λ i. lookup i s.0), differs-false (lookup k s.0) v y d)))
  ]
]

-- The labels that are wanted, in the order in which they are set; a missing value sets none.
abbrev pub Wanted : Type 0
Wanted = List (String × Option String)

unfoldable pub nv_link_labels : List NvLinkInterface → Wanted
nv_link_labels [] = []
nv_link_labels (nvl ∷ rest) =
    ("infra.nvidia.com/nvlink-partition", nvl.nv_link_logical_partition_id)
    ∷ ("infra.nvidia.com/nvlink-domain", nvl.nv_link_domain_id)
    ∷ []

unfoldable pub infiniband_labels : List InfiniBandInterface → Wanted
infiniband_labels [] = []
infiniband_labels (ib ∷ rest) = ("infra.nvidia.com/infiniband-partition", ib.partition_id) ∷ []

unfoldable pub wanted_labels : Instance → NicoMachineProviderSpec → Wanted
unfolding nv_link_labels infiniband_labels
wanted_labels inst spec =
    ("topology.kubernetes.io/zone", inst.site_id)
    ∷ ("node.kubernetes.io/instance-type", some spec.instance_type_id)
    ∷ ("infra.nvidia.com/machine-id", inst.machine_id)
    ∷ (nv_link_labels inst.nv_link_interfaces ++ infiniband_labels inst.infiniband_interfaces)

-- One after the other.
unfoldable pub set_all : Wanted → Labels → Labels
set_all [] s = s
set_all ((k, o) ∷ rest) s = set_all rest (set_label? k o s)

-- A value that is not empty is there.
abbrev pub HasLabel : Dict String → String → Option String → Type 0
HasLabel labels k none = Unit
HasLabel labels k (some v) = is_set v ≡ true → lookup k labels ≡ some v

-- No key is wanted twice.
unfoldable pub IsDistinct : Wanted → Type 0
IsDistinct [] = Unit
IsDistinct ((k, o) ∷ rest) = All (λ e. e.0 ≢ k) rest × IsDistinct rest

set_label?-other :
    (k : String) (o : Option String) (j : String) (s : Labels)
    → k ≢ j
    → lookup j (set_label? k o s).0 ≡ lookup j s.0
set_label?-other k none j s d = refl
set_label?-other k (some v) j s d = ground (arith, d, eq_iff k j, lookup-set_label k v j s)

pub set_all-other :
    (rest : Wanted) (j : String) (s : Labels)
    → All (λ e. e.0 ≢ j) rest
    → lookup j (set_all rest s).0 ≡ lookup j s.0
unfolding set_all
set_all-other [] j s h = refl
set_all-other ((k, o) ∷ rest) j s h =
    set_all-other rest j (set_label? k o s) h.1 ∙ set_label?-other k o j s h.0

HasLabel-along :
    (o : Option String) (k : String) (d e : Dict String)
    → lookup k e ≡ lookup k d
    → HasLabel d k o
    → HasLabel e k o
HasLabel-along none k d e same h = tt
HasLabel-along (some v) k d e same h = λ y. same ∙ h y

HasLabel-set : (o : Option String) (k : String) (s : Labels) → HasLabel (set_label? k o s).0 k o
HasLabel-set none k s = tt
HasLabel-set (some v) k s = λ y. ground (arith, y, eq_refl k, lookup-set_label k v k s)

pub set_all-HasLabel :
    (w : Wanted) (s : Labels) → IsDistinct w → All (λ e. HasLabel (set_all w s).0 e.0 e.1) w
unfolding set_all IsDistinct
set_all-HasLabel [] s h = tt
set_all-HasLabel ((k, o) ∷ rest) s h = (
  HasLabel-along o k _ _ (set_all-other rest k (set_label? k o s) h.0) (HasLabel-set o k s),
  set_all-HasLabel rest (set_label? k o s) h.1,
)

-- What is there already is not set again.
set_label?-settled :
    (k : String) (o : Option String) (labels : Dict String)
    → HasLabel labels k o
    → set_label? k o (labels, false) ≡ (labels, false)
unfolding set_label
set_label?-settled k none labels h = refl
set_label?-settled k (some v) labels h = elim (Bool-cases (is_set v)) [
  | inl y ↦ rw (h y) (rw (eq_refl v) (ground arith))
  | inr n ↦ rw n
]

pub set_all-settled :
    (w : Wanted) (labels : Dict String)
    → All (λ e. HasLabel labels e.0 e.1) w
    → set_all w (labels, false) ≡ (labels, false)
unfolding set_all
set_all-settled [] labels h = refl
set_all-settled ((k, o) ∷ rest) labels h =
    rw (set_label?-settled k o labels h.0) (set_all-settled rest labels h.1)

-- Without a change the labels are those before.
unfoldable pub IsHonest : Labels → Labels → Type 0
IsHonest s t = (t.1 ≡ false) → (s.1 ≡ false) × (t.0 ≡ s.0)

set_label?-IsHonest : (k : String) (o : Option String) (s : Labels) → IsHonest s (set_label? k o s)
unfolding set_label IsHonest
set_label?-IsHonest k none s = λ h. (h, refl)
set_label?-IsHonest k (some v) s = λ h. elim (Bool-cases (is_set v && differs (lookup k s.0) v)) [
  | inl y ↦ absurd (ground (arith, h, y))
  | inr n ↦ (ground (arith, h, n), rw n)
]

pub set_all-IsHonest : (w : Wanted) (s : Labels) → IsHonest s (set_all w s)
unfolding set_all IsHonest
set_all-IsHonest [] s = λ h. (h, refl)
set_all-IsHonest ((k, o) ∷ rest) s = λ h.
    let later = set_all-IsHonest rest (set_label? k o s) h in
    let first = set_label?-IsHonest k o s later.0 in (first.0, later.1 ∙ first.1)
