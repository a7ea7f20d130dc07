-- ===== src/Actuator/Topology/Laws.antt =====
-- The labels of setTopologyLabels against the list of those that are wanted.
use machine_api_provider_nvi.Base.{
  ◌≡◌, ◌≢◌, refl, sym, ap, ◌∙◌, String, Bool, true, false, not, ◌&&◌, some, List, [], ◌∷◌, ◌++◌,
  All, any, ◌==◌, string_eq, if◌then◌else◌, arith, eq_iff,
}
use machine_api_provider_nvi.Base.Dict.{Dict, lookup}
use machine_api_provider_nvi.Api.Types.{NicoMachineProviderSpec}
use machine_api_provider_nvi.Api.Sdk.{Instance, NvLinkInterface, InfiniBandInterface}
use machine_api_provider_nvi.Actuator.World.{Object}
use machine_api_provider_nvi.Actuator.Topology.{
  Labels, set_nv_link, set_infiniband, topology_labels, set_topology_labels,
}
use machine_api_provider_nvi.Actuator.Topology.Wanted.{
  Wanted, nv_link_labels, infiniband_labels, wanted_labels, set_all, HasLabel, IsDistinct,
  set_all-other, set_all-HasLabel, set_all-settled, IsHonest, set_all-IsHonest,
}

-- The test of distinct keys, which computes on the wanted labels.
is_distinct : Wanted → Bool
is_distinct [] = true
is_distinct ((k, o) ∷ rest) = not (any (λ e. e.0 == k) rest) && is_distinct rest

others-distinct :
    (rest : Wanted) (k : String) → any (λ e. e.0 == k) rest ≡ false → All (λ e. e.0 ≢ k) rest
others-distinct [] k h = tt
others-distinct ((j, o) ∷ rest) k h =
    ((λ e. ground (arith, h, eq_iff j k, e)), others-distinct rest k (ground (arith, h)))

is_distinct-IsDistinct : (w : Wanted) → is_distinct w ≡ true → IsDistinct w
unfolding is_distinct IsDistinct
is_distinct-IsDistinct [] h = tt
is_distinct-IsDistinct ((k, o) ∷ rest) h =
    (others-distinct rest k (ground (arith, h)), is_distinct-IsDistinct rest (ground (arith, h)))

wanted_labels-IsDistinct :
    (inst : Instance) (spec : NicoMachineProviderSpec) → IsDistinct (wanted_labels inst spec)
unfolding is_distinct nv_link_labels infiniband_labels wanted_labels
wanted_labels-IsDistinct inst spec =
    is_distinct-IsDistinct _ (distinct inst.nv_link_interfaces inst.infiniband_interfaces)
  where
    distinct :
        (nvls : List NvLinkInterface) (ibs : List InfiniBandInterface)
        → is_distinct (
            ("topology.kubernetes.io/zone", inst.site_id)
            ∷ ("node.kubernetes.io/instance-type", some spec.instance_type_id)
            ∷ ("infra.nvidia.com/machine-id", inst.machine_id)
            ∷ (nv_link_labels nvls ++ infiniband_labels ibs))
          ≡ true
    distinct [] [] = refl
    distinct [] (ib ∷ ibs) = refl
    distinct (nvl ∷ nvls) [] = refl
    distinct (nvl ∷ nvls) (ib ∷ ibs) = refl

topology_labels-set_all :
    (inst : Instance) (spec : NicoMachineProviderSpec) (s : Labels)
    → topology_labels inst spec s ≡ set_all (wanted_labels inst spec) s
unfolding set_all set_infiniband nv_link_labels set_nv_link infiniband_labels topology_labels
    wanted_labels
topology_labels-set_all inst spec s = same inst.nv_link_interfaces inst.infiniband_interfaces _
  where
    same :
        (nvls : List NvLinkInterface) (ibs : List InfiniBandInterface) (t : Labels)
        → set_infiniband ibs (set_nv_link nvls t)
          ≡ set_all (nv_link_labels nvls ++ infiniband_labels ibs) t
    same [] [] t = refl
    same [] (ib ∷ ibs) t = refl
    same (nvl ∷ nvls) [] t = refl
    same (nvl ∷ nvls) (ib ∷ ibs) t = refl

-- What a call leaves: the wanted labels, the others, and nothing to do for a second call.
pub record IsLabelled (o : Object) (inst : Instance) (spec : NicoMachineProviderSpec)
    (r : Object × Bool) : Type 0 where
  pub HasWanted : All (λ e. HasLabel r.0.labels e.0 e.1) (wanted_labels inst spec)
  pub KeepsOthers :
      (key : String)
      → All (λ e. e.0 ≢ key) (wanted_labels inst spec)
      → lookup key r.0.labels ≡ lookup key o.labels
  pub IsSettled : set_topology_labels r.0 inst spec ≡ (r.0, false)
  pub IsReported : r.1 ≡ false → r.0 ≡ o

labelled : Object → Labels → Object × Bool
labelled o t = (if t.1 then record o { labels = t.0 } else o, t.1)

labelled-labels :
    (o : Object) (t : Labels) → IsHonest (o.labels, false) t → (labelled o t).0.labels ≡ t.0
unfolding labelled IsHonest
labelled-labels o (labels, true) h = refl
labelled-labels o (labels, false) h = sym (h refl).1

labelled-false : (o : Object) (t : Labels) → t.1 ≡ false → (labelled o t).0 ≡ o
unfolding labelled
labelled-false o (labels, true) h = absurd (ground (arith, h))
labelled-false o (labels, false) h = refl

labelled-same : (o : Object) (t : Labels) → t ≡ (o.labels, false) → labelled o t ≡ (o, false)
unfolding labelled
labelled-same o t e = rw e

set_topology_labels-all :
    (o : Object) (inst : Instance) (spec : NicoMachineProviderSpec)
    → set_topology_labels o inst spec
      ≡ labelled o (set_all (wanted_labels inst spec) (o.labels, false))
unfolding set_topology_labels labelled
set_topology_labels-all o inst spec =
    ap (labelled o) (topology_labels-set_all inst spec (o.labels, false))

labelled-IsLabelled :
    (o : Object) (inst : Instance) (spec : NicoMachineProviderSpec) (t : Labels)
    → t ≡ set_all (wanted_labels inst spec) (o.labels, false)
    → IsLabelled o inst spec (labelled o t)
unfolding labelled
labelled-IsLabelled o inst spec t e =
    let w = wanted_labels inst spec in
    let same =
      labelled-labels o t (rw e (set_all-IsHonest w (o.labels, false))) ∙ ap (λ s. s.0) e in
    let has =
      All-along w same
        (set_all-HasLabel w (o.labels, false) (wanted_labels-IsDistinct inst spec)) in
    record {
      HasWanted = has;
      KeepsOthers = λ key h. ap (lookup key) same ∙ set_all-other w key (o.labels, false) h;
      IsSettled =
          set_topology_labels-all (labelled o t).0 inst spec
          ∙ labelled-same (labelled o t).0 _ (set_all-settled w (labelled o t).0.labels has);
      IsReported = λ h. labelled-false o t h;
    }
  where
    All-along :
        (w : Wanted) {d e : Dict String}
        → e ≡ d
        → All (λ x. HasLabel d x.0 x.1) w
        → All (λ x. HasLabel e x.0 x.1) w
    All-along w same h = rw same h

-- After setTopologyLabels the object has every label that is wanted with a value that is not empty,
-- and under every other key what it had before; a second call with the same instance and spec
-- changes nothing and says so; and where the call reports no change, the object is the same as
-- before.
pub set_topology_labels-IsLabelled :
    (o : Object) (inst : Instance) (spec : NicoMachineProviderSpec)
    → IsLabelled o inst spec (set_topology_labels o inst spec)
set_topology_labels-IsLabelled o inst spec =
    rw (set_topology_labels-all o inst spec) (labelled-IsLabelled o inst spec _ refl)
