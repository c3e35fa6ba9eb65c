-- ===== src/Rest/Lister.antt =====
-- pkg/generated/listers/kcrd/v1alpha1/kubernetescrd.go: the lister of a namespace, over an indexer. A
-- Backend's `lister_get` is this function at the informer's cache.
use external_crd.Prelude.{Option, none, some, List, ◌∷◌, ◌++◌}
use external_crd.Prelude.Text.{Text}
use external_crd.Prelude.Outcome.{Outcome, ok, err, then_do, GroupResource, not_found}
use external_crd.Rest.Objects.{KubernetesCrd}

-- What the lister calls of cache.Indexer and package cache, for `L` the type of selectors.
pub record Indexer (U L : Type 0) : Type 0 where
  pub get_by_key : Text → Outcome (Option (KubernetesCrd U))
  pub list_all_by_namespace : Text → L → Outcome (List (KubernetesCrd U))

module _ {U L : Type 0} (indexer : Indexer U L) (resource : GroupResource) where
  abbrev existing : Text → Option (KubernetesCrd U) → Outcome (KubernetesCrd U)
  existing name none = err (not_found resource name)
  existing name (some crd) = ok crd

  -- Get, where `resource` is v1alpha1.Resource("kubernetescrd")
  pub lister_get : Text → Text → Outcome (KubernetesCrd U)
  lister_get namespace name =
      then_do (indexer.get_by_key (namespace ++ (b'/' ∷ name))) (existing name)

  -- List of the lister of a namespace
  pub lister_list : Text → L → Outcome (List (KubernetesCrd U))
  lister_list namespace selector = indexer.list_all_by_namespace namespace selector
