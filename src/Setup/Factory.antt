-- ===== src/Setup/Factory.antt =====
-- pkg/generated/informers/externalversions: the factory of shared informers, with factory.go, generic.go
-- and the informer of manifests of kcrd/v1alpha1/kubernetescrd.go. Its methods hold a lock from their
-- first step to their last, so they run one after another.
pub mod Once
pub mod Calls
mod Tests
use external_crd.Prelude.{
  Bool, true, false, not, Option, none, some, List, [], ◌∷◌, ◌++◌, if◌then◌else◌,
}
use external_crd.Prelude.Text.{Text, codes, str_eq}
use external_crd.Prelude.Maps.{Map, lookup, put, put_all}
use external_crd.Prelude.Int.{ℤ}
use external_crd.Prelude.Outcome.{Outcome, ok, err, other, GroupResource}

-- sharedInformerFactory without its client, for `N` informers and `T` functions that tweak list options.
-- A reflect.Type is its name; `launched` are the informers whose `Run` a goroutine has called, in order.
pub record Factory (N T : Type 0) : Type 0 where
  pub namespace : Text
  pub tweak_list_options : Option T
  pub default_resync : ℤ
  pub custom_resync : Map ℤ
  pub informers : Map N
  pub started_informers : Map Bool
  pub launched : Map N

-- m[k] of a map of Booleans, false for a missing key
abbrev or_false : Option Bool → Bool
or_false none = false
or_false (some b) = b

unfoldable pub is_started : Text → Map Bool → Bool
is_started t m = or_false (lookup t m)

-- The informers that `WaitForCacheSync` waits for.
unfoldable pub started_of : {N : Type 0} → Map Bool → Map N → Map N
started_of started [] = []
started_of started ((t, informer) ∷ rest) =
    let later = started_of started rest in
    if is_started t started then (t, informer) ∷ later else later

abbrev pub or_default : ℤ → Option ℤ → ℤ
or_default d none = d
or_default d (some r) = r

-- SchemeGroupVersion of pkg/apis/kcrd/v1alpha1
abbrev pub kcrd_group : Text
kcrd_group = codes "k8s.jijiechen.com"

abbrev pub kcrd_version : Text
kcrd_version = codes "v1alpha1"

module _ {N T : Type 0} where
  -- The options: WithCustomResyncConfig, WithTweakListOptions, WithNamespace
  unfoldable pub with_custom_resync_config : Map ℤ → Factory N T → Factory N T
  with_custom_resync_config resync_config f = record f {
    custom_resync = put_all resync_config f.custom_resync;
  }

  unfoldable pub with_tweak_list_options : Option T → Factory N T → Factory N T
  with_tweak_list_options tweak f = record f { tweak_list_options = tweak }

  unfoldable pub with_namespace : Text → Factory N T → Factory N T
  with_namespace namespace f = record f { namespace = namespace }

  unfoldable pub apply_options : List (Factory N T → Factory N T) → Factory N T → Factory N T
  apply_options [] f = f
  apply_options (opt ∷ options) f = apply_options options (opt f)

  -- NewSharedInformerFactoryWithOptions; v1.NamespaceAll is ""
  unfoldable pub new_shared_informer_factory_with_options :
      ℤ → List (Factory N T → Factory N T) → Factory N T
  new_shared_informer_factory_with_options default_resync options = apply_options options (record {
    namespace = [];
    tweak_list_options = none;
    default_resync = default_resync;
    custom_resync = [];
    informers = [];
    started_informers = [];
    launched = [];
  })

  -- NewSharedInformerFactory, NewFilteredSharedInformerFactory
  unfoldable pub new_shared_informer_factory : ℤ → Factory N T
  new_shared_informer_factory default_resync =
      new_shared_informer_factory_with_options default_resync []

  unfoldable pub new_filtered_shared_informer_factory : ℤ → Text → Option T → Factory N T
  new_filtered_shared_informer_factory default_resync namespace tweak =
      new_shared_informer_factory_with_options default_resync
        (with_namespace namespace ∷ with_tweak_list_options tweak ∷ [])

  -- The body of the loop of `Start`, where the informer is not started.
  unfoldable pub launch : Text → N → Factory N T → Factory N T
  launch t informer f = record f {
    started_informers = put t true f.started_informers;
    launched = f.launched ++ (t, informer) ∷ [];
  }

  unfoldable pub start_each : Map N → Factory N T → Factory N T
  start_each [] f = f
  start_each ((t, informer) ∷ rest) f =
      start_each rest (if is_started t f.started_informers then f else launch t informer f)

  -- Start
  unfoldable pub start : Factory N T → Factory N T
  start f = start_each f.informers f

  -- WaitForCacheSync, for what cache.WaitForCacheSync returns for an informer
  unfoldable pub wait_for_cache_sync : (N → Bool) → Factory N T → Map Bool
  wait_for_cache_sync synced f = wait_each (started_of f.started_informers f.informers) []
    where
      wait_each : Map N → Map Bool → Map Bool
      wait_each [] res = res
      wait_each ((t, informer) ∷ rest) res = wait_each rest (put t (synced informer) res)

  -- InformerFor
  unfoldable pub informer_for : Text → (ℤ → N) → Factory N T → N × Factory N T
  informer_for t new_func f = elim (lookup t f.informers) [
    | some informer ↦ (informer, f)
    | none ↦
        let informer = new_func (or_default f.default_resync (lookup t f.custom_resync)) in
        (informer, record f { informers = put t informer f.informers })
  ]

  -- Informer of Kcrd().V1alpha1().KubernetesCrds(), where `make` is NewFilteredKubernetesCrdInformer
  -- with the client and the index by namespace
  unfoldable pub kubernetes_crd_informer : (Text → ℤ → Option T → N) → Factory N T → N × Factory N T
  kubernetes_crd_informer make f =
      informer_for (codes "KubernetesCrd") (λ resync. make f.namespace resync f.tweak_list_options)
        f

  -- ForResource; a known resource comes with its informer
  unfoldable pub for_resource :
      (Text → ℤ → Option T → N)
      → GroupResource
      → Text
      → Factory N T
      → Outcome (N × GroupResource) × Factory N T
  for_resource make resource version f =
      if known
      then (let (informer, f') = kubernetes_crd_informer make f in (ok (informer, resource), f'))
      else (err (other (codes "no informer found")), f)
    where
      known : Bool
      known = elim (str_eq resource.group kcrd_group) [
        | false ↦ false
        | true ↦ elim (str_eq version kcrd_version) [
          | false ↦ false
          | true ↦ str_eq resource.resource (codes "kubernetescrds")
        ]
      ]
