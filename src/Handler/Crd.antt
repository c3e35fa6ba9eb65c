-- ===== src/Handler/Crd.antt =====
-- CustomResourceDefinitions as the handler reads them, and what it calls of k8s.io/apiextensions-apiserver,
-- k8s.io/apiserver and github.com/emicklei/go-restful.
use external_crd.Prelude.{Bool, Option, List}
use external_crd.Prelude.Text.{Text}
use external_crd.Prelude.Outcome.{Outcome}

-- apiextensionsv1.ResourceScope
pub data Scope : Type 0 where
  cluster_scoped namespace_scoped : Scope

-- apiextensionsv1.CustomResourceSubresources: whether Status and Scale are not nil
pub record Subresources : Type 0 where
  pub status : Bool
  pub scale : Bool

-- apiextensionsv1.CustomResourceDefinitionVersion
pub record CrdVersion : Type 0 where
  pub name : Text
  pub served : Bool
  pub storage : Bool
  pub subresources : Option Subresources

-- What the handler reads of a CustomResourceDefinition; the first four texts are Spec.Names'.
pub record Crd : Type 0 where
  pub plural : Text
  pub singular : Text
  pub kind : Text
  pub short_names : List Text
  pub group : Text
  pub scope : Scope
  pub versions : List CrdVersion
  pub deletion_timestamp : Option Text

-- The functions of other packages that read a definition: GetCRDStorageVersion, HasServedCRDVersion and
-- GetSubresourcesForVersion of apihelpers, reflect.DeepEqual on two specs, StorageVersionHash of
-- discovery, and the group and version of autoscalingv1.
pub record CrdFunctions : Type 0 where
  pub get_storage_version : Crd → Outcome Text
  pub has_served_version : Crd → Text → Bool
  pub get_subresources : Crd → Text → Outcome (Option Subresources)
  pub deep_equal_specs : Crd → Crd → Bool
  pub storage_version_hash : Text → Text → Text → Text
  pub autoscaling_group : Text
  pub autoscaling_version : Text
