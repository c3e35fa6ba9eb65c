-- ===== src/Handler/Install/Tests.antt =====
-- An instance of the theorem on the storage of namespaces that apiserver.go installs.
use external_crd.Prelude.{◌≡◌, false, [], ◌∷◌}
use external_crd.Prelude.Text.{Text, codes}
use external_crd.Prelude.Int.{ℤ, pos}
use external_crd.Handler.Discovery.{ApiResource}
use external_crd.Handler.Install.{
  namespaces_resource, has_namespaces, is_there, namespaces_resource-has_namespaces,
}
use external_crd.Utils.ApiResource.{ApiGroupResources}

abbrev namespace_resource : ApiResource
namespace_resource = record {
  name = codes "namespaces";
  singular_name = [];
  namespaced = false;
  group = [];
  version = [];
  kind = codes "Namespace";
  verbs = [];
  short_names = [];
  categories = [];
  storage_version_hash = [];
}

abbrev pub core : ApiGroupResources
core = record {
  group = [];
  preferred_version = codes "v1";
  versioned_resources = (codes "v1", namespace_resource ∷ []) ∷ [];
}

abbrev pub equal : Text → Text → ℤ
equal a b = pos 0

core_namespaces_found :
    is_there (namespaces_resource equal (core ∷ [])) ≡ has_namespaces (core ∷ [])
core_namespaces_found = namespaces_resource-has_namespaces equal (core ∷ [])
