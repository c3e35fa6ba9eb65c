-- ===== src/Utils/ApiResource/Tests.antt =====
-- An instance of the theorem on `NormalizeAPIGroupResources`: two versions of one resource.
use external_crd.Prelude.{All, ◌≡◌, false, [], ◌∷◌}
use external_crd.Prelude.Text.{Text, codes}
use external_crd.Prelude.Int.{ℤ, pos}
use external_crd.Handler.Discovery.{ApiResource}
use external_crd.Handler.Discovery.Laws.{find, IsUnique}
use external_crd.Utils.ApiResource.{ApiGroupResources, normalize_api_group_resources}
use external_crd.Utils.ApiResource.Picks.{has_name}
use external_crd.Utils.ApiResource.Preferred.{is_version}
use external_crd.Utils.ApiResource.Group.{
  IsOriginal, is_listed, is_listed_at, normalize_api_group_resources_lem,
}

abbrev foos : ApiResource
foos = record {
  name = codes "foos";
  singular_name = codes "foo";
  namespaced = false;
  group = [];
  version = [];
  kind = codes "Foo";
  verbs = [];
  short_names = [];
  categories = [];
  storage_version_hash = [];
}

abbrev group : ApiGroupResources
group = record {
  group = codes "example.com";
  preferred_version = codes "v1";
  versioned_resources = (codes "v2", foos ∷ []) ∷ (codes "v1", foos ∷ []) ∷ [];
}

abbrev equal : Text → Text → ℤ
equal a b = pos 0

normalize_api_group_resources_lem_example :
    IsUnique (normalize_api_group_resources equal group)
    × All (IsOriginal group) (normalize_api_group_resources equal group)
    × (has_name (codes "foos") (normalize_api_group_resources equal group)
        ≡ is_listed (codes "foos") group.versioned_resources)
    × (is_version (codes "v1") (find (codes "foos") (normalize_api_group_resources equal group))
        ≡ is_listed_at (codes "foos") (codes "v1") group.versioned_resources)
normalize_api_group_resources_lem_example =
    normalize_api_group_resources_lem equal group (codes "foos")
