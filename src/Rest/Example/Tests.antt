-- ===== src/Rest/Example/Tests.antt =====
-- Instances of the theorems on the names of manifests of rest.go.
use external_crd.Prelude.{◌≡◌, refl, ◌∷◌, ◌++◌}
use external_crd.Prelude.Text.{codes}
use external_crd.Rest.Names.{get_resource_name, get_normalized_manifest_name}
use external_crd.Rest.Names.Laws.{
  get_normalized_manifest_name_injective, get_normalized_manifest_name_collision,
}
use external_crd.Rest.Example.Requests.{foos, foos-Lacks, c1-Lacks, team-Lacks}

get_normalized_manifest_name_injective_example :
    ((get_resource_name foos).0 ≡ (get_resource_name foos).0)
    × (codes "c1" ≡ codes "c1")
    × (codes "team" ≡ codes "team")
    × (codes "x.y" ≡ codes "x.y")
get_normalized_manifest_name_injective_example =
    get_normalized_manifest_name_injective foos foos (codes "c1") (codes "team") (codes "x.y")
      (codes "c1") (codes "team") (codes "x.y") foos-Lacks foos-Lacks c1-Lacks c1-Lacks team-Lacks
      team-Lacks refl

get_normalized_manifest_name_collision_example :
    get_normalized_manifest_name foos (codes "c" ++ b'.' ∷ codes "d") (codes "n") (codes "x")
    ≡ get_normalized_manifest_name foos (codes "c") (codes "d") (codes "n" ++ b'.' ∷ codes "x")
get_normalized_manifest_name_collision_example =
    get_normalized_manifest_name_collision foos (codes "c") (codes "d") (codes "n") (codes "x")
