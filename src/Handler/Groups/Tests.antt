-- ===== src/Handler/Groups/Tests.antt =====
-- Instances of the theorems on `installAPIGroups` of apiserver.go, for a container that is a list of the
-- paths of its web services.
use external_crd.Prelude.{◌≡◌, refl, sym, ap, ◌≢◌, inr, false, none, some, List, [], ◌∷◌, ◌++◌}
use external_crd.Prelude.Text.{Text, codes, join, str_eq, is_empty}
use external_crd.Prelude.Maps.{lookup}
use external_crd.Prelude.Int.{pos}
use external_crd.Prelude.Outcome.{ok, eq-pair}
use external_crd.Handler.Crd.{CrdFunctions}
use external_crd.Handler.State.{WebServices}
use external_crd.Handler.Events.{new_crd_handler, set_root_web_service}
use external_crd.Handler.Install.{
  GroupInfo, has_namespaces, namespaces_resource, first_namespaces, install_overlay_api_groups,
  overlay_group_info,
}
use external_crd.Handler.Install.Tests.{core, equal}
use external_crd.Utils.ApiResource.{
  normalize_api_group_resources, pick, sort, collect, insert, is_registered,
}
use external_crd.Handler.Groups.{
  Containers, Server, storages_of, check_groups, check_group, new_overlay_api_server,
  api_group_version, install_version, install_versions, add_resource_infos, install_api_resources,
  set_root, set_roots, add_group, find_root, install_group, install_groups, install_api_groups,
  install_overlay,
}
use external_crd.Handler.Groups.Checks.{install_api_groups_checked}
use external_crd.Handler.Groups.Roots.{ContainerLaws, IsInstalled}
use external_crd.Handler.Groups.Served.{install_overlay_serves}

abbrev services : WebServices Text
services = record {
  routes = λ ws. [];
  add_route = λ ws r. ws;
  remove_route = λ ws path method. some ws;
  set_dynamic_routes = λ ws b. ws;
  build_path = λ root path. root ++ (b'/' ∷ path);
  path_join = λ parts. join parts (codes "/");
}

abbrev functions : CrdFunctions
functions = record {
  get_storage_version = λ crd. ok (codes "v1");
  has_served_version = λ crd v. false;
  get_subresources = λ crd v. ok none;
  deep_equal_specs = λ a b. false;
  storage_version_hash = λ group version kind. [];
  autoscaling_group = codes "autoscaling";
  autoscaling_version = codes "v1";
}

abbrev gv_string : Text × Text → Text
gv_string gv = gv.0 ++ (b'/' ∷ gv.1)

abbrev containers : Containers Text (List Text) Text
containers = record {
  registered = λ c. c;
  root_path = λ ws. ws;
  install_rest = λ v c. (
    ok (gv_string v.group_version ∷ []),
    c ++ services.path_join (v.root ∷ gv_string v.group_version ∷ []) ∷ [],
  );
  add_group_handler = λ g c. c ++ g.name ∷ [];
  group_version_string = gv_string;
}

container_laws : ContainerLaws functions services containers
container_laws = record {
  registers = λ v before after infos h.
      (services.path_join (v.root ∷ gv_string v.group_version ∷ []), sym (ap (λ x. x.1) h), refl);
}

abbrev server : Server Text (List Text) Text
server = new_overlay_api_server functions services containers [] (pos 0) (pos 1) (codes "reserved")

abbrev installed : Server Text (List Text) Text
installed = (install_overlay functions services containers equal none (ok (core ∷ [])) server).1

install_returns :
    (install_overlay functions services containers equal none (ok (core ∷ [])) server).0 ≡ ok tt
unfolding new_overlay_api_server new_crd_handler install_overlay install_overlay_api_groups
    install_api_groups install_groups install_group install_api_resources install_versions
    install_version add_resource_infos find_root set_roots set_root set_root_web_service add_group
    check_groups check_group codes str_eq is_empty lookup storages_of overlay_group_info
    namespaces_resource first_namespaces join normalize_api_group_resources pick sort collect insert
    is_registered api_group_version
install_returns = refl

install_overlay_serves_example :
    IsInstalled functions services containers (has_namespaces (core ∷ [])) server installed
unfolding new_overlay_api_server new_crd_handler
install_overlay_serves_example =
    install_overlay_serves functions services containers equal none (core ∷ []) server installed
      container_laws tt refl (eq-pair _ _ install_returns)

abbrev nameless : GroupInfo
nameless = record {
  prioritized_versions = (codes "overlay", []) ∷ [];
  storages = [];
  options_external_version = none;
  known_type = none;
}

install_api_groups_checked_example :
    ((install_api_groups functions services containers ([] ++ nameless ∷ []) server).1 ≡ server)
    × ((install_api_groups functions services containers ([] ++ nameless ∷ []) server).0 ≢ ok tt)
install_api_groups_checked_example =
    install_api_groups_checked functions services containers [] [] nameless server
      (record { first = (codes "overlay", []); others = []; versions = refl; nameless = inr refl })
