-- ===== src/Handler/Storage/Tests.antt =====
-- An instance of the theorem on the routes that `removeStorage` leaves: the removal of the plural "foos"
-- takes a route of the plural "foosets" too.
use external_crd.Prelude.{
  ◌≡◌, refl, arith, Bool, true, false, not, Option, none, some, List, [], ◌∷◌, ◌++◌, keep,
}
use external_crd.Prelude.Text.{Text, codes, has_prefix, join}
use external_crd.Prelude.Outcome.{ok}
use external_crd.Handler.Crd.{Crd, CrdFunctions, cluster_scoped}
use external_crd.Handler.Discovery.{is_namespaced}
use external_crd.Handler.State.{Route, WebServices, serve}
use external_crd.Handler.Storage.{item_path, remove_routes}
use external_crd.Handler.Storage.Removed.{is_route, WebServiceLaws, remove_routes_lem}

-- A web service: whether its routes are dynamic, and its routes.
abbrev Service : Type 0
Service = Bool × List Route

abbrev removed : Text → Text → Service → Option Service
removed path method (true, routes) = some (true, keep (λ x. not (is_route path method x)) routes)
removed path method (false, routes) = none

abbrev services : WebServices Service
services = record {
  routes = λ ws. ws.1;
  add_route = λ ws r. (ws.0, ws.1 ++ r ∷ []);
  remove_route = λ ws path method. removed path method ws;
  set_dynamic_routes = λ ws b. (b, ws.1);
  build_path = λ root path. root ++ (b'/' ∷ path);
  path_join = λ parts. join parts (codes "/");
}

removes_lem :
    (ws : Service) (path method : Text)
    → ws.0 ≡ true
    → (ws' : Service) × (removed path method ws ≡ some ws')
      × (ws'.1 ≡ keep (λ x. not (is_route path method x)) ws.1)
      × (ws'.0 ≡ true)
removes_lem (true, routes) path method h = (_, refl, refl, refl)
removes_lem (false, routes) path method h = absurd (ground arith)

service_laws : WebServiceLaws Service services
service_laws = record {
  dynamic = λ ws. ws.0;
  routes-set_dynamic_routes = λ ws b. refl;
  dynamic-set_dynamic_routes = λ ws b. refl;
  removes = removes_lem;
}

abbrev functions : CrdFunctions
functions = record {
  get_storage_version = λ crd. ok (codes "v1");
  has_served_version = λ crd v. true;
  get_subresources = λ crd v. ok none;
  deep_equal_specs = λ a b. false;
  storage_version_hash = λ group version kind. [];
  autoscaling_group = codes "autoscaling";
  autoscaling_version = codes "v1";
}

abbrev foos : Crd
foos = record {
  plural = codes "foos";
  singular = codes "foo";
  kind = codes "Foo";
  short_names = [];
  group = codes "example.com";
  scope = cluster_scoped;
  versions = [];
  deletion_timestamp = none;
}

abbrev list_route : Text → Route
list_route plural = record {
  method = codes "GET";
  path = codes "/apis/overlay/v1alpha1/" ++ plural;
  operation = codes "list";
  target = serve;
}

abbrev served : Service
served = (
  false,
  list_route (codes "foos") ∷ list_route (codes "foosets") ∷ list_route (codes "bars") ∷ [],
)

remove_routes_lem_example :
    services.routes (remove_routes functions services (codes "/apis/overlay/v1alpha1") served foos)
    ≡ keep
        (λ x.
          not (
            has_prefix x.path (item_path functions services (codes "/apis/overlay/v1alpha1") foos)))
        served.1
remove_routes_lem_example =
    remove_routes_lem services service_laws functions (codes "/apis/overlay/v1alpha1") served foos

foosets_removed :
    keep
      (λ x.
        not
          (has_prefix x.path (item_path functions services (codes "/apis/overlay/v1alpha1") foos)))
      served.1
    ≡ list_route (codes "bars") ∷ []
unfolding keep has_prefix item_path is_namespaced codes join
foosets_removed = refl
