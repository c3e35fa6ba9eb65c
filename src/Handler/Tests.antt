-- ===== src/Handler/Tests.antt =====
-- Instances of the theorems on customresource_handler.go and priority.go, for two groups that define
-- the resource "foos" and a web service that is a list of routes.
use external_crd.Prelude.{
  ◌≡◌, refl, ◌⊎◌, inr, ◌&&◌, not, Bool, true, false, none, some, List, [], ◌∷◌, ◌++◌, keep,
  if◌then◌else◌,
}
use external_crd.Prelude.Text.{Text, codes, str_eq, is_empty, join}
use external_crd.Prelude.Maps.{lookup}
use external_crd.Prelude.Int.{ℤ, pos}
use external_crd.Prelude.Outcome.{Outcome, ok, err, other}
use external_crd.Rest.Names.{new_rest, set_name}
use external_crd.Handler.Priority.{
  GroupPriority, ApiService, ApiServiceLister, get_api_service, can_be_added_to_storage,
}
use external_crd.Handler.Priority.Laws.{
  AtMost, Request, after_requests, priority_monotone, outranked_for_good,
}
use external_crd.Handler.Crd.{namespace_scoped, CrdVersion, Crd, CrdFunctions}
use external_crd.Handler.Discovery.{Discovery, new_discovery, update_crd, remove_crd}
use external_crd.Handler.Discovery.Laws.{remove_crd-update_crd}
use external_crd.Handler.State.{Route, WebServices, Handler}
use external_crd.Handler.Storage.Consistent.{Agree, IsConsistent}
use external_crd.Handler.Storage.Without.{IsWithout}
use external_crd.Handler.Events.{
  tombstone, new_crd_handler, set_root_web_service, add_custom_resource_definition,
  delete_custom_resource_definition,
}
use external_crd.Handler.Events.Reach.{Reach, start, root, added, Reach-IsConsistent}
use external_crd.Handler.Events.Removal.{delete_event_clears}
use external_crd.Handler.Serve.{
  RequestInfo, get_resource, Dispatched, is_subresource_verb, serve_http, call_of, dispatch,
}
use external_crd.Handler.Serve.Dispatch.{serve_http_coherent}

abbrev service : Text → ℤ → ApiService
service name priority = record { name = name; group_priority_minimum = priority }

-- The services of the groups "a" and "b", of which "a" has the higher priority.
abbrev pub lister : ApiServiceLister
lister name =
    if str_eq name (codes "v1.a")
    then some (service name (pos 9))
    else if str_eq name (codes "v1.b")
    then some (service name (pos 5))
    else none

abbrev pub version : CrdVersion
version = record {
  name = codes "v1";
  served = true;
  storage = true;
  subresources = some (record { status = true; scale = true });
}

abbrev pub foos_of : Text → Crd
foos_of group = record {
  plural = codes "foos";
  singular = codes "foo";
  kind = codes "Foo";
  short_names = [];
  group = group;
  scope = namespace_scoped;
  versions = version ∷ [];
  deletion_timestamp = none;
}

abbrev storage_version : List CrdVersion → Outcome Text
storage_version [] = err (other (codes "no storage version"))
storage_version (v ∷ vs) = if v.storage then ok v.name else storage_version vs

abbrev pub functions : CrdFunctions
functions = record {
  get_storage_version = λ crd. storage_version crd.versions;
  has_served_version = λ crd v. true;
  get_subresources = λ crd v. ok (some (record { status = true; scale = true }));
  deep_equal_specs = λ a b. false;
  storage_version_hash = λ group version kind. group ++ version ++ kind;
  autoscaling_group = codes "autoscaling";
  autoscaling_version = codes "v1";
}

-- Whether a route is that of a method and a path.
abbrev is_route : Text → Text → Route → Bool
is_route path method r = str_eq r.method method && str_eq r.path path

abbrev pub services : WebServices (List Route)
services = record {
  routes = λ ws. ws;
  add_route = λ ws r. ws ++ r ∷ [];
  remove_route = λ ws path method. some (keep (λ r. not (is_route path method r)) ws);
  set_dynamic_routes = λ ws b. ws;
  build_path = λ root path. root ++ (b'/' ∷ path);
  path_join = λ parts. join parts (codes "/");
}

abbrev request : Text → Request
request group = record { group = group; version = codes "v1"; resource = codes "foos" }

priority_monotone_example : AtMost (lookup (codes "foos") []) (
    lookup
      (codes "foos")
      (after_requests lister (request (codes "a") ∷ request (codes "b") ∷ []) []))
priority_monotone_example =
    priority_monotone lister (request (codes "a") ∷ request (codes "b") ∷ []) [] (codes "foos")

abbrev high : GroupPriority
high = record { group_version_name = codes "v1.a"; group_priority_minimum = pos 9 }

outranked_for_good_example :
    (can_be_added_to_storage
      (codes "b")
      (codes "v1")
      (codes "foos")
      lister
      (after_requests lister (request (codes "b") ∷ []) ((codes "foos", high) ∷ []))).0
    ≡ false
unfolding lookup codes str_eq get_api_service join
outranked_for_good_example =
    outranked_for_good lister (request (codes "b") ∷ []) (request (codes "b"))
      ((codes "foos", high) ∷ []) high (service (codes "v1.b") (pos 5)) refl refl refl

abbrev pub empty : Discovery
empty = record { non_crd_api_resources = []; crd_api_resources = [] }

added_then_removed :
    remove_crd (update_crd functions empty (foos_of (codes "a"))) (foos_of (codes "a"))
    ≡ remove_crd empty (foos_of (codes "a"))
added_then_removed = remove_crd-update_crd functions empty (foos_of (codes "a"))

abbrev pub fresh : Handler (List Route)
fresh = new_crd_handler functions services (codes "reserved") (pos 1000)

abbrev rooted : Handler (List Route)
rooted = (set_root_web_service functions services fresh []).1

abbrev serving : Handler (List Route)
serving = (add_custom_resource_definition functions services lister rooted (foos_of (codes "a"))).1

serving_reached : Reach functions services (codes "reserved") (pos 1000) serving
serving_reached = added lister (foos_of (codes "a")) (root [] start)

Reach-IsConsistent_example : IsConsistent (List Route) serving
Reach-IsConsistent_example =
    Reach-IsConsistent functions services (codes "reserved") (pos 1000) serving_reached

-- The handler with a storage under "foos", and one under "bars".
abbrev stocked : Handler (List Route)
stocked = record rooted {
  storages =
      (codes "foos", set_name (new_rest (codes "reserved")) (codes "foos"))
      ∷ (codes "bars", set_name (new_rest (codes "reserved")) (codes "bars"))
      ∷ [];
}

delete_event_clears_example :
    ((delete_custom_resource_definition functions services stocked
        (tombstone (some (foos_of (codes "a"))))).0
      ≡ ok tt)
    × IsWithout
        (List Route)
        stocked
        (foos_of (codes "a"))
        (new_discovery [])
        (delete_custom_resource_definition functions services stocked
          (tombstone (some (foos_of (codes "a"))))).1
unfolding set_root_web_service new_crd_handler
delete_event_clears_example =
    delete_event_clears functions services stocked (foos_of (codes "a")) (new_discovery [])
      (tombstone (some (foos_of (codes "a")))) refl (inr refl)

abbrev pub info : RequestInfo
info = record {
  verb = codes "get";
  api_group = codes "overlay";
  api_version = codes "v1alpha1";
  resource = codes "foos";
  subresource = codes "scale";
}

abbrev got : Dispatched
got = record {
  call = get_resource;
  storage = lookup (codes "foos") serving.storages;
  scope = lookup (codes "foos") serving.request_scopes;
}

serve_http_coherent_example :
    (codes "get" ≡ codes "get")
    × ((is_empty (codes "scale") ≡ true) ⊎ (is_subresource_verb (codes "get") ≡ true))
    × Agree (codes "foos") got.storage got.scope
unfolding serve_http codes is_empty is_subresource_verb call_of str_eq dispatch
serve_http_coherent_example =
    serve_http_coherent functions services (codes "reserved") (pos 1000) info got serving_reached
      refl
