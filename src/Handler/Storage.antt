-- ===== src/Handler/Storage.antt =====
-- `addStorage` and `removeStorage` of customresource_handler.go. The informer calls its handlers one after
-- another, so no other writer runs between the steps that take the lock.
pub mod Consistent
pub mod Without
pub mod Added
pub mod Decided
pub mod Removed
mod Tests
use external_crd.Prelude.{
  Bool, true, false, not, ◌&&◌, Option, none, some, List, [], ◌∷◌, ◌++◌, keep, if◌then◌else◌,
}
use external_crd.Prelude.Text.{Text, codes, str_eq, has_prefix, has_suffix}
use external_crd.Prelude.Maps.{Map, put, delete}
use external_crd.Prelude.Int.{ℤ}
use external_crd.Prelude.Outcome.{Outcome, ok, err, panic, ApiError, other}
use external_crd.Rest.Objects.{Rest, GroupVersionKind}
use external_crd.Rest.Names.{
  new_rest, set_namespace_scoped, set_name, set_short_names, set_kind, set_group, set_version,
  group_version_kind,
}
use external_crd.Handler.Priority.{GroupPriority, ApiServiceLister, can_be_added_to_storage}
use external_crd.Handler.Crd.{
  Scope, cluster_scoped, namespace_scoped, Subresources, Crd, CrdFunctions,
}
use external_crd.Handler.Discovery.{
  ApiResource, Discovery, new_discovery, is_namespaced, update_crd, remove_crd,
}
use external_crd.Handler.State.{
  Target, serve, refuse_status, Route, WebServices, RequestScope, Handler, overlay_group,
  overlay_version, overlay_kind, is_some, storage_of, has_status, has_scale,
}
use external_crd.Handler.Routes.{scope_of, routes_of}

module _ {W : Type 0} (f : CrdFunctions) (w : WebServices W) where
  pub add_routes : W → List Route → W
  add_routes ws [] = ws
  add_routes ws (x ∷ xs) = add_routes (w.add_route ws x) xs

  -- The part of `addStorage` behind the call of GetSubresourcesForVersion.
  add_served : Handler W → W → Crd → Text → Option Subresources → Handler W
  add_served h ws crd version subs =
      let storage = storage_of h.reserved_namespace crd version in
      record h {
        storages = put crd.plural storage h.storages;
        request_scopes =
            put crd.plural (scope_of f w h.max_request_body_bytes crd storage subs)
              h.request_scopes;
        ws = some (add_routes ws (routes_of f w h.root_prefix crd subs));
      }

  -- What a method returns: its error, and the new state.
  abbrev pub Result : Type 0
  Result = Outcome (Unit {0}) × Handler W

  add_with_subresources : Handler W → W → Crd → Text → Outcome (Option Subresources) → Result
  unfolding add_served
  add_with_subresources h ws crd version (ok subs) = (ok tt, add_served h ws crd version subs)
  add_with_subresources h ws crd version (err e) = (err e, h)
  add_with_subresources h ws crd version panic = (panic, h)

  -- updateCRD on a nil handler dereferences it.
  add_discovered : Handler W → Option Discovery → W → Crd → Text → Result
  unfolding add_with_subresources
  add_discovered h none ws crd version = (panic, h)
  add_discovered h (some d) ws crd version =
      add_with_subresources (record h { discovery = some (update_crd f d crd) }) ws crd version
        (f.get_subresources crd version)

  add_allowed : Handler W → W → Crd → Text → Result
  unfolding add_discovered
  add_allowed h ws crd version = add_discovered h h.discovery ws crd version

  add_version : ApiServiceLister → Handler W → W → Crd → Text → Result
  unfolding add_allowed
  add_version lister h ws crd version =
      if not (f.has_served_version crd version)
      then (ok tt, h)
      else (let (allowed, priorities) =
            can_be_added_to_storage crd.group version crd.plural lister h.priorities in
          let h' = record h { priorities = priorities } in
          if allowed then add_allowed h' ws crd version else (ok tt, h'))

  add_stored : ApiServiceLister → Handler W → W → Crd → Outcome Text → Result
  unfolding add_version
  add_stored lister h ws crd (ok version) = add_version lister h ws crd version
  add_stored lister h ws crd (err _) = (ok tt, h)
  add_stored lister h ws crd panic = (panic, h)

  add_to : ApiServiceLister → Handler W → Option W → Crd → Result
  unfolding add_stored
  add_to lister h none crd = (err (other (codes "nil root WebService for crdHandler")), h)
  add_to lister h (some ws) crd = add_stored lister h ws crd (f.get_storage_version crd)

  unfoldable pub add_storage : ApiServiceLister → Handler W → Crd → Result
  unfolding add_to
  add_storage lister h crd =
      if is_some crd.deletion_timestamp then (ok tt, h) else add_to lister h h.ws crd

  -- The path below which `removeStorage` removes routes.
  unfoldable pub item_path : Text → Crd → Text
  item_path root crd =
      if is_namespaced crd.scope
      then w.path_join (root ∷ codes "namespaces/{namespace}" ∷ crd.plural ∷ [])
      else w.path_join (root ∷ crd.plural ∷ [])

  -- A route that cannot be removed is logged, and left.
  remove_route : W → Route → W
  remove_route ws x = elim (w.remove_route ws x.path x.method) [ none ↦ ws | some ws' ↦ ws' ]

  unfoldable pub remove_all : W → List Route → W
  unfolding remove_route
  remove_all ws [] = ws
  remove_all ws (x ∷ xs) = remove_all (remove_route ws x) xs

  unfoldable pub remove_routes : Text → W → Crd → W
  remove_routes root ws crd =
      let doomed = keep (λ x. has_prefix x.path (item_path root crd)) (w.routes ws) in
      w.set_dynamic_routes (remove_all (w.set_dynamic_routes ws true) doomed) false

  remove_from : Handler W → Option W → Crd → Handler W
  remove_from h none crd = h
  remove_from h (some ws) crd = record h { ws = some (remove_routes h.root_prefix ws crd) }

  -- removeCRD on a nil handler dereferences it.
  remove_discovered : Handler W → Option Discovery → Crd → Result
  unfolding remove_from
  remove_discovered h none crd = (panic, h)
  remove_discovered h (some d) crd =
      let h' = record h {
        discovery = some (remove_crd d crd);
        storages = delete crd.plural h.storages;
        request_scopes = delete crd.plural h.request_scopes;
      } in
      (ok tt, remove_from h' h.ws crd)

  unfoldable pub remove_storage : Handler W → Crd → Result
  unfolding remove_discovered
  remove_storage h crd = remove_discovered h h.discovery crd
