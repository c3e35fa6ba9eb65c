-- ===== src/Handler/Routes.antt =====
-- What `addStorage` of customresource_handler.go makes of a definition: the request scope and the routes.
use external_crd.Prelude.{not, Option, List, [], ◌∷◌, ◌++◌, if◌then◌else◌}
use external_crd.Prelude.Text.{Text, codes}
use external_crd.Prelude.Int.{ℤ}
use external_crd.Rest.Objects.{Rest, GroupVersionKind}
use external_crd.Rest.Names.{group_version_kind}
use external_crd.Handler.Crd.{Subresources, Crd, CrdFunctions}
use external_crd.Handler.Discovery.{is_namespaced}
use external_crd.Handler.State.{
  Target, serve, refuse_status, Route, WebServices, RequestScope, overlay_group, overlay_version,
  overlay_kind, has_status, has_scale,
}

module _ {W : Type 0} (f : CrdFunctions) (w : WebServices W) where
  -- genericapiserver.APIGroupPrefix is "/apis"
  abbrev self_link_prefix : Crd → Text
  self_link_prefix crd =
      if is_namespaced crd.scope
      then codes "/apis"
        ++ (b'/'
            ∷ (w.path_join (overlay_group ∷ overlay_version ∷ codes "namespaces" ∷ [])
                ++ (b'/' ∷ [])))
      else codes "/apis"
        ++ (b'/'
            ∷ (w.path_join (overlay_group ∷ overlay_version ∷ [])
                ++ (b'/' ∷ (crd.plural ++ (b'/' ∷ [])))))

  -- The kinds that the equivalent resource registry is given.
  equivalent_kinds : GroupVersionKind → Crd → Option Subresources → List (Text × GroupVersionKind)
  equivalent_kinds gvk crd subs =
      ([], gvk)
      ∷ ((if has_status subs then (codes "status", overlay_kind crd.kind) ∷ [] else [])
          ++ (if has_scale subs
              then (
                codes "scale",
                record {
                  group = f.autoscaling_group;
                  version = f.autoscaling_version;
                  kind = codes "Scale";
                },
              )
                ∷ []
              else []))

  unfoldable pub scope_of : ℤ → Crd → Rest → Option Subresources → RequestScope
  unfolding equivalent_kinds
  scope_of max_bytes crd storage subs = record {
    cluster_scoped = not (is_namespaced crd.scope);
    self_link_path_prefix = self_link_prefix crd;
    group_version_kind = group_version_kind storage;
    resource = crd.plural;
    equivalents = equivalent_kinds (group_version_kind storage) crd subs;
    max_request_body_bytes = max_bytes;
  }

  abbrev route : Text → Text → Text → Text → Target → Route
  route root method path operation target = record {
    method = method;
    path = w.build_path root path;
    operation = operation;
    target = target;
  }

  -- The routes of a definition, in the order in which `addStorage` adds them.
  unfoldable pub routes_of : Text → Crd → Option Subresources → List Route
  routes_of root crd subs =
      let namespaced = is_namespaced crd.scope in
      let word = if namespaced then codes "Namespaced" else [] in
      let path = if namespaced then codes "namespaces/{namespace}/" ++ crd.plural else crd.plural in
      let item = path ++ codes "/{name}" in
      let status = path ++ codes "/{name}/status" in
      let op = λ (verb : Text). verb ++ (word ++ crd.kind) in
      route root (codes "GET") item (op (codes "read")) serve
      ∷ route root (codes "GET") path (op (codes "list")) serve
      ∷ ((if namespaced
            then route root (codes "GET") crd.plural (op (codes "list") ++ codes "ForAllNamespaces")
                serve
              ∷ []
            else [])
          ++ (route root (codes "PUT") item (op (codes "replace")) serve
              ∷ route root (codes "PATCH") item (op (codes "patch")) serve
              ∷ route root (codes "POST") path (op (codes "create")) serve
              ∷ route root (codes "DELETE") item (op (codes "delete")) serve
              ∷ route root (codes "PATCH") path (op (codes "deletecollection")) serve
              ∷ (if has_status subs
                  then route root (codes "GET") status (op (codes "read") ++ codes "Status")
                      refuse_status
                    ∷ route root (codes "PUT") status (op (codes "replace") ++ codes "Status")
                        refuse_status
                    ∷ route root (codes "PATCH") status (op (codes "patch") ++ codes "Status")
                        refuse_status
                    ∷ []
                  else [])))
