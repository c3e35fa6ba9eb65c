-- ===== src/Handler/Serve.antt =====
-- `ServeHTTP` of `crdHandler` in customresource_handler.go: which handler of k8s.io/apiserver a request
-- goes to, with which storage and request scope. What those handlers do is not modelled.
pub mod Dispatch
use external_crd.Prelude.{Bool, true, false, Option, none, some, not, ◌||◌, if◌then◌else◌}
use external_crd.Prelude.Text.{Text, codes, str_eq, is_empty}
use external_crd.Prelude.Maps.{lookup}
use external_crd.Prelude.Outcome.{Outcome, ok, err, panic, GroupResource, method_not_supported}
use external_crd.Rest.Objects.{Rest}
use external_crd.Handler.State.{RequestScope, Handler}

-- apirequest.RequestInfo, as far as it is read
pub record RequestInfo : Type 0 where
  pub verb : Text
  pub api_group : Text
  pub api_version : Text
  pub resource : Text
  pub subresource : Text

-- The handlers of k8s.io/apiserver; a watch is ListResource with forceWatch.
pub data Call : Type 0 where
  get_resource list_resource watch_resource create_resource update_resource patch_resource
        delete_resource delete_collection :
      Call

-- A handler with its storage and its scope, which are nil pointers where the maps have no entry.
pub record Dispatched : Type 0 where
  pub call : Call
  pub storage : Option Rest
  pub scope : Option RequestScope

-- The case of the first switch: `get`, `update` or `patch`.
unfoldable pub is_subresource_verb : Text → Bool
is_subresource_verb v =
    str_eq v (codes "get") || (str_eq v (codes "update") || str_eq v (codes "patch"))

-- The cases of the second switch.
unfoldable pub call_of : Text → Option Call
call_of v =
    if str_eq v (codes "get")
    then some get_resource
    else if str_eq v (codes "list")
    then some list_resource
    else if str_eq v (codes "watch")
    then some watch_resource
    else if str_eq v (codes "create")
    then some create_resource
    else if str_eq v (codes "update")
    then some update_resource
    else if str_eq v (codes "patch")
    then some patch_resource
    else if str_eq v (codes "delete")
    then some delete_resource
    else if str_eq v (codes "deletecollection")
    then some delete_collection
    else none

unfoldable pub refuse_verb : RequestInfo → Outcome Dispatched
refuse_verb info =
    err
      (method_not_supported (record { group = info.api_group; resource = info.resource }) info.verb)

unfoldable pub dispatch : {W : Type 0} → Handler W → RequestInfo → Option Call → Outcome Dispatched
unfolding refuse_verb
dispatch h info none = refuse_verb info
dispatch h info (some call) = ok (record {
  call = call;
  storage = lookup info.resource h.storages;
  scope = lookup info.resource h.request_scopes;
})

-- ServeHTTP; without a RequestInfo in the context the error's group is read from a nil pointer.
unfoldable pub serve_http : {W : Type 0} → Handler W → Option RequestInfo → Outcome Dispatched
unfolding dispatch call_of is_subresource_verb
serve_http h none = panic
serve_http h (some info) =
    if not (is_empty info.subresource)
    then if is_subresource_verb info.verb
      then dispatch h info (call_of info.verb)
      else refuse_verb info
    else dispatch h info (call_of info.verb)
