-- ===== src/Handler/Events/Addition.antt =====
-- What an addition does: `addCustomResourceDefinition` of customresource_handler.go, and the requests
-- that `ServeHTTP` gets behind it.
use external_crd.Prelude.{
  ◌≡◌, refl, ◌∙◌, ap, ◌⊎◌, inl, inr, Bool-cases, not, false, Option, some, arith,
}
use external_crd.Prelude.Text.{Text, str_eq}
use external_crd.Prelude.Text.Laws.{str_eq_refl}
use external_crd.Prelude.Maps.{lookup}
use external_crd.Prelude.Int.{ℤ}
use external_crd.Prelude.Outcome.{ok, err, panic}
use external_crd.Rest.Objects.{Rest}
use external_crd.Rest.Names.{group_version_kind}
use external_crd.Handler.Priority.{ApiServiceLister}
use external_crd.Handler.Crd.{Crd, CrdFunctions, Subresources}
use external_crd.Handler.Discovery.{Discovery, update_crd}
use external_crd.Handler.Discovery.Listed.{in_namespaces, in_namespaces_lem}
use external_crd.Handler.State.{WebServices, RequestScope, Handler, storage_of}
use external_crd.Handler.Routes.{scope_of}
use external_crd.Handler.Storage.{add_storage}
use external_crd.Handler.Storage.Added.{add_storage-IsWith}
use external_crd.Handler.Storage.Decided.{IsUnchanged, Eligible, add_storage-Decided}
use external_crd.Handler.Events.{is_own, logged, add_custom_resource_definition}

-- A storage that serves the definition at the version.
pub record IsStorage (crd : Crd) (version reserved : Text) (r : Rest) : Type 0 where
  pub name : r.name ≡ crd.plural
  pub kind : r.kind ≡ crd.kind
  pub group : r.group ≡ crd.group
  pub at_version : r.version ≡ version
  pub namespaced : r.namespaced ≡ in_namespaces crd.scope
  pub short_names : r.short_names ≡ crd.short_names
  pub reserved_namespace : r.reserved_namespace ≡ reserved

-- The request scope of that storage.
pub record IsScope (crd : Crd) (version : Text) (bytes : ℤ) (s : RequestScope) : Type 0 where
  pub resource : s.resource ≡ crd.plural
  pub kind : s.group_version_kind ≡ record { group = crd.group; version = version; kind = crd.kind }
  pub cluster_scoped : s.cluster_scoped ≡ not (in_namespaces crd.scope)
  pub max_request_body_bytes : s.max_request_body_bytes ≡ bytes

storage_of-IsStorage :
    (crd : Crd) (version reserved : Text)
    → IsStorage crd version reserved (storage_of reserved crd version)
unfolding storage_of
storage_of-IsStorage crd version reserved = record {
  name = refl;
  kind = refl;
  group = refl;
  at_version = refl;
  namespaced = in_namespaces_lem crd.scope;
  short_names = refl;
  reserved_namespace = refl;
}

module _ {W : Type 0} (f : CrdFunctions) (w : WebServices W) (lister : ApiServiceLister) where
  scope_of-IsScope :
      (crd : Crd) (version reserved : Text) (bytes : ℤ) (subs : Option Subresources)
      → IsScope crd version bytes (scope_of f w bytes crd (storage_of reserved crd version) subs)
  unfolding scope_of storage_of group_version_kind
  scope_of-IsScope crd version reserved bytes subs = record {
    resource = refl;
    kind = refl;
    cluster_scoped = ap not (in_namespaces_lem crd.scope);
    max_request_body_bytes = refl;
  }

  -- The state behind an add event that stores the definition: a storage and a scope for it, what was there
  -- under every other name, and its entry in discovery.
  pub record IsServing (h : Handler W) (crd : Crd) (h' : Handler W) : Type 0 where
    pub version : Text
    pub storage_version : f.get_storage_version crd ≡ ok version
    pub storage : Rest
    pub scope : RequestScope
    pub has_storage : lookup crd.plural h'.storages ≡ some storage
    pub has_scope : lookup crd.plural h'.request_scopes ≡ some scope
    pub is_storage : IsStorage crd version h.reserved_namespace storage
    pub is_scope : IsScope crd version h.max_request_body_bytes scope
    pub other_storages :
        (n : Text) → str_eq crd.plural n ≡ false → lookup n h'.storages ≡ lookup n h.storages
    pub other_scopes :
        (n : Text)
        → str_eq crd.plural n ≡ false
        → lookup n h'.request_scopes ≡ lookup n h.request_scopes
    pub listed :
        (d : Discovery) × (h.discovery ≡ some d) × (h'.discovery ≡ some (update_crd f d crd))

  stored-IsServing :
      (h : Handler W) (crd : Crd)
      → Eligible f w lister h crd
      → IsServing h crd (add_storage f w lister h crd).1
  stored-IsServing h crd (ws, d, version, subs, e) =
      let (_, c) = add_storage-IsWith f w lister h crd ws d version subs e in
      record {
        version = version;
        storage_version = e.storage_version;
        storage = storage_of h.reserved_namespace crd version;
        scope =
            scope_of f w h.max_request_body_bytes crd (storage_of h.reserved_namespace crd version)
              subs;
        has_storage = c.storages crd.plural ∙ rw (str_eq_refl crd.plural) refl;
        has_scope = c.request_scopes crd.plural ∙ rw (str_eq_refl crd.plural) refl;
        is_storage = storage_of-IsStorage crd version h.reserved_namespace;
        is_scope = scope_of-IsScope crd version h.reserved_namespace h.max_request_body_bytes subs;
        other_storages = λ n differs. c.storages n ∙ rw differs refl;
        other_scopes = λ n differs. c.request_scopes n ∙ rw differs refl;
        listed = (d, e.discovered, c.discovery);
      }

  logged_state : (r : _) → (logged f w r).1 ≡ r.1
  logged_state (ok x, h) = refl
  logged_state (err e, h) = refl
  logged_state (panic, h) = refl

  -- On an add event the handler stores the definition exactly if its group is not one of the
  -- program's own, it is not being deleted, its storage version is found and served, its
  -- subresources are found, its group is not outranked, and the handler has its web service and
  -- discovery: then the maps have under the plural a storage with the names, the kind, the group,
  -- the storage version and the scope of the definition and a request scope for it, under every
  -- other name what was there, and discovery has the definition; and otherwise both maps stay as
  -- they were.
  pub add_event_decided :
      (h : Handler W) (crd : Crd)
      → ((is_own crd ≡ false)
          × Eligible f w lister h crd
          × IsServing h crd (add_custom_resource_definition f w lister h crd).1)
        ⊎ (IsUnchanged W h (add_custom_resource_definition f w lister h crd).1
            × ¬ ((is_own crd ≡ false) × Eligible f w lister h crd))
  unfolding add_custom_resource_definition
  add_event_decided h crd = elim (Bool-cases (is_own crd)) [
    | inl own ↦
        rw own (
          inr
            (record { storages = refl; request_scopes = refl }, λ p. absurd (ground (arith, p.0))))
    | inr other ↦
        rw (other, logged_state (add_storage f w lister h crd))
          (elim (add_storage-Decided f w lister h crd) [
            | inl e ↦ inl (refl, e, stored-IsServing h crd e)
            | inr (u, refused) ↦ inr (u, λ p. refused p.1)
          ])
  ]
