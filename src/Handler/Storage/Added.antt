-- ===== src/Handler/Storage/Added.antt =====
-- What `addStorage` of customresource_handler.go leaves for a definition that it stores.
use external_crd.Prelude.{◌≡◌, refl, sym, ◌∙◌, ap, not, true, Option, none, some, if◌then◌else◌}
use mathlib.Core.Path.{subst}
use external_crd.Prelude.Text.{Text, str_eq}
use external_crd.Prelude.Maps.{lookup, lookup-put}
use external_crd.Prelude.Outcome.{ok}
use external_crd.Handler.Priority.{ApiServiceLister, can_be_added_to_storage}
use external_crd.Handler.Crd.{Crd, CrdFunctions, Subresources}
use external_crd.Handler.Discovery.{Discovery, update_crd}
use external_crd.Handler.State.{WebServices, Handler, is_some, storage_of}
use external_crd.Handler.Routes.{scope_of}
use external_crd.Handler.Storage.{
  add_served, add_with_subresources, add_discovered, add_allowed, add_version, add_stored, add_to,
  add_storage,
}

module _ {W : Type 0} (f : CrdFunctions) (w : WebServices W) (lister : ApiServiceLister) where
  -- A handler with its web service and discovery, and a definition that it may store: it is not being
  -- deleted, its storage version is served, and no group of a higher priority is recorded for the plural.
  pub record IsStorable (h : Handler W) (crd : Crd) (ws : W) (d : Discovery) (version : Text)
      (subs : Option Subresources) : Type 0 where
    pub alive : crd.deletion_timestamp ≡ none
    pub rooted : h.ws ≡ some ws
    pub discovered : h.discovery ≡ some d
    pub storage_version : f.get_storage_version crd ≡ ok version
    pub served : f.has_served_version crd version ≡ true
    pub allowed :
        (can_be_added_to_storage crd.group version crd.plural lister h.priorities).0 ≡ true
    pub subresources : f.get_subresources crd version ≡ ok subs

  -- A state with the definition: its storage and request scope under its plural, discovery with it, and
  -- the rest as in `h`.
  pub record IsWith (h : Handler W) (crd : Crd) (d : Discovery) (version : Text)
      (subs : Option Subresources) (h' : Handler W) : Type 0 where
    pub storages :
        (n : Text)
        → lookup n h'.storages ≡ (
            if str_eq crd.plural n
            then some (storage_of h.reserved_namespace crd version)
            else lookup n h.storages)
    pub request_scopes :
        (n : Text)
        → lookup n h'.request_scopes ≡ (
            if str_eq crd.plural n
            then some (
                scope_of f w h.max_request_body_bytes crd
                  (storage_of h.reserved_namespace crd version)
                  subs)
            else lookup n h.request_scopes)
    pub discovery : h'.discovery ≡ some (update_crd f d crd)

  -- The state after `addStorage`.
  with_definition : Handler W → Crd → W → Discovery → Text → Option Subresources → Handler W
  with_definition h crd ws d version subs =
      add_served f w
        (record h {
          priorities = (can_be_added_to_storage crd.group version crd.plural lister h.priorities).1;
          discovery = some (update_crd f d crd);
        })
        ws crd version subs

  add_version_lem :
      (h : Handler W) (crd : Crd) (ws : W) (d : Discovery) (version : Text)
      (subs : Option Subresources)
      → IsStorable h crd ws d version subs
      → add_version f w lister h ws crd version ≡ (ok tt, with_definition h crd ws d version subs)
  unfolding add_version add_allowed add_discovered add_with_subresources with_definition
  add_version_lem h crd ws d version subs e =
      let called = can_be_added_to_storage crd.group version crd.plural lister h.priorities in
      let h' = record h { priorities = called.1 } in
      ap
        (λ x.
          if not x
          then (ok tt, h)
          else if called.0
          then add_allowed f w h' ws crd version
          else (ok tt, h'))
        e.served
      ∙ ap (λ x. if x then add_allowed f w h' ws crd version else (ok tt, h')) e.allowed
      ∙ ap (λ x. add_discovered f w h' x ws crd version) e.discovered
      ∙ ap
          (add_with_subresources f w (record h' { discovery = some (update_crd f d crd) }) ws crd
            version)
          e.subresources

  add_storage_lem :
      (h : Handler W) (crd : Crd) (ws : W) (d : Discovery) (version : Text)
      (subs : Option Subresources)
      → IsStorable h crd ws d version subs
      → add_storage f w lister h crd ≡ (ok tt, with_definition h crd ws d version subs)
  unfolding add_storage add_to add_stored
  add_storage_lem h crd ws d version subs e =
      ap (λ x. if is_some x then (ok tt, h) else add_to f w lister h h.ws crd) e.alive
      ∙ ap (λ x. add_to f w lister h x crd) e.rooted
      ∙ ap (add_stored f w lister h ws crd) e.storage_version
      ∙ add_version_lem h crd ws d version subs e

  with_definition-IsWith :
      (h : Handler W) (crd : Crd) (ws : W) (d : Discovery) (version : Text)
      (subs : Option Subresources)
      → IsWith h crd d version subs (with_definition h crd ws d version subs)
  unfolding with_definition add_served
  with_definition-IsWith h crd ws d version subs = record {
    storages = λ n. lookup-put crd.plural n _ h.storages;
    request_scopes = λ n. lookup-put crd.plural n _ h.request_scopes;
    discovery = refl;
  }

  pub add_storage-IsWith :
      (h : Handler W) (crd : Crd) (ws : W) (d : Discovery) (version : Text)
      (subs : Option Subresources)
      → IsStorable h crd ws d version subs
      → ((add_storage f w lister h crd).0 ≡ ok tt)
        × IsWith h crd d version subs (add_storage f w lister h crd).1
  add_storage-IsWith h crd ws d version subs e =
      let done = add_storage_lem h crd ws d version subs e in
      (
        ap (λ x. x.0) done,
        subst (λ x. IsWith h crd d version subs x.1) (sym done)
            (with_definition-IsWith h crd ws d version subs),
      )
