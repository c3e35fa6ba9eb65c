-- ===== src/Handler/Storage/Consistent.antt =====
-- `addStorage` and `removeStorage` keep the two maps in step: a resource has a storage exactly if it has a request scope,
-- and the two agree.
use external_crd.Prelude.{
  ◌≡◌, refl, ap, ◌∙◌, sym, Bool-cases, true, not, inl, inr, Option, none, some,
}
use external_crd.Prelude.Text.{Text, str_eq}
use external_crd.Prelude.Text.Laws.{str_eq_iff}
use external_crd.Prelude.Maps.{lookup, put, delete, lookup-put, lookup-delete}
use external_crd.Prelude.Int.{ℤ}
use external_crd.Prelude.Outcome.{Outcome, ok, err, panic}
use external_crd.Rest.Objects.{Rest}
use external_crd.Rest.Names.{group_version_kind}
use external_crd.Handler.Priority.{ApiServiceLister, can_be_added_to_storage}
use external_crd.Handler.Crd.{Crd, CrdFunctions, Subresources}
use external_crd.Handler.Discovery.{Discovery}
use external_crd.Handler.State.{WebServices, RequestScope, Handler, is_some, storage_of}
use external_crd.Handler.Routes.{scope_of}
use external_crd.Handler.Storage.{
  add_discovered, add_with_subresources, add_allowed, add_version, add_stored, add_to, add_storage,
  remove_discovered, remove_from, remove_storage,
}

-- The storage and the request scope under one name: both are missing, or both are there, are for that
-- resource, and agree on its group, version, kind and scope.
abbrev pub Agree : Text → Option Rest → Option RequestScope → Type 0
Agree n none none = Unit
Agree n none (some s) = ⊥
Agree n (some r) none = ⊥
Agree n (some r) (some s) =
    (r.name ≡ n)
    × (s.resource ≡ n)
    × (s.group_version_kind ≡ group_version_kind r)
    × (s.cluster_scoped ≡ not r.namespaced)

pub record IsConsistent (W : Type 0) (h : Handler W) : Type 0 where
  pub agree : (n : Text) → Agree n (lookup n h.storages) (lookup n h.request_scopes)
  pub rooted : is_some h.ws ≡ is_some h.discovery

module _ {W : Type 0} (f : CrdFunctions) (w : WebServices W) where
  Agree-made :
      (reserved : Text) (crd : Crd) (version : Text) (bytes : ℤ) (subs : Option Subresources)
      → Agree crd.plural
          (some (storage_of reserved crd version))
          (some (scope_of f w bytes crd (storage_of reserved crd version) subs))
  unfolding storage_of scope_of
  Agree-made reserved crd version bytes subs = (refl, refl, refl, refl)

  Agree-put :
      (h : Handler W) (name : Text) (r : Rest) (s : RequestScope)
      → Agree name (some r) (some s)
      → ((n : Text) → Agree n (lookup n h.storages) (lookup n h.request_scopes))
      → (n : Text)
      → Agree n (lookup n (put name r h.storages)) (lookup n (put name s h.request_scopes))
  Agree-put h name r s new old n =
      rw (lookup-put name n r h.storages, lookup-put name n s h.request_scopes)
        (elim (Bool-cases (str_eq name n)) [
          | inl e ↦ rw (e, ← (str_eq_iff name n).0 e) new
          | inr e ↦ rw e (old n)
        ])

  Agree-delete :
      (h : Handler W) (name : Text)
      → ((n : Text) → Agree n (lookup n h.storages) (lookup n h.request_scopes))
      → (n : Text)
      → Agree n (lookup n (delete name h.storages)) (lookup n (delete name h.request_scopes))
  Agree-delete h name old n =
      rw (lookup-delete name n h.storages, lookup-delete name n h.request_scopes)
        (elim (Bool-cases (str_eq name n)) [ inl e ↦ rw e tt | inr e ↦ rw e (old n) ])

  module _ (lister : ApiServiceLister) where
    add_with_subresources-IsConsistent :
        (h : Handler W) (ws : W) (crd : Crd) (version : Text) (subs : Outcome (Option Subresources))
        → is_some h.ws ≡ true
        → IsConsistent W h
        → IsConsistent W (add_with_subresources f w h ws crd version subs).1
    unfolding add_with_subresources
    add_with_subresources-IsConsistent h ws crd version (ok subs) served c = record {
      agree =
          Agree-put h crd.plural (storage_of h.reserved_namespace crd version)
            (scope_of f w h.max_request_body_bytes crd (storage_of h.reserved_namespace crd version)
              subs)
            (Agree-made h.reserved_namespace crd version h.max_request_body_bytes subs) c.agree;
      rooted = sym served ∙ c.rooted;
    }
    add_with_subresources-IsConsistent h ws crd version (err e) served c = c
    add_with_subresources-IsConsistent h ws crd version panic served c = c

    add_discovered-IsConsistent :
        (h : Handler W) (d : Option Discovery) (ws : W) (crd : Crd) (version : Text)
        → h.discovery ≡ d
        → is_some h.ws ≡ true
        → IsConsistent W h
        → IsConsistent W (add_discovered f w h d ws crd version).1
    unfolding add_discovered
    add_discovered-IsConsistent h none ws crd version e served c = c
    add_discovered-IsConsistent h (some d) ws crd version e served c =
        add_with_subresources-IsConsistent _ ws crd version (f.get_subresources crd version) served
          (record { agree = c.agree; rooted = c.rooted ∙ ap is_some e })

    add_allowed-IsConsistent :
        (h : Handler W) (ws : W) (crd : Crd) (version : Text)
        → is_some h.ws ≡ true
        → IsConsistent W h
        → IsConsistent W (add_allowed f w h ws crd version).1
    unfolding add_allowed
    add_allowed-IsConsistent h ws crd version served c =
        add_discovered-IsConsistent h h.discovery ws crd version refl served c

    add_version-IsConsistent :
        (h : Handler W) (ws : W) (crd : Crd) (version : Text)
        → is_some h.ws ≡ true
        → IsConsistent W h
        → IsConsistent W (add_version f w lister h ws crd version).1
    unfolding add_version
    add_version-IsConsistent h ws crd version served c =
        let call = can_be_added_to_storage crd.group version crd.plural lister h.priorities in
        let h' = record h { priorities = call.1 } in
        let kept : IsConsistent W h' = record { agree = c.agree; rooted = c.rooted } in
        elim (Bool-cases (f.has_served_version crd version)) [
          | inr e ↦ rw e c
          | inl e ↦ rw e (elim (Bool-cases call.0) [
            | inl allowed ↦ rw allowed (add_allowed-IsConsistent h' ws crd version served kept)
            | inr refused ↦ rw refused kept
          ])
        ]

    add_stored-IsConsistent :
        (h : Handler W) (ws : W) (crd : Crd) (version : Outcome Text)
        → is_some h.ws ≡ true
        → IsConsistent W h
        → IsConsistent W (add_stored f w lister h ws crd version).1
    unfolding add_stored
    add_stored-IsConsistent h ws crd (ok version) served c =
        add_version-IsConsistent h ws crd version served c
    add_stored-IsConsistent h ws crd (err e) served c = c
    add_stored-IsConsistent h ws crd panic served c = c

    add_to-IsConsistent :
        (h : Handler W) (ws : Option W) (crd : Crd)
        → h.ws ≡ ws
        → IsConsistent W h
        → IsConsistent W (add_to f w lister h ws crd).1
    unfolding add_to
    add_to-IsConsistent h none crd e c = c
    add_to-IsConsistent h (some ws) crd e c =
        add_stored-IsConsistent h ws crd (f.get_storage_version crd) (rw e) c

    -- `addStorage` keeps the maps in step, on every path.
    pub add_storage-IsConsistent :
        (h : Handler W) (crd : Crd)
        → IsConsistent W h
        → IsConsistent W (add_storage f w lister h crd).1
    unfolding add_storage
    add_storage-IsConsistent h crd c = elim (Bool-cases (is_some crd.deletion_timestamp)) [
      | inl e ↦ rw e c
      | inr e ↦ rw e (add_to-IsConsistent h h.ws crd refl c)
    ]

  remove_from-IsConsistent :
      (h : Handler W) (ws : Option W) (crd : Crd)
      → h.ws ≡ ws
      → IsConsistent W h
      → IsConsistent W (remove_from f w h ws crd)
  unfolding remove_from
  remove_from-IsConsistent h none crd e c = c
  remove_from-IsConsistent h (some ws) crd e c = record {
    agree = c.agree;
    rooted = rw (← ap is_some e) (c.rooted);
  }

  remove_discovered-IsConsistent :
      (h : Handler W) (d : Option Discovery) (crd : Crd)
      → h.discovery ≡ d
      → IsConsistent W h
      → IsConsistent W (remove_discovered f w h d crd).1
  unfolding remove_discovered
  remove_discovered-IsConsistent h none crd e c = c
  remove_discovered-IsConsistent h (some d) crd e c =
      remove_from-IsConsistent _ h.ws crd refl
        (record { agree = Agree-delete h crd.plural c.agree; rooted = c.rooted ∙ ap is_some e })

  -- So does `removeStorage`.
  pub remove_storage-IsConsistent :
      (h : Handler W) (crd : Crd) → IsConsistent W h → IsConsistent W (remove_storage f w h crd).1
  unfolding remove_storage
  remove_storage-IsConsistent h crd c = remove_discovered-IsConsistent h h.discovery crd refl c
