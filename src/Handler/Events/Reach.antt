-- ===== src/Handler/Events/Reach.antt =====
-- The states that `crdHandler` of customresource_handler.go can come to, from its constructor by its
-- methods and by the events of the informer.
use external_crd.Prelude.{◌≡◌, refl, Bool, Bool-cases, true, inl, inr, Option, none, some}
use external_crd.Prelude.Text.{Text}
use external_crd.Prelude.Int.{ℤ}
use external_crd.Prelude.Outcome.{ok, err, panic}
use external_crd.Handler.Priority.{ApiServiceLister}
use external_crd.Handler.Crd.{Crd, CrdFunctions}
use external_crd.Handler.Discovery.{ApiResource}
use external_crd.Handler.State.{WebServices, Handler, is_some}
use external_crd.Handler.Storage.{Result, add_storage, remove_storage}
use external_crd.Handler.Storage.Consistent.{
  IsConsistent, add_storage-IsConsistent, remove_storage-IsConsistent,
}
use external_crd.Handler.Events.{
  is_own, Deleted, definition, tombstone, unknown, new_crd_handler, add_non_crd_api_resource,
  set_root_web_service, logged, then_add, add_custom_resource_definition,
  update_custom_resource_definition, delete_custom_resource_definition,
}

module _ {W : Type 0} (f : CrdFunctions) (w : WebServices W) (reserved : Text) (bytes : ℤ) where
  -- The informer's listers may change between two events.
  pub data Reach : Handler W → Type 0 where
    start : Reach (new_crd_handler f w reserved bytes)
    non_crd : {h : Handler W} (a : ApiResource) → Reach h → Reach (add_non_crd_api_resource f w h a)
    root : {h : Handler W} (ws : W) → Reach h → Reach (set_root_web_service f w h ws).1
    added :
        {h : Handler W} (l : ApiServiceLister) (crd : Crd)
        → Reach h
        → Reach (add_custom_resource_definition f w l h crd).1
    updated :
        {h : Handler W} (l : ApiServiceLister) (old new : Crd)
        → Reach h
        → Reach (update_custom_resource_definition f w l h old new).1
    deleted :
        {h : Handler W} (d : Deleted)
        → Reach h
        → Reach (delete_custom_resource_definition f w h d).1

  logged_state : (r : Result f w) → (logged f w r).1 ≡ r.1
  logged_state (ok _, h) = refl
  logged_state (err _, h) = refl
  logged_state (panic, h) = refl

  then_add-IsConsistent :
      (l : ApiServiceLister) (crd : Crd) (r : Result f w)
      → IsConsistent W r.1
      → IsConsistent W (then_add f w l crd r).1
  then_add-IsConsistent l crd (ok _, h) c =
      rw (logged_state (add_storage f w l h crd)) (add_storage-IsConsistent f w l h crd c)
  then_add-IsConsistent l crd (err _, h) c = c
  then_add-IsConsistent l crd (panic, h) c = c

  set_root-IsConsistent :
      (h : Handler W) (ws : W) → IsConsistent W h → IsConsistent W (set_root_web_service f w h ws).1
  unfolding set_root_web_service
  set_root-IsConsistent h ws c = elim (Bool-cases (is_some h.ws)) [
    | inl e ↦ rw e c
    | inr e ↦ rw e (record { agree = c.agree; rooted = refl })
  ]

  add-IsConsistent :
      (l : ApiServiceLister) (h : Handler W) (crd : Crd)
      → IsConsistent W h
      → IsConsistent W (add_custom_resource_definition f w l h crd).1
  unfolding add_custom_resource_definition
  add-IsConsistent l h crd c = elim (Bool-cases (is_own crd)) [
    | inl e ↦ rw e c
    | inr e ↦
        rw (e, logged_state (add_storage f w l h crd)) (add_storage-IsConsistent f w l h crd c)
  ]

  update-IsConsistent :
      (l : ApiServiceLister) (h : Handler W) (old new : Crd)
      → IsConsistent W h
      → IsConsistent W (update_custom_resource_definition f w l h old new).1
  unfolding update_custom_resource_definition
  update-IsConsistent l h old new c = elim (Bool-cases (is_some new.deletion_timestamp)) [
    | inl e ↦ rw e c
    | inr e ↦ rw e (elim (Bool-cases (f.deep_equal_specs old new)) [
      | inl e ↦ rw e c
      | inr e ↦ rw e (elim (Bool-cases (is_own new)) [
        | inl e ↦ rw e c
        | inr e ↦ rw e (
            then_add-IsConsistent l new (remove_storage f w h old)
              (remove_storage-IsConsistent f w h old c))
      ])
    ])
  ]

  delete-IsConsistent :
      (h : Handler W) (d : Deleted)
      → IsConsistent W h
      → IsConsistent W (delete_custom_resource_definition f w h d).1
  unfolding delete_custom_resource_definition
  delete-IsConsistent h (definition crd) c = remove_storage-IsConsistent f w h crd c
  delete-IsConsistent h (tombstone none) c = c
  delete-IsConsistent h (tombstone (some crd)) c = remove_storage-IsConsistent f w h crd c
  delete-IsConsistent h unknown c = c

  -- In every state that the handler can come to, a resource has a storage exactly if it has a
  -- request scope, the two are for that resource and agree on its group, version, kind and scope,
  -- and the version discovery is there exactly if the root web service is.
  pub Reach-IsConsistent : {h : Handler W} → Reach h → IsConsistent W h
  unfolding new_crd_handler add_non_crd_api_resource external_crd.Prelude.Maps.lookup
  Reach-IsConsistent start = record { agree = λ n. tt; rooted = refl }
  Reach-IsConsistent (non_crd a p) =
      let c = Reach-IsConsistent p in record { agree = c.agree; rooted = c.rooted }
  Reach-IsConsistent (root ws p) = set_root-IsConsistent _ ws (Reach-IsConsistent p)
  Reach-IsConsistent (added l crd p) = add-IsConsistent l _ crd (Reach-IsConsistent p)
  Reach-IsConsistent (updated l old new p) = update-IsConsistent l _ old new (Reach-IsConsistent p)
  Reach-IsConsistent (deleted d p) = delete-IsConsistent _ d (Reach-IsConsistent p)
