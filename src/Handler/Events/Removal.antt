-- ===== src/Handler/Events/Removal.antt =====
-- What a removal leaves: `deleteCustomResourceDefinition` and `updateCustomResourceDefinition` of
-- customresource_handler.go.
use external_crd.Prelude.{◌⊎◌, ◌≡◌, inl, inr, some}
use external_crd.Prelude.Outcome.{ok}
use external_crd.Handler.Crd.{Crd, CrdFunctions}
use external_crd.Handler.Discovery.{Discovery}
use external_crd.Handler.State.{WebServices, Handler}
use external_crd.Handler.Storage.Without.{IsWithout, remove_storage-IsWithout}
use external_crd.Handler.Events.{Deleted, definition, tombstone, delete_custom_resource_definition}

module _ {W : Type 0} (f : CrdFunctions) (w : WebServices W) where
  -- On a delete event for a definition, be it given itself or by a tombstone, a handler with a
  -- version discovery ends without an error or a panic, in a state with no storage and no request
  -- scope for the definition's plural and with those of every other name, with the discovery that
  -- the removal of the definition leaves, and with the priorities as they were.
  pub delete_event_clears :
      (h : Handler W) (crd : Crd) (d : Discovery) (event : Deleted)
      → h.discovery ≡ some d
      → (event ≡ definition crd) ⊎ (event ≡ tombstone (some crd))
      → ((delete_custom_resource_definition f w h event).0 ≡ ok tt)
        × IsWithout W h crd d (delete_custom_resource_definition f w h event).1
  unfolding delete_custom_resource_definition
  delete_event_clears h crd d event e (inl given) =
      rw given (remove_storage-IsWithout f w h crd d e)
  delete_event_clears h crd d event e (inr given) =
      rw given (remove_storage-IsWithout f w h crd d e)
