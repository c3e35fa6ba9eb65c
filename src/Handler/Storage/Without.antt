-- ===== src/Handler/Storage/Without.antt =====
-- What `removeStorage` of customresource_handler.go leaves.
use external_crd.Prelude.{◌≡◌, refl, Option, none, some, arith, if◌then◌else◌}
use external_crd.Prelude.Text.{Text, str_eq}
use external_crd.Prelude.Maps.{lookup, delete, lookup-delete}
use external_crd.Prelude.Outcome.{ok}
use external_crd.Handler.Crd.{Crd, CrdFunctions}
use external_crd.Handler.Discovery.{Discovery, remove_crd}
use external_crd.Handler.State.{WebServices, Handler}
use external_crd.Handler.Storage.{remove_from, remove_discovered, remove_storage}

-- A state without a definition: nothing under its plural, discovery without it, and the rest as in `h`.
pub record IsWithout (W : Type 0) (h : Handler W) (crd : Crd) (d : Discovery) (h' : Handler W)
    : Type 0 where
  pub storages :
      (n : Text)
      → lookup n h'.storages ≡ (if str_eq crd.plural n then none else lookup n h.storages)
  pub request_scopes :
      (n : Text)
      → lookup n h'.request_scopes
        ≡ (if str_eq crd.plural n then none else lookup n h.request_scopes)
  pub discovery : h'.discovery ≡ some (remove_crd d crd)
  pub priorities : h'.priorities ≡ h.priorities

module _ {W : Type 0} (f : CrdFunctions) (w : WebServices W) where
  remove_from-IsWithout :
      (h : Handler W) (ws : Option W) (crd : Crd) (d : Discovery) (h0 : Handler W)
      → IsWithout W h crd d h0
      → IsWithout W h crd d (remove_from f w h0 ws crd)
  unfolding remove_from
  remove_from-IsWithout h none crd d h0 c = c
  remove_from-IsWithout h (some ws) crd d h0 c = record {
    storages = c.storages;
    request_scopes = c.request_scopes;
    discovery = c.discovery;
    priorities = c.priorities;
  }

  remove_discovered_lem :
      (h : Handler W) (o : Option Discovery) (crd : Crd) (d : Discovery)
      → o ≡ some d
      → ((remove_discovered f w h o crd).0 ≡ ok tt)
        × IsWithout W h crd d (remove_discovered f w h o crd).1
  unfolding remove_discovered
  remove_discovered_lem h none crd d e = absurd (ground arith)
  remove_discovered_lem h (some x) crd d e = (
    refl,
    remove_from-IsWithout h h.ws crd d
        (record h {
          discovery = some (remove_crd x crd);
          storages = delete crd.plural h.storages;
          request_scopes = delete crd.plural h.request_scopes;
        })
        (record {
          storages = λ n. lookup-delete crd.plural n h.storages;
          request_scopes = λ n. lookup-delete crd.plural n h.request_scopes;
          discovery = cc;
          priorities = refl;
        }),
  )

  pub remove_storage-IsWithout :
      (h : Handler W) (crd : Crd) (d : Discovery)
      → h.discovery ≡ some d
      → ((remove_storage f w h crd).0 ≡ ok tt) × IsWithout W h crd d (remove_storage f w h crd).1
  unfolding remove_storage
  remove_storage-IsWithout h crd d e = remove_discovered_lem h h.discovery crd d e
