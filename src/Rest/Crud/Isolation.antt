-- ===== src/Rest/Crud/Isolation.antt =====
-- Tenants are isolated: no handler writes a manifest of another cluster or namespace.
use external_crd.Prelude.{◌≡◌, ◌≢◌, ◌⊎◌, inl, inr, true, Option, arith}
use external_crd.Prelude.Text.{Text, Lacks}
use external_crd.Prelude.Outcome.{Outcome, ok, unchecked}
use external_crd.Rest.User.{Context, get_user}
use external_crd.Rest.Objects.{
  Rest, Machinery, MachineryLaws, Backend, RuntimeObject, KubernetesCrd,
}
use external_crd.Rest.Names.{get_resource_name, get_normalized_manifest_name}
use external_crd.Rest.Names.Laws.{get_normalized_manifest_name_injective}
use external_crd.Rest.DryRun.{moves_namespace}
use external_crd.Rest.Crud.{create, save_update, update, delete}
use external_crd.Rest.Crud.Store.{FrameLaws}
use external_crd.Rest.Crud.Frame.{IsForeign, create-Kept, update-Kept, delete-Kept}

-- The manifests of another cluster, or of another namespace, are foreign, where the clusters,
-- namespaces and resources are words without ".".
IsForeign-other :
    (r r' : Rest) (ctx : Context) (cluster c' n' x' : Text)
    → get_user ctx ≡ ok cluster
    → (c' ≢ cluster) ⊎ (n' ≢ ctx.namespace)
    → Lacks b'.' (get_resource_name r).0
    → Lacks b'.' (get_resource_name r').0
    → Lacks b'.' cluster
    → Lacks b'.' c'
    → Lacks b'.' ctx.namespace
    → Lacks b'.' n'
    → IsForeign r ctx (get_normalized_manifest_name r' c' n' x')
IsForeign-other r r' ctx cluster c' n' x' caller differ hr hr' hc hc' hn hn' cluster' name caller'
      e =
    let same : cluster ≡ cluster' = cc (caller, caller') in
    let (_, same_c, same_n, _) =
      get_normalized_manifest_name_injective r' r c' n' x' cluster ctx.namespace name hr' hr hc' hc
        hn' hn (rw same e) in
    elim differ [ inl c ↦ c same_c | inr n ↦ n same_n ]

-- A write to this storage by the caller of `ctx`.
pub data Write (U O : Type 0) : Type 0 where
  creating : RuntimeObject U → Option (U → Outcome (Unit {0})) → O → Write U O
  updating :
      Text
      → (U → Outcome (RuntimeObject U))
      → Option (RuntimeObject U → U → Outcome (Unit {0}))
      → O
      → Write U O
  deleting : Text → Option (U → Outcome (Unit {0})) → O → Write U O

module _ {S U O : Type 0} (k : Machinery U) (b : Backend S U O) (r : Rest) (ctx : Context) where
  -- The state after the handler of a write, however it ends.
  abbrev pub after : Write U O → S → S
  after (creating obj v o) s = (create k b r ctx obj v o s).1
  after (updating name updated_object v o) s = (update k b r ctx name updated_object v o s).1
  after (deleting name v o) s = (delete k b r ctx name v o s).1

module _ {S U O : Type 0} (k : Machinery U) (b : Backend S U O) (r : Rest) (ctx : Context) where
  save_update_refused :
      (name : Text) (f : U → Outcome (RuntimeObject U))
      (v : Option (RuntimeObject U → U → Outcome (Unit {0}))) (o : O) (s : S)
      → ((cluster : Text) → get_user ctx ≢ ok cluster)
      → (save_update k b r ctx name f v o s).1 ≡ s
  unfolding save_update
  save_update_refused name f v o s refused = unchecked (get_user ctx) _ s refused

  -- A create, an update or a delete leaves the server's state as it was if `getUser` does not let
  -- the caller through.
  pub unauthorized_writes_nothing :
      (w : Write U O) (s : S)
      → ((cluster : Text) → get_user ctx ≢ ok cluster)
      → after k b r ctx w s ≡ s
  unfolding create update delete
  unauthorized_writes_nothing (creating obj v o) s refused = unchecked (get_user ctx) _ s refused
  unauthorized_writes_nothing (updating name f v o) s refused =
      ground (arith, save_update_refused name f v o s refused)
  unauthorized_writes_nothing (deleting name v o) s refused = unchecked (get_user ctx) _ s refused

module _ {S U O : Type 0} (k : Machinery U) (b : Backend S U O)
    (stored : S → Text → Text → Option (KubernetesCrd U)) (machinery : MachineryLaws k)
    (store : FrameLaws k b stored) (r r' : Rest) (ctx : Context) where
  foreign-after :
      (w : Write U O) (s : S) (m : Text)
      → moves_namespace r ≡ true
      → IsForeign r ctx m
      → stored (after k b r ctx w s) r.reserved_namespace m ≡ stored s r.reserved_namespace m
  foreign-after (creating obj v o) s m moves other =
      create-Kept k b stored machinery store r ctx m other obj v o s moves
  foreign-after (updating name f v o) s m moves other =
      update-Kept k b stored machinery store r ctx m other name f v o s
  foreign-after (deleting name v o) s m moves other =
      delete-Kept k b stored machinery store r ctx m other name v o s

  -- A create, an update or a delete of a namespaced resource that is not of kind Namespace, by a
  -- caller whom `getUser` lets through for a cluster, whether it succeeds or fails, leaves every
  -- manifest of another cluster or of another namespace as it was, for any resource, if the
  -- clusters, the namespaces and the resources are words without ".", the accessors of objects
  -- write their own fields, and the server's verbs write only the manifest that they name.
  pub tenant_isolation :
      (w : Write U O) (s : S) (cluster c' n' x' : Text)
      → moves_namespace r ≡ true
      → get_user ctx ≡ ok cluster
      → (c' ≢ cluster) ⊎ (n' ≢ ctx.namespace)
      → Lacks b'.' (get_resource_name r).0
      → Lacks b'.' (get_resource_name r').0
      → Lacks b'.' cluster
      → Lacks b'.' c'
      → Lacks b'.' ctx.namespace
      → Lacks b'.' n'
      → stored (after k b r ctx w s) r.reserved_namespace (get_normalized_manifest_name r' c' n' x')
        ≡ stored s r.reserved_namespace (get_normalized_manifest_name r' c' n' x')
  tenant_isolation w s cluster c' n' x' moves caller differ hr hr' hc hc' hn hn' =
      foreign-after w s (get_normalized_manifest_name r' c' n' x') moves
        (IsForeign-other r r' ctx cluster c' n' x' caller differ hr hr' hc hc' hn hn')
