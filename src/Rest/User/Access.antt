-- ===== src/Rest/User/Access.antt =====
-- What `getUser` has established when it lets a request through, and how it refuses.
use external_crd.Prelude.{
  ◌≡◌, refl, ◌≢◌, ◌↔◌, ◌∙◌, sym, ap, inl, inr, Option, Option-cases, false, none, some, [], ◌∷◌,
  arith,
}
use external_crd.Prelude.Text.{Text, is_empty}
use external_crd.Prelude.Text.Laws.{str_eq_iff, str_eq_refl}
use external_crd.Prelude.Outcome.{ok, then_do, then_do-eq-ok}
use external_crd.Rest.User.{Context, get_cluster_namespace, authorize, get_user}
use external_crd.Rest.User.Spelling.{
  Names, get_cluster_namespace-Names, Names-get_cluster_namespace,
}

-- The caller is a service account whose name gives the cluster and the namespace of the request,
-- which is not empty.
pub record IsAuthorized (ctx : Context) (cluster : Text) : Type 0 where
  pub account : Text
  pub known : ctx.user ≡ some account
  pub names : Names account cluster ctx.namespace
  pub namespaced : ctx.namespace ≢ []

is_empty-false : (s : Text) → is_empty s ≡ false → s ≢ []
unfolding is_empty
is_empty-false [] h = cc
is_empty-false (a ∷ s) h = cc

authorize_sound :
    (actual : Text) (r : Option (Text × Text)) (cluster : Text)
    → authorize actual r ≡ ok cluster
    → (r ≡ some (cluster, actual)) × (actual ≢ [])
unfolding authorize
authorize_sound actual none cluster h = cc
authorize_sound actual (some (c, authorized)) cluster h =
    (ground (arith, str_eq_iff actual authorized), is_empty-false actual (ground arith))

known_user :
    (ctx : Context) (account : Text)
    → ctx.user ≡ some account
    → get_user ctx ≡ then_do (get_cluster_namespace account) (authorize ctx.namespace)
unfolding get_user
known_user ctx account h = rw h

authorized :
    (ctx : Context) (account cluster : Text)
    → ctx.user ≡ some account
    → get_user ctx ≡ ok cluster
    → IsAuthorized ctx cluster
authorized ctx account cluster known h =
    let (r, parsed, checked) =
      then_do-eq-ok (get_cluster_namespace account) (authorize ctx.namespace)
        (sym (known_user ctx account known) ∙ h) in
    let (same, nonempty) = authorize_sound ctx.namespace r cluster checked in
    record {
      account = account;
      known = known;
      names = Names-get_cluster_namespace account cluster ctx.namespace (parsed ∙ ap ok same);
      namespaced = nonempty;
    }

authorize_complete :
    (actual cluster : Text) → actual ≢ [] → authorize actual (some (cluster, actual)) ≡ ok cluster
unfolding authorize is_empty
authorize_complete [] cluster h = absurd (h refl)
authorize_complete (a ∷ s) cluster h = rw (str_eq_refl (a ∷ s))

-- `getUser` lets a request through for a cluster exactly when the caller is a known user whose
-- name spells that cluster and the request's namespace, and that namespace is not empty.
pub get_user_iff :
    (ctx : Context) (cluster : Text) → (get_user ctx ≡ ok cluster) ↔ IsAuthorized ctx cluster
unfolding get_user
get_user_iff ctx cluster = (
  λ h. elim (Option-cases ctx.user) [
    | inl missing ↦ absurd (unknown missing h)
    | inr (account, known) ↦ authorized ctx account cluster known h
  ],
  λ a.
      known_user ctx a.account a.known
      ∙ rw (get_cluster_namespace-Names a.names)
          (authorize_complete ctx.namespace cluster a.namespaced),
)
  where
    unknown : ctx.user ≡ none → get_user ctx ≡ ok cluster → ⊥
    unknown m h = ground arith
