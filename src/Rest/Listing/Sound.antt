-- ===== src/Rest/Listing/Sound.antt =====
-- What `List` of rest.go returns.
use external_crd.Prelude.{◌≡◌, ◌∙◌, ap, true, Option, none, some, List, [], ◌∷◌, arith, All}
use mathlib.Core.Path.{subst}
use external_crd.Prelude.Text.{Text}
use external_crd.Prelude.Outcome.{ok, ok_injective, then_do, then_do-eq-ok}
use external_crd.Rest.User.{Context, get_user}
use external_crd.Rest.Objects.{
  Rest, Machinery, Backend, KubernetesCrd, KubernetesCrdList, UnstructuredList, Query,
}
use external_crd.Rest.Manifest.{or_empty}
use external_crd.Rest.Listing.{
  Selectors, ListOptions, convert_list_options_to_labels, list_query, transform_all, list_header,
  list,
}
use external_crd.Rest.Listing.Selects.{SelectorLaws, IsSelected, convert_list_options_to_labels_iff}

module _ {S U O L R : Type 0} (k : Machinery U) (b : Backend S U O) (sel : Selectors L R)
    (laws : SelectorLaws sel) where
  -- The server's List returns manifests that match the label selector of the query.
  pub record ListLaws : Type 0 where
    pub list_selects :
        (ns : Text) (q : Query) (s : S) (out : KubernetesCrdList U) (label : L)
        → b.list ns q s ≡ ok out
        → q.label_selector ≡ sel.to_text label
        → All (λ crd. laws.matches label (or_empty crd.meta.labels) ≡ true) out.items

  All-map :
      {P Q : KubernetesCrd U → Type 0} (f : (c : KubernetesCrd U) → P c → Q c)
      (cs : List (KubernetesCrd U))
      → All P cs
      → All Q cs
  All-map f [] h = tt
  All-map f (c ∷ cs) (p, h) = (f c p, All-map f cs h)

  list_query_selector :
      (label : L) (options : Option (ListOptions L)) (q : Query)
      → list_query sel label options ≡ ok q
      → q.label_selector ≡ sel.to_text label
  unfolding list_query
  list_query_selector label none q h = absurd (ground arith)
  list_query_selector label (some options) q h = ground arith

  -- How a list succeeds: the selector, the query, the manifests of the server, the objects.
  pub record IsListed (r : Rest) (ctx : Context) (options : Option (ListOptions L)) (s : S)
      (out : UnstructuredList U) : Type 0 where
    pub label : L
    pub query : Query
    pub manifests : KubernetesCrdList U
    pub converted : convert_list_options_to_labels sel r ctx options ≡ ok label
    pub queried : list_query sel label options ≡ ok query
    pub answered : b.list r.reserved_namespace query s ≡ ok manifests
    pub transformed : transform_all k manifests.items ≡ ok out.items

  pub list-IsListed :
      (r : Rest) (ctx : Context) (options : Option (ListOptions L)) (s : S)
      (out : UnstructuredList U)
      → list k b sel r ctx options s ≡ ok out
      → IsListed r ctx options s out
  unfolding list
  list-IsListed r ctx options s out h =
      let give = λ (ms : KubernetesCrdList U). λ (us : List U). ok (list_header k r ms us) in
      let read = λ (ms : KubernetesCrdList U). then_do (transform_all k ms.items) (give ms) in
      let ask = λ (q : Query). then_do (b.list r.reserved_namespace q s) read in
      let query = λ (l : L). then_do (list_query sel l options) ask in
      let (label, converted, h1) =
        then_do-eq-ok (convert_list_options_to_labels sel r ctx options) query h in
      let (q, queried, h2) = then_do-eq-ok (list_query sel label options) ask h1 in
      let (ms, answered, h3) = then_do-eq-ok (b.list r.reserved_namespace q s) read h2 in
      let (us, transformed, h4) = then_do-eq-ok (transform_all k ms.items) (give ms) h3 in
      record {
        label = label;
        query = q;
        manifests = ms;
        converted = converted;
        queried = queried;
        answered = answered;
        transformed = transformed ∙ ap ok (ap (λ x. x.items) (ok_injective h4));
      }

  -- Each object of a list comes from a manifest that `IsSelected` for the caller, in the same order.
  pub list_sound :
      ListLaws
      → (r : Rest) (ctx : Context) (options : Option (ListOptions L)) (s : S)
        (out : UnstructuredList U)
      → list k b sel r ctx options s ≡ ok out
      → (cluster : Text) × (manifests : KubernetesCrdList U) × (get_user ctx ≡ ok cluster)
        × All
            (λ crd. IsSelected sel laws r ctx options cluster (or_empty crd.meta.labels))
            manifests.items
        × (transform_all k manifests.items ≡ ok out.items)
  list_sound server r ctx options s out h =
      let c = list-IsListed r ctx options s out h in
      let (cluster, caller, _) =
        convert_list_options_to_labels_iff sel laws r ctx options c.label [] c.converted in
      (
        cluster,
        c.manifests,
        caller,
        All-map (selected c.label cluster caller c.converted) c.manifests.items (
            server.list_selects r.reserved_namespace c.query s c.manifests c.label c.answered
              (list_query_selector c.label options c.query c.queried)),
        c.transformed,
      )
    where
      selected :
          (label : L) (cluster : Text)
          → get_user ctx ≡ ok cluster
          → convert_list_options_to_labels sel r ctx options ≡ ok label
          → (crd : KubernetesCrd U) → laws.matches label (or_empty crd.meta.labels) ≡ true
          → IsSelected sel laws r ctx options cluster (or_empty crd.meta.labels)
      selected label cluster caller converted crd t =
          let (c, caller', iff) =
            convert_list_options_to_labels_iff sel laws r ctx options label
              (or_empty crd.meta.labels) converted in
          let same : c ≡ cluster = cc (caller, caller') in
          subst (λ x. IsSelected sel laws r ctx options x (or_empty crd.meta.labels)) same (iff.0 t)
