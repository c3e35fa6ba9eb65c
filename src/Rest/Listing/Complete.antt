-- ===== src/Rest/Listing/Complete.antt =====
-- What `Create` of rest.go has made, `List` returns.
use external_crd.Prelude.{◌≡◌, sym, ◌∙◌, ap, true, Option, none, some, List, [], ◌∷◌, ◌++◌, Occurs}
use mathlib.Core.Path.{subst}
use external_crd.Prelude.Text.{Text}
use external_crd.Prelude.Int.{pos}
use external_crd.Prelude.Outcome.{Outcome, ok, ok_injective, then_do-eq-ok}
use external_crd.Rest.User.{Context}
use external_crd.Rest.Objects.{
  Rest, Machinery, MachineryLaws, Backend, RuntimeObject, KubernetesCrd, KubernetesCrdList,
  UnstructuredList, Query, ListParams,
}
use external_crd.Rest.Manifest.{or_empty, transform_manifest}
use external_crd.Rest.Manifest.Labels.{IsLabelled, create_labels-IsLabelled}
use external_crd.Rest.DryRun.{moves_namespace}
use external_crd.Rest.Crud.{create, created_manifest}
use external_crd.Rest.Crud.Store.{CreateLaws}
use external_crd.Rest.Crud.ReadWrite.{IsCreated, create-IsCreated, in_namespace}
use external_crd.Rest.Listing.{Selectors, ListOptions, list_query, transform_all, list}
use external_crd.Rest.Listing.Selects.{SelectorLaws, IsSelected, convert_list_options_to_labels_iff}
use external_crd.Rest.Listing.Sound.{list-IsListed}

-- A page that is the whole list, and the most recent: no limit, no continue token and no resource version.
pub record IsWhole (p : ListParams) : Type 0 where
  pub unlimited : p.limit ≡ pos 0
  pub from_start : p.continue_token ≡ []
  pub most_recent : p.resource_version ≡ []
  pub unmatched : p.resource_version_match ≡ []

-- The options ask for no objects in particular.
pub record IsPlain {L : Type 0} (options : ListOptions L) : Type 0 where
  pub any_label : options.label_selector ≡ none
  pub any_field : options.field_selector ≡ none
  pub whole : IsWhole options.params

module _ {S U O L R : Type 0} (k : Machinery U) (b : Backend S U O) (sel : Selectors L R)
    (laws : SelectorLaws sel) (stored : S → Text → Text → Option (KubernetesCrd U)) where
  -- The server's most recent and whole List leaves out no manifest that matches the selector.
  pub record CompleteLaws : Type 0 where
    pub lists :
        (ns n : Text) (q : Query) (s : S) (out : KubernetesCrdList U) (label : L)
        (crd : KubernetesCrd U)
        → b.list ns q s ≡ ok out
        → q.label_selector ≡ sel.to_text label
        → q.field_selector ≡ []
        → IsWhole q.params
        → stored s ns n ≡ some crd
        → laws.matches label (or_empty crd.meta.labels) ≡ true
        → Occurs crd out.items

  -- An object of a manifest that occurs, occurs.
  Occurs-transform_all :
      (before after : List (KubernetesCrd U)) (crd : KubernetesCrd U) (us : List U) (u : U)
      → transform_all k (before ++ crd ∷ after) ≡ ok us
      → transform_manifest k crd ≡ ok u
      → Occurs u us
  unfolding transform_all
  Occurs-transform_all [] after crd us u h e =
      let (u', one, h1) = then_do-eq-ok (transform_manifest k crd) _ h in
      let (us', rest, h2) = then_do-eq-ok (transform_all k after) _ h1 in
      record {
        before = [];
        after = us';
        split = sym (ok_injective h2) ∙ ap (λ x. x ∷ us') (ok_injective (sym one ∙ e));
      }
  Occurs-transform_all (c ∷ before) after crd us u h e =
      let (u', one, h1) = then_do-eq-ok (transform_manifest k c) _ h in
      let (us', rest, h2) = then_do-eq-ok (transform_all k (before ++ crd ∷ after)) _ h1 in
      let o = Occurs-transform_all before after crd us' u rest e in
      record {
        before = u' ∷ o.before;
        after = o.after;
        split = sym (ok_injective h2) ∙ ap (λ x. u' ∷ x) o.split;
      }

  -- Labels that name the caller's cluster, the namespace and the kind are selected by plain options.
  IsSelected-plain :
      (r : Rest) (ctx : Context) (options : ListOptions L) (cluster name : Text) (m : _)
      → IsPlain options
      → IsLabelled r cluster name ctx.namespace m
      → IsSelected sel laws r ctx (some options) cluster m
  IsSelected-plain r ctx options cluster name m plain labelled = record {
    by_labels = rw (plain.any_label) (laws.matches-everything m);
    by_fields = rw (plain.any_field) tt;
    by_kind = labelled.has_kind;
    by_namespace = labelled.has_namespace;
    by_cluster = labelled.has_cluster;
  }

module _ {S U O L R : Type 0} (k : Machinery U) (b : Backend S U O) (sel : Selectors L R)
    (laws : SelectorLaws sel) (stored : S → Text → Text → Option (KubernetesCrd U))
    (machinery : MachineryLaws k) (store : CreateLaws k b stored)
    (complete : CompleteLaws k b sel laws stored) (r : Rest) (ctx : Context) where
  query_lem :
      (label : L) (options : ListOptions L) (q : Query)
      → list_query sel label (some options) ≡ ok q
      → (q.label_selector ≡ sel.to_text label)
        × (q.field_selector ≡ [])
        × (q.params ≡ options.params)
  unfolding list_query
  query_lem label options q h =
      let same = ok_injective h in
      (
        ap (λ x. x.label_selector) (sym same),
        ap (λ x. x.field_selector) (sym same),
        ap (λ x. x.params) (sym same),
      )

  -- The manifest that a create has made carries the labels of its cluster, namespace and resource.
  saved-IsLabelled :
      (obj : RuntimeObject U) (o : O) (s s' : S) (u : U)
      (c : IsCreated k b stored machinery store r ctx obj o s u s')
      → moves_namespace r ≡ true
      → IsLabelled r c.cluster (k.get_name c.actual) ctx.namespace (or_empty c.saved.meta.labels)
  unfolding created_manifest
  saved-IsLabelled obj o s s' u c moves =
      let kept =
        store.create_labelled r.reserved_namespace (created_manifest k b r ctx c.cluster c.actual)
          c.saved s s' c.wrote in
      rw (kept, in_namespace k b stored machinery store r ctx c moves)
        (create_labels-IsLabelled r c.cluster (k.get_name c.actual) ctx.namespace
          (k.get_labels c.actual))

  -- For a resource whose objects are in namespaces: an object that `Create` has returned occurs in
  -- every list that `List` then returns to the same request for options without selectors, limit,
  -- continue token or resource version, given that the server stores the manifest with its labels
  -- and that its own most recent List leaves out no manifest that matches the selector.
  pub list-create :
      (obj : RuntimeObject U) (v : Option (U → Outcome (Unit {0}))) (o : O)
      (options : ListOptions L) (s s' : S) (u : U) (out : UnstructuredList U)
      → moves_namespace r ≡ true
      → create k b r ctx obj v o s ≡ (ok u, s')
      → IsPlain options
      → list k b sel r ctx (some options) s' ≡ ok out
      → Occurs u out.items
  list-create obj v o options s s' u out moves made plain h =
      let c = create-IsCreated k b stored machinery store r ctx obj v o s s' u made in
      let l = list-IsListed k b sel laws r ctx (some options) s' out h in
      let crd = created_manifest k b r ctx c.cluster c.actual in
      let labels = or_empty c.saved.meta.labels in
      let (cluster, caller, iff) =
        convert_list_options_to_labels_iff sel laws r ctx (some options) l.label labels
          l.converted in
      let same : c.cluster ≡ cluster = ok_injective (sym c.caller ∙ caller) in
      let selected =
        IsSelected-plain k b sel laws stored r ctx options c.cluster (k.get_name c.actual) labels
          plain (saved-IsLabelled obj o s s' u c moves) in
      let (label_text, no_field, params) = query_lem l.label options l.query l.queried in
      let there =
        complete.lists r.reserved_namespace crd.meta.name l.query s' l.manifests l.label c.saved
          l.answered label_text no_field (subst IsWhole (sym params) plain.whole)
          (store.create_stores r.reserved_namespace crd c.saved s s' c.wrote)
          (iff.1 (subst (λ x. IsSelected sel laws r ctx (some options) x labels) same selected)) in
      Occurs-transform_all k b sel laws stored there.before there.after c.saved out.items u
        (subst (λ x. transform_all k x ≡ ok out.items) there.split l.transformed) c.returned
