-- ===== src/Rest/Watch.antt =====
-- `Watch` of pkg/apiserver/overlay/rest.go: what it asks of the server, and how its events are made
-- into objects. Its wrapper is Utils/Watch.antt.
use external_crd.Prelude.{ℕ, [], ◌≡◌, ◌↔◌, true, Option, none, some, arith}
use external_crd.Prelude.Text.{Text}
use external_crd.Prelude.Maps.{Map}
use external_crd.Prelude.Outcome.{Outcome, ok, err, panic, then_do, then_do-eq-ok}
use external_crd.Rest.User.{Context, get_user}
use external_crd.Rest.Objects.{Rest, Machinery, KubernetesCrd, Query}
use external_crd.Rest.Manifest.{transform_manifest}
use external_crd.Rest.Listing.{Selectors, ListOptions, convert_list_options_to_labels, list_query}
use external_crd.Rest.Listing.Selects.{SelectorLaws, IsSelected, convert_list_options_to_labels_iff}

-- utils.DefaultWatchSize
abbrev pub default_watch_size : ℕ
default_watch_size = 5

-- The object of an event: a *metav1.Status, a *KubernetesCrd, an *unstructured.Unstructured, or another.
pub data Watched (U : Type 0) : Type 0 where
  status : Text → Watched U
  manifest : KubernetesCrd U → Watched U
  object : U → Watched U
  foreign : Text → Watched U

module _ {U : Type 0} (k : Machinery U) where
  abbrev transformed : KubernetesCrd U → Outcome U → Outcome (Watched U)
  transformed crd (ok u) = ok (object u)
  transformed crd (err e) = ok (manifest crd)
  transformed crd panic = panic

  -- The fixup of the wrapper: a manifest that cannot be transformed goes on as it is.
  unfoldable pub fixup_watched : Watched U → Outcome (Watched U)
  fixup_watched (status s) = ok (status s)
  fixup_watched (manifest crd) = transformed crd (transform_manifest k crd)
  fixup_watched (object u) = ok (object u)
  fixup_watched (foreign t) = ok (foreign t)

module _ {S L R V : Type 0} (sel : Selectors L R) (start : Text → Query → S → Outcome V) where
  -- Watch, for the call of the server `start`, up to the wrapper
  unfoldable pub watch : Rest → Context → Option (ListOptions L) → S → Outcome V
  watch r ctx options s =
      then_do (convert_list_options_to_labels sel r ctx options)
        λ label. then_do (list_query sel label options) λ query. start r.reserved_namespace query s

module _ {S L R V : Type 0} (sel : Selectors L R) (laws : SelectorLaws sel)
    (start : Text → Query → S → Outcome V) where
  open laws use {matches}

  query_lem :
      (label : L) (options : Option (ListOptions L)) (q : Query)
      → list_query sel label options ≡ ok q
      → (q.label_selector ≡ sel.to_text label) × (q.field_selector ≡ [])
  unfolding list_query
  query_lem label none q h = absurd (ground arith)
  query_lem label (some options) q h = (ground arith, ground arith)

  -- If `Watch` starts, then `getUser` lets the caller through for a cluster, and the server was
  -- asked with the text of a label selector and no field selector; that selector matches exactly
  -- the label sets that match the request's own selectors and carry the kind of the resource, the
  -- namespace of the request and that cluster, given the documented behaviour of selectors.
  pub watch_selects :
      (r : Rest) (ctx : Context) (options : Option (ListOptions L)) (s : S) (v : V) (m : Map Text)
      → watch sel start r ctx options s ≡ ok v
      → (cluster : Text) × (label : L) × (q : Query) × (get_user ctx ≡ ok cluster)
        × (start r.reserved_namespace q s ≡ ok v)
        × (q.label_selector ≡ sel.to_text label)
        × (q.field_selector ≡ [])
        × ((matches label m ≡ true) ↔ IsSelected sel laws r ctx options cluster m)
  unfolding watch
  watch_selects r ctx options s v m h =
      let ask = λ (q : Query). start r.reserved_namespace q s in
      let query = λ (l : L). then_do (list_query sel l options) ask in
      let (label, converted, h1) =
        then_do-eq-ok (convert_list_options_to_labels sel r ctx options) query h in
      let (q, queried, asked) = then_do-eq-ok (list_query sel label options) ask h1 in
      let (cluster, caller, selects) =
        convert_list_options_to_labels_iff sel laws r ctx options label m converted in
      let (by_label, by_field) = query_lem label options q queried in
      (cluster, label, q, caller, asked, by_label, by_field, selects)
