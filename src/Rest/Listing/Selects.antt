-- ===== src/Rest/Listing/Selects.antt =====
-- Which manifests `List` and `Watch` of rest.go select.
use external_crd.Prelude.{
  ◌≡◌, refl, sym, ◌∙◌, ap, ◌↔◌, Bool, Bool-cases, true, false, ◌&&◌, inl, inr, Option, some, List,
  [], ◌∷◌, arith, All,
}
use external_crd.Prelude.Text.{Text, codes, str_eq}
use external_crd.Prelude.Text.Laws.{str_eq_iff}
use external_crd.Prelude.Maps.{Map, lookup}
use external_crd.Prelude.Outcome.{ok, then_do, then_do-eq-ok}
use external_crd.Utils.Constants.{
  config_name_label, config_kind_label, config_namespace_label, config_cluster_label,
}
use external_crd.Rest.User.{Context, get_user}
use external_crd.Rest.Objects.{Rest}
use external_crd.Rest.Listing.{
  Selectors, FieldRequirement, ListOptions, field_requirement, add_fields, equals, require,
  base_selector, field_requirements, convert_list_options_to_labels,
}

-- The documented meaning of the selectors: a label set matches all requirements that were added, and
-- a requirement of equality holds of the sets in which the label has that value.
pub record SelectorLaws {L R : Type 0} (sel : Selectors L R) : Type 0 where
  pub matches : L → Map Text → Bool
  pub holds : R → Map Text → Bool
  pub matches-everything : (m : Map Text) → matches sel.everything m ≡ true
  pub matches-add :
      (l : L) (r : R) (m : Map Text) → matches (sel.add l r) m ≡ (matches l m && holds r m)
  pub holds-equals :
      (key value : Text) (r : R) (m : Map Text)
      → sel.new_requirement key equals (value ∷ []) ≡ ok r
      → (holds r m ≡ true) ↔ (lookup key m ≡ some value)

&&-iff : (a b : Bool) → ((a && b) ≡ true) ↔ ((a ≡ true) × (b ≡ true))
&&-iff true b = (λ h. (refl, h), λ h. h.1)
&&-iff false b = (λ h. absurd (ground arith), λ h. h.0)

module _ {L R : Type 0} (sel : Selectors L R) (laws : SelectorLaws sel) where
  open laws use {matches, holds, matches-add, holds-equals}

  -- A field requirement that could be translated, and holds.
  abbrev pub FieldHolds : Map Text → FieldRequirement → Type 0
  FieldHolds m f =
      (r : R) × (f.field ≡ codes "metadata.name")
      × (sel.new_requirement config_name_label f.operator (f.value ∷ []) ≡ ok r)
      × (holds r m ≡ true)

  require_iff :
      (key value : Text) (l l' : L) (m : Map Text)
      → require sel key value l ≡ ok l'
      → (matches l' m ≡ true) ↔ ((matches l m ≡ true) × (lookup key m ≡ some value))
  require_iff key value l l' m h =
      let (r, made, same) =
        then_do-eq-ok (sel.new_requirement key equals (value ∷ [])) (λ r. ok (sel.add l r)) h in
      let added : matches l' m ≡ (matches l m && holds r m) =
        rw (← matches-add l r m) (ap (λ l. matches l m) (cc same)) in
      let both = &&-iff (matches l m) (holds r m) in
      let eq = holds-equals key value r m made in
      (λ t. let (x, y) = both.0 (sym added ∙ t) in (x, eq.0 y), λ p. added ∙ both.1 (p.0, eq.1 p.1))

  field_requirement_lem :
      (f : FieldRequirement) (r : R)
      → field_requirement sel f ≡ ok r
      → (f.field ≡ codes "metadata.name")
        × (sel.new_requirement config_name_label f.operator (f.value ∷ []) ≡ ok r)
  unfolding field_requirement
  field_requirement_lem f r h = elim (Bool-cases (str_eq f.field (codes "metadata.name"))) [
    | inl e ↦ ((str_eq_iff f.field (codes "metadata.name")).0 e, rw e at h)
    | inr e ↦ absurd (ground arith)
  ]

  add_fields_iff :
      (fs : List FieldRequirement) (l l' : L) (m : Map Text)
      → add_fields sel fs l ≡ ok l'
      → (matches l' m ≡ true) ↔ ((matches l m ≡ true) × All (FieldHolds m) fs)
  unfolding add_fields
  add_fields_iff [] l l' m h =
      let same : l ≡ l' = cc in (λ t. (rw same t, tt), λ p. rw (← same) (p.0))
  add_fields_iff (f ∷ fs) l l' m h =
      let (r, made, rest) =
        then_do-eq-ok (field_requirement sel f) (λ r. add_fields sel fs (sel.add l r)) h in
      let (known, translated) = field_requirement_lem f r made in
      let both = &&-iff (matches l m) (holds r m) in
      let more = add_fields_iff fs (sel.add l r) l' m rest in
      (
        λ t.
            let (added, later) = more.0 t in
            let (x, y) = both.0 (sym (matches-add l r m) ∙ added) in
            (x, ((r, known, translated, y), later)),
        λ p.
            let (x, ((r', _, translated', y), later)) = p in
            let same : r' ≡ r = cc (translated, translated') in
            more.1 (matches-add l r m ∙ both.1 (x, rw (← same) y), later),
      )

  -- A manifest with labels `m` is selected for the caller's cluster exactly when it matches the
  -- request's own selectors and has the kind of the resource, the namespace of the request and the
  -- cluster of the caller.
  pub record IsSelected (r : Rest) (ctx : Context) (options : Option (ListOptions L))
      (cluster : Text) (m : Map Text) : Type 0 where
    pub by_labels : matches (base_selector sel options) m ≡ true
    pub by_fields : All (FieldHolds m) (field_requirements sel options)
    pub by_kind : lookup config_kind_label m ≡ some r.kind
    pub by_namespace : lookup config_namespace_label m ≡ some ctx.namespace
    pub by_cluster : lookup config_cluster_label m ≡ some cluster

  -- If `convertListOptionsToLabels` returns a selector, then `getUser` lets the caller through for
  -- a cluster, and the selector matches exactly the label sets that match the request's own label
  -- and field selectors and carry the kind of the resource, the namespace of the request and that
  -- cluster, given the documented behaviour of selectors.
  pub convert_list_options_to_labels_iff :
      (r : Rest) (ctx : Context) (options : Option (ListOptions L)) (label : L) (m : Map Text)
      → convert_list_options_to_labels sel r ctx options ≡ ok label
      → (cluster : Text) × (get_user ctx ≡ ok cluster)
        × ((matches label m ≡ true) ↔ IsSelected r ctx options cluster m)
  unfolding convert_list_options_to_labels
  convert_list_options_to_labels_iff r ctx options label m h =
      let fields = field_requirements sel options in
      let base = base_selector sel options in
      let placed = λ (c : Text) (l : L). require sel config_cluster_label c l in
      let kinded = λ (c : Text) (l : L).
        then_do (require sel config_namespace_label ctx.namespace l) (placed c) in
      let labelled =
        λ (c : Text) (l : L). then_do (require sel config_kind_label r.kind l) (kinded c) in
      let (cluster, caller, h1) =
        then_do-eq-ok (get_user ctx) (λ c. then_do (add_fields sel fields base) (labelled c)) h in
      let (l1, e1, h2) = then_do-eq-ok (add_fields sel fields base) (labelled cluster) h1 in
      let (l2, e2, h3) =
        then_do-eq-ok (require sel config_kind_label r.kind l1) (kinded cluster) h2 in
      let (l3, e3, e4) =
        then_do-eq-ok (require sel config_namespace_label ctx.namespace l2) (placed cluster) h3 in
      let i1 = add_fields_iff fields base l1 m e1 in
      let i2 = require_iff config_kind_label r.kind l1 l2 m e2 in
      let i3 = require_iff config_namespace_label ctx.namespace l2 l3 m e3 in
      let i4 = require_iff config_cluster_label cluster l3 label m e4 in
      (
        cluster,
        caller,
        (
          λ t.
              let (t3, c) = i4.0 t in
              let (t2, n) = i3.0 t3 in
              let (t1, kd) = i2.0 t2 in
              let (t0, fs) = i1.0 t1 in
              record {
                by_labels = t0;
                by_fields = fs;
                by_kind = kd;
                by_namespace = n;
                by_cluster = c;
              },
          λ s. i4.1 (
            i3.1 (i2.1 (i1.1 (s.by_labels, s.by_fields), s.by_kind), s.by_namespace),
            s.by_cluster,
          ),
        ),
      )
