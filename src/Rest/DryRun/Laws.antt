-- ===== src/Rest/DryRun/Laws.antt =====
-- What the dry run sends and what it returns.
use external_crd.Prelude.{
  List, List-cases, ◌≡◌, refl, sym, ap, not, ◌&&◌, Bool, ◌∙◌, inl, inr, Bool-cases, true, false,
  some, [], ◌∷◌, arith, if◌then◌else◌,
}
use external_crd.Prelude.Text.{Text, codes, str_eq}
use external_crd.Prelude.Outcome.{Outcome, ok, err, panic, then_do, then_do-eq-ok}
use external_crd.Rest.User.{Context}
use external_crd.Rest.Objects.{
  Rest, Machinery, MachineryLaws, Backend, RuntimeObject, unstructured, foreign, Request,
}
use external_crd.Rest.Manifest.{trim_result}
use external_crd.Rest.Manifest.Identity.{trim_result-keeps}
use external_crd.Rest.DryRun.{
  is_namespace_kind, moves_namespace, normalize_request, dry_run_request, namespace_refused,
  prepare, marshalled, restore, dry_run_create,
}

-- A request that stores nothing: it asks for a dry run of all stages, and if the resource is
-- namespaced it goes to the reserved namespace, or to none for the kind Namespace.
pub record IsDryRun (r : Rest) (q : Request) : Type 0 where
  pub asks : (rest : List (Text × Text)) × (q.params ≡ (codes "dryRun", codes "All") ∷ rest)
  pub confined :
      r.namespaced ≡ true
      → q.namespace ≡ some (if is_namespace_kind r then [] else r.reserved_namespace)

dry_run_request-IsDryRun :
    (r : Rest) (params : List (Text × Text)) (body : Text)
    → IsDryRun r (dry_run_request r params body)
unfolding dry_run_request normalize_request
dry_run_request-IsDryRun r params body = record {
  asks = (params, ground arith);
  confined = λ h. ground arith;
}

module _ {S U O : Type 0} (k : Machinery U) (b : Backend S U O) (r : Rest) (ctx : Context) where
  -- The object that was sent, coded as the body, and the answer that was restored.
  record IsAnswered (prepared : U) (options : O) (s : S) (result : U) : Type 0 where
    body : Text
    answer : U
    coded : k.marshal_json prepared ≡ ok body
    got : b.dry_run (dry_run_request r (b.versioned_params options) body) s ≡ ok answer
    restored : result ≡ restore k b r ctx answer

  marshalled-eq-ok :
      (o : Outcome Text) (body : Text) → marshalled k b r ctx o ≡ ok body → o ≡ ok body
  unfolding marshalled
  marshalled-eq-ok (ok x) body h = h
  marshalled-eq-ok (err e) body h = absurd (ground arith)
  marshalled-eq-ok panic body h = absurd (ground arith)

  answered :
      (u : U) (options : O) (s : S) (result : U)
      → namespace_refused k r ctx.namespace ≡ false
      → then_do (marshalled k b r ctx (k.marshal_json (prepare k b r ctx u))) (λ body.
        then_do
          (b.dry_run (dry_run_request r (b.versioned_params options) body) s)
          λ result. ok (restore k b r ctx result))
        ≡ ok result
      → IsAnswered (prepare k b r ctx u) options s result
  answered u options s result allowed h =
      let request = λ (body : Text). dry_run_request r (b.versioned_params options) body in
      let finish = λ (answer : U). ok (restore k b r ctx answer) in
      let (body, coded, sent) =
        then_do-eq-ok (marshalled k b r ctx (k.marshal_json (prepare k b r ctx u)))
          (λ body. then_do (b.dry_run (request body) s) finish) h in
      let (answer, got, same) = then_do-eq-ok (b.dry_run (request body) s) finish sent in
      record {
        body = body;
        answer = answer;
        coded = marshalled-eq-ok (k.marshal_json (prepare k b r ctx u)) body coded;
        got = got;
        restored = cc same;
      }

  sent :
      (u : U) (options : O) (s : S) (result : U)
      → dry_run_create k b r ctx (unstructured u) options s ≡ ok result
      → IsAnswered (prepare k b r ctx u) options s result
        × (namespace_refused k r ctx.namespace ≡ false)
  unfolding dry_run_create
  sent u options s result h = elim (Bool-cases (namespace_refused k r ctx.namespace)) [
    | inl refused ↦ absurd (ground arith)
    | inr allowed ↦ (answered u options s result allowed (rw allowed at h), allowed)
  ]

  -- What `dryRunCreate` has sent, and what it returns in terms of the answer.
  pub dry_run_create_restored :
      (obj : RuntimeObject U) (options : O) (s : S) (result : U)
      → dry_run_create k b r ctx obj options s ≡ ok result
      → (q : Request) × (answer : U) × IsDryRun r q
        × (b.dry_run q s ≡ ok answer)
        × (result ≡ restore k b r ctx answer)
        × (namespace_refused k r ctx.namespace ≡ false)
  unfolding dry_run_create
  dry_run_create_restored (foreign name) options s result h = cc
  dry_run_create_restored (unstructured u) options s result h =
      let (a, allowed) = sent u options s result h in
      (
        dry_run_request r (b.versioned_params options) a.body,
        a.answer,
        dry_run_request-IsDryRun r (b.versioned_params options) a.body,
        a.got,
        a.restored,
        allowed,
      )

  -- Its name is that of the answer, and for a namespaced resource its namespace is the request's.
  pub restore_identity :
      MachineryLaws k
      → (answer : U) → moves_namespace r ≡ true
      → (k.get_name (restore k b r ctx answer) ≡ k.get_name answer)
        × (k.get_namespace (restore k b r ctx answer) ≡ ctx.namespace)
  unfolding restore
  restore_identity laws answer moves =
      let moved = k.set_namespace answer ctx.namespace in
      let (same_name, same_namespace, _) = trim_result-keeps k laws moved in
      rw moves (
        same_name ∙ laws.get_name-set_namespace answer ctx.namespace,
        same_namespace ∙ laws.get_namespace-set_namespace answer ctx.namespace,
      )

  -- For such a resource the dry run's object is in the namespace of the request.
  pub dry_run_create-in_namespace :
      MachineryLaws k
      → (obj : RuntimeObject U) (options : O) (s : S) (result : U) → moves_namespace r ≡ true
      → dry_run_create k b r ctx obj options s ≡ ok result
      → k.get_namespace result ≡ ctx.namespace
  dry_run_create-in_namespace laws obj options s result moves h =
      let (_, answer, _, _, restored, _) = dry_run_create_restored obj options s result h in
      rw restored ((restore_identity laws answer moves).1)

-- What removing a nested field does: `has_metadata` tells whether an object has a field of its metadata.
pub record FieldLaws {U : Type 0} (k : Machinery U) : Type 0 where
  pub has_metadata : U → Text → Bool
  pub has_metadata-remove_nested_field :
      (u : U) (f g : Text)
      → has_metadata (k.remove_nested_field u (codes "metadata" ∷ f ∷ [])) g
        ≡ (not (str_eq f g) && has_metadata u g)

-- An answer of the dry run, made the object of the request's namespace: it has the answer's name, and no
-- metadata of the dry run.
pub record IsRestored {U : Type 0} (k : Machinery U) (fields : FieldLaws k) (namespace : Text)
    (answer result : U) : Type 0 where
  pub same_name : k.get_name result ≡ k.get_name answer
  pub in_namespace : k.get_namespace result ≡ namespace
  pub no_timestamp : fields.has_metadata result (codes "creationTimestamp") ≡ false
  pub no_managed_fields : fields.has_metadata result (codes "managedFields") ≡ false
  pub no_resource_version : fields.has_metadata result (codes "resourceVersion") ≡ false

module _ {S U O : Type 0} (k : Machinery U) (b : Backend S U O) (r : Rest) (ctx : Context)
    (laws : MachineryLaws k) (fields : FieldLaws k) where
  restore-IsRestored :
      (answer : U)
      → moves_namespace r ≡ true
      → IsRestored k fields ctx.namespace answer (restore k b r ctx answer)
  unfolding restore trim_result codes str_eq
  restore-IsRestored answer moves =
      let (same_name, in_namespace) = restore_identity k b r ctx laws answer moves in
      record {
        same_name = same_name;
        in_namespace = in_namespace;
        no_timestamp = simp (fields.has_metadata-remove_nested_field);
        no_managed_fields = simp (fields.has_metadata-remove_nested_field);
        no_resource_version = simp (fields.has_metadata-remove_nested_field);
      }

  prepare-in_reserved :
      (u : U)
      → moves_namespace r ≡ true
      → k.get_namespace (prepare k b r ctx u) ≡ r.reserved_namespace
  unfolding prepare
  prepare-in_reserved u moves = rw moves (laws.get_namespace-set_namespace _ r.reserved_namespace)

  valid_namespace :
      moves_namespace r ≡ true
      → namespace_refused k r ctx.namespace ≡ false
      → k.validate_namespace_name ctx.namespace ≡ []
  unfolding moves_namespace namespace_refused
  valid_namespace moves allowed = elim (List-cases (k.validate_namespace_name ctx.namespace)) [
    | inl none_wrong ↦ none_wrong
    | inr (x, rest, wrong) ↦ let refused = rw wrong at allowed in absurd (ground arith)
  ]

  request_body :
      (params : List (Text × Text)) (body : Text) → (dry_run_request r params body).body ≡ body
  unfolding dry_run_request normalize_request
  request_body params body = elim (Bool-cases r.namespaced) [
    | inl e ↦ rw e refl
    | inr e ↦ rw e refl
  ]

  -- If `dryRunCreate` returns an object for a namespaced resource that is not of kind Namespace,
  -- then the namespace of the request is a valid name, and the server answered a request that asks
  -- for a dry run in the reserved namespace, whose body codes an object of that namespace; the
  -- object returned has the answer's name, is in the namespace of the request, and has no creation
  -- timestamp, managed fields or resource version, given the documented behaviour of the
  -- accessors.
  pub dry_run_create_sound :
      (u : U) (options : O) (s : S) (result : U)
      → moves_namespace r ≡ true
      → dry_run_create k b r ctx (unstructured u) options s ≡ ok result
      → (k.validate_namespace_name ctx.namespace ≡ [])
        × (q : Request) × (sent answer : U) × IsDryRun r q
        × (k.marshal_json sent ≡ ok q.body)
        × (k.get_namespace sent ≡ r.reserved_namespace)
        × (b.dry_run q s ≡ ok answer)
        × IsRestored k fields ctx.namespace answer result
  dry_run_create_sound u options s result moves h =
      let (a, allowed) = sent k b r ctx u options s result h in
      let q = dry_run_request r (b.versioned_params options) a.body in
      (
        valid_namespace moves allowed,
        q,
        prepare k b r ctx u,
        a.answer,
        dry_run_request-IsDryRun r (b.versioned_params options) a.body,
        a.coded ∙ ap ok (sym (request_body (b.versioned_params options) a.body)),
        prepare-in_reserved u moves,
        a.got,
        rw a.restored (restore-IsRestored a.answer moves),
      )
