-- ===== src/Handler/Storage/Removed.antt =====
-- Which routes `removeStorage` of customresource_handler.go leaves, for a web service whose RemoveRoute
-- does what it documents.
use external_crd.Prelude.{
  ◌≡◌, refl, sym, ap, ◌∙◌, Bool, Bool-cases, true, false, not, ◌&&◌, ◌||◌, inl, inr, some, List, [],
  ◌∷◌, arith, All, keep,
}
use external_crd.Prelude.Text.{Text, str_eq, has_prefix}
use external_crd.Prelude.Text.Laws.{str_eq_iff, str_eq_refl}
use external_crd.Handler.Crd.{Crd, CrdFunctions}
use external_crd.Handler.State.{Route, WebServices}
use external_crd.Handler.Storage.{item_path, remove_route, remove_all, remove_routes}

-- Whether a route is that of a path and a method.
abbrev pub is_route : Text → Text → Route → Bool
is_route path method x = str_eq x.method method && str_eq x.path path

-- While the routes are dynamic, RemoveRoute removes the routes of the path and the method, and succeeds.
pub record WebServiceLaws (W : Type 0) (w : WebServices W) : Type 0 where
  pub dynamic : W → Bool
  pub routes-set_dynamic_routes :
      (ws : W) (b : Bool) → w.routes (w.set_dynamic_routes ws b) ≡ w.routes ws
  pub dynamic-set_dynamic_routes : (ws : W) (b : Bool) → dynamic (w.set_dynamic_routes ws b) ≡ b
  pub removes :
      (ws : W) (path method : Text)
      → dynamic ws ≡ true
      → (ws' : W) × (w.remove_route ws path method ≡ some ws')
        × (w.routes ws' ≡ keep (λ x. not (is_route path method x)) (w.routes ws))
        × (dynamic ws' ≡ true)

module _ {A : Type 0} where
  keep-keep :
      (p q r : A → Bool) (xs : List A)
      → ((x : A) → r x ≡ (q x && p x))
      → keep p (keep q xs) ≡ keep r xs
  unfolding keep
  keep-keep p q r [] h = refl
  keep-keep p q r (x ∷ xs) h = elim (Bool-cases (q x)) [
    | inr e ↦ rw (h x, e) (keep-keep p q r xs h)
    | inl e ↦ elim (Bool-cases (p x)) [
      | inl k ↦ rw (h x, e, keep, k) (ap (λ t. x ∷ t) (keep-keep p q r xs h))
      | inr k ↦ rw (h x, e, keep, k) (keep-keep p q r xs h)
    ]
  ]

  keep-all : (p : A → Bool) (xs : List A) → ((x : A) → p x ≡ true) → keep p xs ≡ xs
  unfolding keep
  keep-all p [] h = refl
  keep-all p (x ∷ xs) h = rw (h x) (ap (λ t. x ∷ t) (keep-all p xs h))

  keep-same : (p q : A → Bool) (xs : List A) → All (λ x. p x ≡ q x) xs → keep p xs ≡ keep q xs
  unfolding keep
  keep-same p q [] h = refl
  keep-same p q (x ∷ xs) (e, h) = elim (Bool-cases (q x)) [
    | inl k ↦ rw (e, k) (ap (λ t. x ∷ t) (keep-same p q xs h))
    | inr k ↦ rw (e, k) (keep-same p q xs h)
  ]

-- Whether a route has the path and the method of one in the list.
pub is_among : List Route → Route → Bool
is_among [] x = false
is_among (d ∷ ds) x = is_route d.path d.method x || is_among ds x

module _ (prefix : Text) where
  abbrev doomed : Route → Bool
  doomed x = has_prefix x.path prefix

  is_among-cons :
      (d : Route) (ds : List Route) (x : Route)
      → doomed d ≡ true
      → is_among (keep doomed (d ∷ ds)) x
        ≡ (is_route d.path d.method x || is_among (keep doomed ds) x)
  unfolding keep is_among
  is_among-cons d ds x e = rw (keep, e) refl

  is_among-skip :
      (d : Route) (ds : List Route) → doomed d ≡ false → keep doomed (d ∷ ds) ≡ keep doomed ds
  unfolding keep
  is_among-skip d ds e = rw (keep, e) refl

  is_among-doomed :
      (xs : List Route) (x : Route) → is_among (keep doomed xs) x ≡ true → doomed x ≡ true
  unfolding keep is_among
  is_among-doomed [] x h = absurd (ground arith)
  is_among-doomed (d ∷ ds) x h = elim (Bool-cases (doomed d)) [
    | inr e ↦ is_among-doomed ds x (rw (is_among-skip d ds e) at h)
    | inl e ↦ elim (Bool-cases (str_eq x.path d.path)) [
      | inl same ↦ rw ((str_eq_iff x.path d.path).0 same) e
      | inr differs ↦ is_among-doomed ds x (ground (arith, is_among-cons d ds x e))
    ]
  ]

  All-among-cons :
      (d : Route) (ds xs : List Route)
      → All (λ x. doomed x ≡ true → is_among (keep doomed ds) x ≡ true) xs
      → All (λ x. doomed x ≡ true → is_among (keep doomed (d ∷ ds)) x ≡ true) xs
  All-among-cons d ds [] h = tt
  All-among-cons d ds (x ∷ xs) (p, h) = (
    λ e. elim (Bool-cases (doomed d)) [
      | inr k ↦ rw (is_among-skip d ds k) (p e)
      | inl k ↦ ground (arith, is_among-cons d ds x k, p e)
    ],
    All-among-cons d ds xs h,
  )

  doomed-among :
      (xs : List Route) → All (λ x. doomed x ≡ true → is_among (keep doomed xs) x ≡ true) xs
  doomed-among [] = tt
  doomed-among (d ∷ ds) = (
    λ e. ground (arith, is_among-cons d ds d e, str_eq_refl d.path, str_eq_refl d.method),
    All-among-cons d ds ds (doomed-among ds),
  )

  spared :
      (all xs : List Route)
      → All (λ x. doomed x ≡ true → is_among (keep doomed all) x ≡ true) xs
      → All (λ x. not (is_among (keep doomed all) x) ≡ not (doomed x)) xs
  spared all [] h = tt
  spared all (x ∷ xs) (p, h) = (
    elim (Bool-cases (doomed x)) [
      | inl e ↦ ap not (p e ∙ sym e)
      | inr e ↦ elim (Bool-cases (is_among (keep doomed all) x)) [
        | inl k ↦ absurd (ground (arith, is_among-doomed all x k))
        | inr k ↦ ap not (k ∙ sym e)
      ]
    ],
    spared all xs h,
  )

module _ {W : Type 0} (w : WebServices W) (laws : WebServiceLaws W w) where
  remove_route-removed :
      (f : CrdFunctions) (ws ws' : W) (d : Route)
      → w.remove_route ws d.path d.method ≡ some ws'
      → remove_route f w ws d ≡ ws'
  unfolding remove_route
  remove_route-removed f ws ws' d done = rw (remove_route, done) refl

  remove_all-routes :
      (f : CrdFunctions) (ds : List Route) (ws : W)
      → laws.dynamic ws ≡ true
      → w.routes (remove_all f w ws ds) ≡ keep (λ x. not (is_among ds x)) (w.routes ws)
  unfolding remove_all is_among
  remove_all-routes f [] ws e = sym (keep-all _ (w.routes ws) (λ x. refl))
  remove_all-routes f (d ∷ ds) ws e =
      let (ws', done, left, still) = laws.removes ws d.path d.method e in
      ap (λ t. w.routes (remove_all f w t ds)) (remove_route-removed f ws ws' d done)
      ∙ remove_all-routes f ds ws' still
      ∙ ap (keep (λ x. not (is_among ds x))) left
      ∙ keep-keep (λ x. not (is_among ds x)) (λ x. not (is_route d.path d.method x)) _ (w.routes ws)
          (λ x. not_or (is_route d.path d.method x) (is_among ds x))
    where
      not_or : (a b : Bool) → not (a || b) ≡ (not a && not b)
      not_or true b = refl
      not_or false b = refl

  -- For a web service whose RemoveRoute does what it documents, `removeStorage` leaves, in their
  -- order, exactly the routes whose path does not have the item path of the definition as a
  -- prefix; a route of another plural that begins with this one goes too.
  pub remove_routes_lem :
      (f : CrdFunctions) (root : Text) (ws : W) (crd : Crd)
      → w.routes (remove_routes f w root ws crd)
        ≡ keep (λ x. not (has_prefix x.path (item_path f w root crd))) (w.routes ws)
  unfolding remove_routes
  remove_routes_lem f root ws crd =
      let path = item_path f w root crd in
      let all = w.routes ws in
      let ds = keep (doomed path) all in
      let begun = w.set_dynamic_routes ws true in
      laws.routes-set_dynamic_routes (remove_all f w begun ds) false
      ∙ remove_all-routes f ds begun (laws.dynamic-set_dynamic_routes ws true)
      ∙ ap (keep (λ x. not (is_among ds x))) (laws.routes-set_dynamic_routes ws true)
      ∙ keep-same _ _ all (spared path all all (doomed-among path all))
