-- ===== src/Setup/Factory/Calls.antt =====
-- What holds after any calls of the factory of informers, in the order in which they take its lock.
use external_crd.Prelude.{
  ◌≡◌, refl, sym, Option, Option-cases, inl, inr, true, none, some, List, [], ◌∷◌, ◌++◌, All,
  All-append, arith,
}
use mathlib.Core.Path.{subst}
use external_crd.Prelude.Text.{Text}
use external_crd.Prelude.Maps.{lookup, put, lookup-put}
use external_crd.Prelude.Text.Laws.{str_eq_iff, str_eq_refl}
use external_crd.Prelude.Int.{ℤ}
use external_crd.Setup.Factory.{
  Factory, is_started, start, or_default, informer_for, with_namespace, with_tweak_list_options,
  apply_options, new_shared_informer_factory_with_options, new_filtered_shared_informer_factory,
}
use external_crd.Setup.Factory.Once.{
  IsOnce, count, put-append, Agrees-put, lookup-Agrees, start_each-IsOnce, start_each-informers,
  start_each_keeps, start_each_starts,
}

-- A call of `InformerFor` for a type, or of `Start`.
pub data Call (N : Type 0) : Type 0 where
  asking : Text → (ℤ → N) → Call N
  starting : Call N

module _ {N T : Type 0} where
  abbrev pub perform : Call N → Factory N T → Factory N T
  perform (asking t new_func) f = (informer_for t new_func f).1
  perform starting f = start f

  abbrev pub perform_all : List (Call N) → Factory N T → Factory N T
  perform_all [] f = f
  perform_all (c ∷ calls) f = perform_all calls (perform c f)

  perform_all-append :
      (before after : List (Call N)) (f : Factory N T)
      → perform_all (before ++ after) f ≡ perform_all after (perform_all before f)
  perform_all-append [] after f = refl
  perform_all-append (c ∷ before) after f = perform_all-append before after (perform c f)

  -- The informer that `InformerFor` makes.
  abbrev made : Text → (ℤ → N) → Factory N T → N
  made t new_func f = new_func (or_default f.default_resync (lookup t f.custom_resync))

  informer_for_known :
      (t : Text) (new_func : ℤ → N) (f : Factory N T) (i : N)
      → lookup t f.informers ≡ some i
      → informer_for t new_func f ≡ (i, f)
  unfolding informer_for
  informer_for_known t new_func f i h = rw (informer_for, h) refl

  informer_for_new :
      (t : Text) (new_func : ℤ → N) (f : Factory N T)
      → lookup t f.informers ≡ none
      → informer_for t new_func f
        ≡ (made t new_func f, record f { informers = put t (made t new_func f) f.informers })
  unfolding informer_for
  informer_for_new t new_func f h = rw (informer_for, h) refl

  new-IsOnce :
      (t : Text) (n : N) (f : Factory N T)
      → IsOnce f
      → lookup t f.informers ≡ none
      → IsOnce (record f { informers = put t n f.informers })
  new-IsOnce t n f c fresh = record {
    once = c.once;
    agree = Agrees-put t n f.informers f.launched fresh c.agree;
    single =
        subst (All (λ e. lookup e.0 (put t n f.informers) ≡ some e.1))
          (sym (put-append t n f.informers fresh))
          (All-append (λ e. lookup e.0 (put t n f.informers) ≡ some e.1) f.informers ((t, n) ∷ [])
            (Agrees-put t n f.informers f.informers fresh c.single)
            (ground (arith, lookup-put t t n f.informers, str_eq_refl t), tt));
  }

  perform-IsOnce : (c : Call N) (f : Factory N T) → IsOnce f → IsOnce (perform c f)
  unfolding start
  perform-IsOnce starting f c = start_each-IsOnce f.informers f c.single c
  perform-IsOnce (asking t new_func) f c = elim (Option-cases (lookup t f.informers)) [
    | inr (i, there) ↦ rw (perform, informer_for_known t new_func f i there) c
    | inl fresh ↦
        rw (perform, informer_for_new t new_func f fresh)
          (new-IsOnce t (made t new_func f) f c fresh)
  ]

  perform_keeps :
      (c : Call N) (f : Factory N T) (t : Text) (i : N)
      → lookup t f.informers ≡ some i
      → lookup t (perform c f).informers ≡ some i
  unfolding start
  perform_keeps starting f t i h = rw (start_each-informers f.informers f) h
  perform_keeps (asking j new_func) f t i h = elim (Option-cases (lookup j f.informers)) [
    | inr (k, there) ↦ rw (perform, informer_for_known j new_func f k there) h
    | inl fresh ↦
        rw (perform, informer_for_new j new_func f fresh)
          (ground (arith, lookup-put j t (made j new_func f) f.informers, str_eq_iff j t))
  ]

  perform_started :
      (c : Call N) (f : Factory N T) (t : Text)
      → is_started t f.started_informers ≡ true
      → is_started t (perform c f).started_informers ≡ true
  unfolding start
  perform_started starting f t h = start_each_keeps f.informers f t h
  perform_started (asking j new_func) f t h = elim (Option-cases (lookup j f.informers)) [
    | inr (k, there) ↦ rw (perform, informer_for_known j new_func f k there) h
    | inl fresh ↦ rw (perform, informer_for_new j new_func f fresh) h
  ]

  perform_all-IsOnce :
      (calls : List (Call N)) (f : Factory N T) → IsOnce f → IsOnce (perform_all calls f)
  perform_all-IsOnce [] f c = c
  perform_all-IsOnce (x ∷ calls) f c = perform_all-IsOnce calls (perform x f) (perform-IsOnce x f c)

  pub perform_all_keeps :
      (calls : List (Call N)) (f : Factory N T) (t : Text) (i : N)
      → lookup t f.informers ≡ some i
      → lookup t (perform_all calls f).informers ≡ some i
  perform_all_keeps [] f t i h = h
  perform_all_keeps (x ∷ calls) f t i h =
      perform_all_keeps calls (perform x f) t i (perform_keeps x f t i h)

  perform_all_started :
      (calls : List (Call N)) (f : Factory N T) (t : Text)
      → is_started t f.started_informers ≡ true
      → is_started t (perform_all calls f).started_informers ≡ true
  perform_all_started [] f t h = h
  perform_all_started (x ∷ calls) f t h =
      perform_all_started calls (perform x f) t (perform_started x f t h)

  new-factory-IsOnce :
      (resync : ℤ) (namespace : Text) (tweak : Option T)
      → IsOnce {N = N} {T = T} (new_filtered_shared_informer_factory resync namespace tweak)
  unfolding new_filtered_shared_informer_factory new_shared_informer_factory_with_options
      apply_options with_namespace with_tweak_list_options count is_started lookup
  new-factory-IsOnce resync namespace tweak = record { once = λ t. refl; agree = tt; single = tt }

  -- What holds of a type whose informer was asked for before a `Start`, in the state after it.
  pub record IsShared (t : Text) (i : N) (f : Factory N T) : Type 0 where
    pub runs_once : count t f.launched ≡ 1
    pub runs : lookup t f.launched ≡ some i
    pub answers : (new_func : ℤ → N) → informer_for t new_func f ≡ (i, f)

  IsShared-started :
      (t : Text) (i : N) (f : Factory N T)
      → IsOnce f
      → lookup t f.informers ≡ some i
      → is_started t f.started_informers ≡ true
      → IsShared t i f
  IsShared-started t i f c is started =
      let one = rw started at (c.once t) in
      record {
        runs_once = one;
        runs = lookup-Agrees t i f.informers f.launched c.agree is one;
        answers = λ new_func. informer_for_known t new_func f i is;
      }

  -- If the informer of a type was asked for before a `Start` of the factory, then after any calls
  -- of `InformerFor` and `Start` before and after that one, in any order, exactly one goroutine
  -- runs an informer of the type, it is the informer that was registered first, and `InformerFor`
  -- answers with it and changes nothing.
  pub start-IsShared :
      (resync : ℤ) (namespace : Text) (tweak : Option T) (before after : List (Call N)) (t : Text)
      (i : N)
      → lookup t
          (perform_all before
            (new_filtered_shared_informer_factory resync namespace tweak)).informers
        ≡ some i
      → IsShared t i (
          perform_all
            (before ++ starting ∷ after)
            (new_filtered_shared_informer_factory resync namespace tweak))
  unfolding start
  start-IsShared resync namespace tweak before after t i is =
      let f0 = new_filtered_shared_informer_factory resync namespace tweak in
      let f = perform_all before f0 in
      let calls = starting ∷ after in
      subst (IsShared t i) (sym (perform_all-append before calls f0)) (
        IsShared-started t i (perform_all calls f)
          (perform_all-IsOnce calls f
            (perform_all-IsOnce before f0 (new-factory-IsOnce resync namespace tweak)))
          (perform_all_keeps calls f t i is)
          (perform_all_started after (start f) t (start_each_starts f.informers f t i is)))
