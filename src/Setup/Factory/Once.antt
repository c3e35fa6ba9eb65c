-- ===== src/Setup/Factory/Once.antt =====
-- The factory of pkg/generated/informers/externalversions/factory.go has one informer for each type, and
-- runs it once.
use external_crd.Prelude.{
  ℕ, ◌+◌, ◌≡◌, refl, Bool-cases, true, false, inl, inr, none, some, [], ◌∷◌, ◌++◌, All, All-append,
  arith, if◌then◌else◌,
}
use external_crd.Prelude.Text.{Text, str_eq}
use external_crd.Prelude.Text.Laws.{str_eq_iff}
use external_crd.Prelude.Maps.{Map, lookup, put, lookup-put}
use external_crd.Setup.Factory.{Factory, is_started, launch, start_each}

-- How often a key is in a log.
unfoldable pub count : {N : Type 0} → Text → Map N → ℕ
count t [] = 0
count t ((k, _) ∷ m) = let rest = count t m in if str_eq k t then 1 + rest else rest

count-append : {N : Type 0} (t : Text) (a b : Map N) → count t (a ++ b) ≡ count t a + count t b
unfolding count
count-append t [] b = omega arith
count-append t ((k, n) ∷ a) b = ground (arith, count-append t a b)

module _ {N : Type 0} where
  -- Each entry is what a map has for its key.
  abbrev Agrees : Map N → Map N → Type 0
  Agrees m = All (λ e. lookup e.0 m ≡ some e.1)

  -- An entry more leaves the others.
  pub Agrees-put :
      (t : Text) (n : N) (m l : Map N) → lookup t m ≡ none → Agrees m l → Agrees (put t n m) l
  Agrees-put t n m [] fresh h = tt
  Agrees-put t n m (e ∷ l) fresh h =
      (ground (arith, lookup-put t e.0 n m, str_eq_iff t e.0, h.0), Agrees-put t n m l fresh h.1)

  pub put-append : (t : Text) (n : N) (m : Map N) → lookup t m ≡ none → put t n m ≡ m ++ (t, n) ∷ []
  unfolding lookup put
  put-append t n [] fresh = refl
  put-append t n ((k, v) ∷ m) fresh = ground (arith, put-append t n m)

  -- A key of the log is found with an entry that agrees.
  pub lookup-Agrees :
      (t : Text) (n : N) (m l : Map N)
      → Agrees m l
      → lookup t m ≡ some n
      → count t l ≡ 1
      → lookup t l ≡ some n
  unfolding lookup count
  lookup-Agrees t n m [] h e once = absurd (ground arith)
  lookup-Agrees t n m ((k, v) ∷ l) h e once =
      ground (arith, h.0, str_eq_iff k t, lookup-Agrees t n m l h.1 e)

module _ {N T : Type 0} where
  pub record IsOnce (f : Factory N T) : Type 0 where
    pub once : (t : Text) → count t f.launched ≡ (if is_started t f.started_informers then 1 else 0)
    pub agree : All (λ e. lookup e.0 f.informers ≡ some e.1) f.launched
    pub single : All (λ e. lookup e.0 f.informers ≡ some e.1) f.informers

  launch-IsOnce :
      (t : Text) (n : N) (f : Factory N T)
      → IsOnce f
      → is_started t f.started_informers ≡ false
      → lookup t f.informers ≡ some n
      → IsOnce (launch t n f)
  unfolding launch is_started count
  launch-IsOnce t n f c idle is = record {
    once = λ j. ground (
      arith,
      count-append j f.launched ((t, n) ∷ []),
      lookup-put t j true f.started_informers,
      c.once j,
      str_eq_iff t j,
    );
    agree =
        All-append (λ e. lookup e.0 f.informers ≡ some e.1) f.launched ((t, n) ∷ []) c.agree
          (is, tt);
    single = c.single;
  }

  -- What the loop of `Start` does: it launches what is not started, and starts all that it is given.
  pub start_each-IsOnce :
      (l : Map N) (f : Factory N T)
      → All (λ e. lookup e.0 f.informers ≡ some e.1) l
      → IsOnce f
      → IsOnce (start_each l f)
  unfolding start_each launch
  start_each-IsOnce [] f h c = c
  start_each-IsOnce ((t, n) ∷ l) f h c = elim (Bool-cases (is_started t f.started_informers)) [
    | inl running ↦ rw running (start_each-IsOnce l f h.1 c)
    | inr idle ↦ rw idle (start_each-IsOnce l (launch t n f) h.1 (launch-IsOnce t n f c idle h.0))
  ]

  pub start_each-informers :
      (l : Map N) (f : Factory N T) → (start_each l f).informers ≡ f.informers
  unfolding start_each launch
  start_each-informers [] f = refl
  start_each-informers ((t, n) ∷ l) f = elim (Bool-cases (is_started t f.started_informers)) [
    | inl running ↦ rw (start_each, running) (start_each-informers l f)
    | inr idle ↦ rw (start_each, idle) (start_each-informers l (launch t n f))
  ]

  launch-is_started :
      (t j : Text) (n : N) (f : Factory N T)
      → is_started j (launch t n f).started_informers
        ≡ (if str_eq t j then true else is_started j f.started_informers)
  unfolding launch is_started
  launch-is_started t j n f = ground (arith, lookup-put t j true f.started_informers)

  pub start_each_keeps :
      (l : Map N) (f : Factory N T) (j : Text)
      → is_started j f.started_informers ≡ true
      → is_started j (start_each l f).started_informers ≡ true
  unfolding start_each
  start_each_keeps [] f j h = h
  start_each_keeps ((t, n) ∷ l) f j h = elim (Bool-cases (is_started t f.started_informers)) [
    | inl running ↦ rw (start_each, running) (start_each_keeps l f j h)
    | inr idle ↦
        rw (start_each, idle)
          (start_each_keeps l (launch t n f) j (ground (arith, launch-is_started t j n f)))
  ]

  pub start_each_starts :
      (l : Map N) (f : Factory N T) (j : Text) (i : N)
      → lookup j l ≡ some i
      → is_started j (start_each l f).started_informers ≡ true
  unfolding start_each lookup
  start_each_starts [] f j i h = absurd (ground arith)
  start_each_starts ((t, n) ∷ l) f j i h = elim (Bool-cases (str_eq t j)) [
    | inl same ↦ start_each_keeps l _ j (first same)
    | inr other ↦ start_each_starts l _ j i (rw other at h)
  ]
    where
      first :
          str_eq t j ≡ true
          → is_started j
              (if is_started t f.started_informers then f else launch t n f).started_informers
            ≡ true
      first same = ground (arith, launch-is_started t j n f, str_eq_iff t j)
