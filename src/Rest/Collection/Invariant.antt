-- ===== src/Rest/Collection/Invariant.antt =====
-- What holds of the pool at every moment: the workers and the items are all accounted for.
use external_crd.Prelude.{
  ℕ, suc, ◌+◌, ◌≤◌, ◌<◌, ◌≡◌, refl, ap, true, ℕ-cases, inl, inr, List, [], ◌∷◌, ◌++◌, arith, length,
  length-append, Option,
}
use external_crd.Prelude.Outcome.{Outcome, ok}
use external_crd.Rest.User.{Context}
use external_crd.Rest.Objects.{Rest, Machinery, Backend, UnstructuredList}
use external_crd.Rest.Collection.{
  workers_number, to_process_capacity, errs_capacity, Pool, start, Step, send, close, receive, done,
  fail, leave, Reach, here, next, IsFinished, answer,
}

module _ {U : Type 0} (f : U → ℕ) where
  -- The sum of a weight over a list. Two lists that agree on every weight hold the same items, as
  -- often.
  pub weight : List U → ℕ
  weight [] = 0
  weight (x ∷ xs) = f x + weight xs

  pub weight-middle :
      (xs : List U) (x : U) (ys : List U) → weight (xs ++ x ∷ ys) ≡ f x + weight (xs ++ ys)
  unfolding weight
  weight-middle [] x ys = refl
  weight-middle (y ∷ xs) x ys = omega (arith, weight-middle xs x ys)

  pub weight-snoc : (xs : List U) (x : U) → weight (xs ++ x ∷ []) ≡ weight xs + f x
  unfolding weight
  weight-snoc [] x = omega arith
  weight-snoc (y ∷ xs) x = omega (arith, weight-snoc xs x)

-- The weight of one for each item is the length.
pub weight-one : {U : Type 0} (xs : List U) → weight (λ _. 1) xs ≡ length xs
unfolding weight
weight-one [] = refl
weight-one (x ∷ xs) = omega (arith, weight-one xs)

pub length-middle :
    {U : Type 0} (xs : List U) (x : U) (ys : List U)
    → length (xs ++ x ∷ ys) ≡ suc (length (xs ++ ys))
length-middle [] x ys = refl
length-middle (y ∷ xs) x ys = omega (arith, length-middle xs x ys)

pub length-zero : {U : Type 0} (xs : List U) → length xs ≡ 0 → xs ≡ []
length-zero [] h = refl
length-zero (x ∷ xs) h = absurd (omega (arith, h))

-- There is at least one worker, and not more than the configured number, or one.
pub workers_number_bounds :
    (workers items : ℕ)
    → (0 < workers_number workers items) × (workers_number workers items ≤ workers + 1)
unfolding workers_number
workers_number_bounds workers items = ground arith

-- Each worker waits, deletes an item, has sent an error, or has left because no item was left; the
-- channel of items holds no more than its capacity, and is closed behind the last item.
pub record IsBalanced (S U : Type 0) (workers : ℕ) (items : List U) (p : Pool S U) : Type 0 where
  pub at_most : p.idle + length p.busy + length p.errs ≤ workers
  pub exactly :
      0 < length p.queued + length p.unsent → p.idle + length p.busy + length p.errs ≡ workers
  pub conserved :
      (f : U → ℕ)
      → weight f p.unsent + weight f p.queued + weight f p.busy + weight f p.handled
        ≡ weight f items
  pub sized : p.capacity ≡ to_process_capacity workers
  pub fits : length p.queued ≤ p.capacity
  pub closes : p.closed ≡ true → p.unsent ≡ []

module _ {S U O : Type 0} (k : Machinery U) (b : Backend S U O) (r : Rest) (ctx : Context)
    (v : Option (U → Outcome (Unit {0}))) (options : O) where
  Step-IsBalanced :
      {workers : ℕ} {items : List U} (p q : Pool S U)
      → Step k b r ctx v options p q
      → IsBalanced S U workers items p
      → IsBalanced S U workers items q
  unfolding weight
  Step-IsBalanced p q (send item rest some_unsent room to) h =
      let size = length-append p.queued (item ∷ []) in
      rw to (record {
        at_most = h.at_most;
        exactly = λ ne. omega (arith, h.exactly, ap length some_unsent);
        conserved = λ f.
            omega (arith, h.conserved f, ap (weight f) some_unsent, weight-snoc f p.queued item);
        sized = h.sized;
        fits = omega (arith, size, room);
        closes = λ e. absurd (omega (arith, ap length (h.closes e), ap length some_unsent));
      })
  Step-IsBalanced p q (close all_sent not_closed to) h = rw to (record {
    at_most = h.at_most;
    exactly = h.exactly;
    conserved = h.conserved;
    sized = h.sized;
    fits = h.fits;
    closes = λ _. all_sent;
  })
  Step-IsBalanced p q (receive item rest n some_queued some_idle to) h =
      let size = ap length some_queued in
      rw to (record {
        at_most = omega (arith, h.at_most, some_idle);
        exactly = λ _. omega (arith, h.exactly (omega (arith, size)), some_idle);
        conserved = λ f. omega (arith, h.conserved f, ap (weight f) some_queued);
        sized = h.sized;
        fits = omega (arith, h.fits, size);
        closes = h.closes;
      })
  Step-IsBalanced p q (done before item after held returned to) h =
      let size = length-middle before item after in
      rw to (record {
        at_most = omega (arith, h.at_most, ap length held, size);
        exactly = λ ne. omega (arith, h.exactly ne, ap length held, size);
        conserved = λ f.
            omega (arith, h.conserved f, ap (weight f) held, weight-middle f before item after);
        sized = h.sized;
        fits = h.fits;
        closes = h.closes;
      })
  Step-IsBalanced p q (fail before item after e held failed to) h =
      let size = length-middle before item after in
      let sent = length-append p.errs (e ∷ []) in
      rw to (record {
        at_most = omega (arith, h.at_most, ap length held, size, sent);
        exactly = λ ne. omega (arith, h.exactly ne, ap length held, size, sent);
        conserved = λ f.
            omega (arith, h.conserved f, ap (weight f) held, weight-middle f before item after);
        sized = h.sized;
        fits = h.fits;
        closes = h.closes;
      })
  Step-IsBalanced p q (leave n drained closed some_idle to) h = rw to (record {
    at_most = omega (arith, h.at_most, some_idle);
    exactly = λ ne. absurd (omega (arith, ne, ap length drained, ap length (h.closes closed)));
    conserved = h.conserved;
    sized = h.sized;
    fits = h.fits;
    closes = h.closes;
  })

  pub Reach-IsBalanced :
      (items : List U) (s : S) {p : Pool S U}
      → Reach k b r ctx v options (start k b r ctx v options items s) p
      → IsBalanced S U (workers_number r.delete_collection_workers (length items)) items p
  unfolding start weight
  Reach-IsBalanced items s here = record {
    at_most = omega arith;
    exactly = λ _. omega arith;
    conserved = λ f. omega arith;
    sized = refl;
    fits = omega arith;
    closes = λ e. absurd (ground arith);
  }
  Reach-IsBalanced items s (next {q = q} {t = t} reach step) =
      Step-IsBalanced q t step (Reach-IsBalanced items s reach)

  -- In every state of the pool the errors in the channel and the workers that are at a delete are
  -- together fewer than the channel has room for, so that no worker waits to send an error.
  pub errs_never_full :
      (items : List U) (s : S) (p : Pool S U)
      → Reach k b r ctx v options (start k b r ctx v options items s) p
      → length p.errs + length p.busy
        < errs_capacity (workers_number r.delete_collection_workers (length items))
  unfolding errs_capacity
  errs_never_full items s p reach = omega (arith, (Reach-IsBalanced items s reach).at_most)

  -- In every order of the workers' steps, when all workers have returned and `DeleteCollection`
  -- answers with the list, the distributor has sent every item, none is left in the channel, and
  -- the items whose delete has returned are the items of the list, each as often as it is in the
  -- list.
  pub delete_collection_complete :
      (items : List U) (s : S) (p : Pool S U) (out out' : UnstructuredList U)
      → Reach k b r ctx v options (start k b r ctx v options items s) p
      → IsFinished k b r ctx v options p
      → answer p out ≡ ok out'
      → (p.unsent ≡ []) × (p.queued ≡ []) × ((f : U → ℕ) → weight f p.handled ≡ weight f items)
  unfolding answer weight
  delete_collection_complete items s p out out' reach fin h =
      let inv = Reach-IsBalanced items s reach in
      let positive = workers_number_bounds r.delete_collection_workers (length items) in
      let no_errs : p.errs ≡ [] = ground arith in
      let none_left : length p.queued + length p.unsent ≡ 0 =
        elim (ℕ-cases (length p.queued + length p.unsent)) [
          | inl e ↦ e
          | inr (n, e) ↦ absurd (
              omega (
                arith,
                inv.exactly (omega (arith, e)),
                positive.0,
                fin.none_idle,
                ap length fin.none_busy,
                ap length no_errs,
              ))
        ] in
      let all_sent = length-zero p.unsent (omega (arith, none_left)) in
      let drained = length-zero p.queued (omega (arith, none_left)) in
      (
        all_sent,
        drained,
        λ f. omega (
          arith,
          inv.conserved f,
          ap (weight f) all_sent,
          ap (weight f) drained,
          ap (weight f) fin.none_busy,
        ),
      )
