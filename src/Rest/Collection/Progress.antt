-- ===== src/Rest/Collection/Progress.antt =====
-- The workers come to an end: each step uses up some of the work, and until all workers have returned
-- there is a step to make, unless a delete crashes.
use external_crd.Prelude.{
  ℕ, suc, ◌+◌, ◌*◌, ◌≤◌, ◌<◌, ◌≡◌, refl, ap, ◌⊎◌, inl, inr, List, List-cases, ℕ-cases, [], ◌∷◌,
  arith, length, length-append, Option, Bool, Bool-cases, true, false,
}
use external_crd.Prelude.Outcome.{Outcome}
use external_crd.Rest.User.{Context}
use external_crd.Rest.Objects.{Rest, Machinery, Backend}
use external_crd.Rest.Collection.{
  workers_number, to_process_capacity, Pool, Deletion, goes_on, fails, crashes, delete_item, start,
  Step, send, close, receive, done, fail, leave, Reach, here, next, IsFinished,
}
use external_crd.Rest.Collection.Invariant.{length-middle, Reach-IsBalanced, workers_number_bounds}

abbrev to_close : Bool → ℕ
to_close true = 0
to_close false = 1

-- The work that is left.
pub work : {S U : Type 0} → Pool S U → ℕ
work p = 4 * length p.unsent + 3 * length p.queued + 2 * length p.busy + p.idle + to_close p.closed

module _ {S U O : Type 0} (k : Machinery U) (b : Backend S U O) (r : Rest) (ctx : Context)
    (v : Option (U → Outcome (Unit {0}))) (options : O) where
  -- The steps of a run.
  pub steps : {p q : Pool S U} → Reach k b r ctx v options p q → ℕ
  steps here = 0
  steps (next reach step) = suc (steps reach)

  -- Each step uses up some work.
  pub Step-work : (p q : Pool S U) → Step k b r ctx v options p q → work q < work p
  unfolding work
  Step-work p q (send item rest some_unsent room to) =
      rw to (omega (arith, ap length some_unsent, length-append p.queued (item ∷ [])))
  Step-work p q (close all_sent not_closed to) = rw to (omega (arith, ap to_close not_closed))
  Step-work p q (receive item rest n some_queued some_idle to) =
      rw to (omega (arith, ap length some_queued, some_idle))
  Step-work p q (done before item after held returned to) =
      rw to (omega (arith, ap length held, length-middle before item after))
  Step-work p q (fail before item after e held failed to) =
      rw to (omega (arith, ap length held, length-middle before item after))
  Step-work p q (leave n drained closed some_idle to) = rw to (omega (arith, some_idle))

  steps-work :
      {p q : Pool S U} (reach : Reach k b r ctx v options p q) → steps reach + work q ≤ work p
  unfolding steps
  steps-work here = omega arith
  steps-work (next {q = q} {t = t} reach step) = omega (arith, steps-work reach, Step-work q t step)

  -- A run of the distributor and the workers of `DeleteCollection` on n items makes at most 4n
  -- steps, one for each worker and one more.
  pub delete_collection_terminates :
      (items : List U) (s : S) (p : Pool S U)
      (reach : Reach k b r ctx v options (start k b r ctx v options items s) p)
      → steps reach
        ≤ 4 * length items + workers_number r.delete_collection_workers (length items) + 1
  unfolding start work
  delete_collection_terminates items s p reach = omega (arith, steps-work reach)

  deleting :
      (p : Pool S U) (item : U) (rest : List U)
      → p.busy ≡ item ∷ rest
      → (d : Deletion) → (delete_item k b r ctx v options item p.server).0 ≡ d
      → ((q : Pool S U) × Step k b r ctx v options p q)
        ⊎ ((delete_item k b r ctx v options item p.server).0 ≡ crashes)
  deleting p item rest held goes_on e = inl (_, done [] item rest held e refl)
  deleting p item rest held (fails x) e = inl (_, fail [] item rest x held e refl)
  deleting p item rest held crashes e = inr e

  -- A worker that waits for an item is not left waiting.
  waiting :
      (p : Pool S U) (n : ℕ)
      → p.idle ≡ suc n
      → 0 < p.capacity
      → (q : Pool S U) × Step k b r ctx v options p q
  waiting p n some_idle room = elim (List-cases p.queued) [
    | inr (item, rest, more) ↦ (_, receive item rest n more some_idle refl)
    | inl drained ↦ elim (List-cases p.unsent) [
      | inr (item, rest, more) ↦
          (_, send item rest more (omega (arith, room, ap length drained)) refl)
      | inl all_sent ↦ elim (Bool-cases p.closed) [
        | inl closed ↦ (_, leave n drained closed some_idle refl)
        | inr not_closed ↦ (_, close all_sent not_closed refl)
      ]
    ]
  ]

  -- In every state that the pool comes to, all workers have returned, or there is a step, or a
  -- worker is at a delete that panics.
  pub delete_collection_progress :
      (items : List U) (s : S) (p : Pool S U)
      → Reach k b r ctx v options (start k b r ctx v options items s) p
      → IsFinished k b r ctx v options p
        ⊎ ((q : Pool S U) × Step k b r ctx v options p q)
        ⊎ ((item : U) × (rest : List U) × (p.busy ≡ item ∷ rest)
            × ((delete_item k b r ctx v options item p.server).0 ≡ crashes))
  unfolding to_process_capacity
  delete_collection_progress items s p reach = elim (List-cases p.busy) [
    | inr (item, rest, held) ↦
        elim (deleting p item rest held ((delete_item k b r ctx v options item p.server).0) refl) [
          | inl step ↦ inr (inl step)
          | inr crash ↦ inr (inr (item, rest, held, crash))
        ]
    | inl free ↦ elim (ℕ-cases p.idle) [
      | inl none_idle ↦ inl (record { none_idle = none_idle; none_busy = free })
      | inr (n, some_idle) ↦
          let inv = Reach-IsBalanced k b r ctx v options items s reach in
          let positive = workers_number_bounds r.delete_collection_workers (length items) in
          inr (inl (waiting p n some_idle (omega (arith, inv.sized, positive.0))))
    ]
  ]
