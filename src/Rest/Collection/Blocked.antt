-- ===== src/Rest/Collection/Blocked.antt =====
-- The distributor of `DeleteCollection` when the workers have returned before it has sent all items.
use external_crd.Prelude.{
  ◌+◌, ◌<◌, ◌≡◌, refl, ◌∙◌, ap, Bool-cases, inl, inr, false, List, arith, length, Option,
}
use external_crd.Prelude.Outcome.{Outcome}
use external_crd.Rest.User.{Context}
use external_crd.Rest.Objects.{Rest, Machinery, Backend}
use external_crd.Rest.Collection.{
  workers_number, to_process_capacity, Pool, start, Step, send, close, receive, done, fail, leave,
  Reach, here, next, IsFinished,
}
use external_crd.Rest.Collection.Invariant.{weight-one, length-middle, Reach-IsBalanced}

module _ {S U O : Type 0} (k : Machinery U) (b : Backend S U O) (r : Rest) (ctx : Context)
    (v : Option (U → Outcome (Unit {0}))) (options : O) where
  Reach-trans :
      {p q t : Pool S U}
      → Reach k b r ctx v options p q
      → Reach k b r ctx v options q t
      → Reach k b r ctx v options p t
  Reach-trans before here = before
  Reach-trans before (next reach step) = next (Reach-trans before reach) step

  -- When no worker is left, no worker comes back, and no item is handled.
  Step-IsFinished :
      (p q : Pool S U)
      → IsFinished k b r ctx v options p
      → Step k b r ctx v options p q
      → IsFinished k b r ctx v options q × (q.handled ≡ p.handled)
  Step-IsFinished p q fin (send item rest some_unsent room to) =
      rw to (record { none_idle = fin.none_idle; none_busy = fin.none_busy }, refl)
  Step-IsFinished p q fin (close all_sent not_closed to) =
      rw to (record { none_idle = fin.none_idle; none_busy = fin.none_busy }, refl)
  Step-IsFinished p q fin (receive item rest n some_queued some_idle to) =
      absurd (omega (arith, fin.none_idle, some_idle))
  Step-IsFinished p q fin (done before item after held returned to) =
      absurd
        (omega (arith, ap length fin.none_busy, ap length held, length-middle before item after))
  Step-IsFinished p q fin (fail before item after e held failed to) =
      absurd
        (omega (arith, ap length fin.none_busy, ap length held, length-middle before item after))
  Step-IsFinished p q fin (leave n drained closed some_idle to) =
      absurd (omega (arith, fin.none_idle, some_idle))

  Reach-IsFinished :
      {p q : Pool S U}
      → IsFinished k b r ctx v options p
      → Reach k b r ctx v options p q
      → IsFinished k b r ctx v options q × (q.handled ≡ p.handled)
  Reach-IsFinished fin here = (fin, refl)
  Reach-IsFinished fin (next {q = q} {t = t} reach step) =
      let (fin', same) = Reach-IsFinished fin reach in
      let (fin'', same') = Step-IsFinished q t fin' step in (fin'', same' ∙ same)

  -- When all workers of `DeleteCollection` have returned and the items that were not handled are
  -- more than the channel `toProcess` has room for, then in every later state the distributor has
  -- items to send and has not closed the channel: its goroutine never ends.
  pub distributor_blocked :
      (items : List U) (s : S) (p q : Pool S U)
      → Reach k b r ctx v options (start k b r ctx v options items s) p
      → IsFinished k b r ctx v options p
      → length p.handled
          + to_process_capacity (workers_number r.delete_collection_workers (length items))
        < length items
      → Reach k b r ctx v options p q
      → (q.closed ≡ false) × (0 < length q.unsent)
  distributor_blocked items s p q reach fin few later =
      let inv = Reach-IsBalanced k b r ctx v options items s (Reach-trans reach later) in
      let (fin', same) = Reach-IsFinished fin later in
      let left : 0 < length q.unsent = omega (
        arith,
        few,
        inv.conserved (λ _. 1),
        inv.fits,
        inv.sized,
        ap length same,
        ap length fin'.none_busy,
        weight-one q.unsent,
        weight-one q.queued,
        weight-one q.busy,
        weight-one q.handled,
        weight-one items,
      ) in
      elim (Bool-cases q.closed) [
        | inl closed ↦ absurd (omega (arith, left, ap length (inv.closes closed)))
        | inr not_closed ↦ (not_closed, left)
      ]
