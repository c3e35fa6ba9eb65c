-- ===== src/Utils/Watch/Order.antt =====
-- What the reader of a `WatchWrapper` sees, and what `Stop` waits for.
use external_crd.Prelude.{
  ℕ, ◌≡◌, refl, sym, ap, ◌∙◌, ◌≤◌, Bool, true, false, Option, List, [], ◌∷◌, ◌++◌, map,
  append_assoc, append-nil, arith, length, length-append,
}
use mathlib.Core.Path.{subst}
use external_crd.Utils.Watch.{
  Event, Runner, before, at_select, after, at_send, Wrapper, fixed, new_watch_wrapper, Step, enter,
  receive, send, leave_done, leave_closed, take, ask, stop, close, cancel, Reach, here, next,
}

-- The event that `Run` holds.
abbrev pub held : {O : Type 0} → Runner O → List (Event O)
held before = []
held at_select = []
held after = []
held (at_send e) = e ∷ []

-- Whether `Run` is between its lock and its return.
abbrev pub is_running : {O : Type 0} → Runner O → Bool
is_running before = false
is_running at_select = true
is_running after = false
is_running (at_send e) = true

module _ {O : Type 0} (fixup : Option (O → O)) (size : ℕ) where
  map-snoc :
      (es : List (Event O)) (e : Event O)
      → map (fixed fixup size) (es ++ e ∷ []) ≡ map (fixed fixup size) es ++ fixed fixup size e ∷ []
  map-snoc [] e = refl
  map-snoc (x ∷ es) e = ap (λ t. fixed fixup size x ∷ t) (map-snoc es e)

  -- What holds of a wrapper at every moment, for a watch with the events `sent`.
  pub record IsOrdered (sent : List (Event O)) (p : Wrapper O) : Type 0 where
    pub forwarded : p.read ++ (p.result ++ held p.runner) ≡ map (fixed fixup size) p.received
    pub from_watch : p.received ++ p.incoming ≡ sent
    pub holds_lock : p.locked ≡ is_running p.runner
    pub bounded : length p.result ≤ size

  sent_next :
      (p : Wrapper O) (e : Event O)
      → p.read ++ (p.result ++ []) ≡ map (fixed fixup size) p.received
      → p.read ++ (p.result ++ fixed fixup size e ∷ [])
        ≡ map (fixed fixup size) (p.received ++ e ∷ [])
  sent_next p e h =
      let all = ap (λ t. t ++ fixed fixup size e ∷ []) h in
      sym (append_assoc p.read p.result (fixed fixup size e ∷ []))
      ∙ ap (λ t. (p.read ++ t) ++ fixed fixup size e ∷ []) (sym (append-nil p.result))
      ∙ all
      ∙ sym (map-snoc p.received e)

  Step-IsOrdered :
      {sent : List (Event O)} (p q : Wrapper O)
      → Step fixup size p q
      → IsOrdered sent p
      → IsOrdered sent q
  Step-IsOrdered p q (enter r l to) h = rw to (record {
    forwarded =
        subst (λ x. p.read ++ (p.result ++ held x) ≡ map (fixed fixup size) p.received) r
          h.forwarded;
    from_watch = h.from_watch;
    holds_lock = refl;
    bounded = h.bounded;
  })
  Step-IsOrdered p q (receive e rest r i to) h = rw to (record {
    forwarded = sent_next p e (
        subst (λ x. p.read ++ (p.result ++ held x) ≡ map (fixed fixup size) p.received) r
          h.forwarded);
    from_watch =
        append_assoc p.received (e ∷ []) rest ∙ sym (ap (λ t. p.received ++ t) i) ∙ h.from_watch;
    holds_lock = h.holds_lock ∙ ap is_running r;
    bounded = h.bounded;
  })
  Step-IsOrdered p q (send e r room to) h = rw to (record {
    forwarded = rw (append-nil (p.result ++ e ∷ [])) (
        subst (λ x. p.read ++ (p.result ++ held x) ≡ map (fixed fixup size) p.received) r
          h.forwarded);
    from_watch = h.from_watch;
    holds_lock = h.holds_lock ∙ ap is_running r;
    bounded = omega (arith, room, length-append p.result (e ∷ []));
  })
  Step-IsOrdered p q (leave_done r c to) h = rw to (record {
    forwarded =
        subst (λ x. p.read ++ (p.result ++ held x) ≡ map (fixed fixup size) p.received) r
          h.forwarded;
    from_watch = h.from_watch;
    holds_lock = refl;
    bounded = h.bounded;
  })
  Step-IsOrdered p q (leave_closed r i c to) h = rw to (record {
    forwarded =
        subst (λ x. p.read ++ (p.result ++ held x) ≡ map (fixed fixup size) p.received) r
          h.forwarded;
    from_watch = h.from_watch;
    holds_lock = refl;
    bounded = h.bounded;
  })
  Step-IsOrdered p q (take e rest r to) h = rw to (record {
    forwarded =
        append_assoc p.read (e ∷ []) (rest ++ held p.runner)
        ∙ sym (ap (λ t. p.read ++ (t ++ held p.runner)) r)
        ∙ h.forwarded;
    from_watch = h.from_watch;
    holds_lock = h.holds_lock;
    bounded = omega (arith, h.bounded, ap length r);
  })
  Step-IsOrdered p q (ask to) h = rw to (record {
    forwarded = h.forwarded;
    from_watch = h.from_watch;
    holds_lock = h.holds_lock;
    bounded = h.bounded;
  })
  Step-IsOrdered p q (stop n s l to) h = rw to (record {
    forwarded = h.forwarded;
    from_watch = h.from_watch;
    holds_lock = h.holds_lock;
    bounded = h.bounded;
  })
  Step-IsOrdered p q (close to) h = rw to (record {
    forwarded = h.forwarded;
    from_watch = h.from_watch;
    holds_lock = h.holds_lock;
    bounded = h.bounded;
  })
  Step-IsOrdered p q (cancel to) h = rw to (record {
    forwarded = h.forwarded;
    from_watch = h.from_watch;
    holds_lock = h.holds_lock;
    bounded = h.bounded;
  })

  pub Reach-IsOrdered :
      (sent : List (Event O)) {p : Wrapper O}
      → Reach fixup size (new_watch_wrapper fixup size sent) p
      → IsOrdered sent p
  unfolding new_watch_wrapper
  Reach-IsOrdered sent here = record {
    forwarded = refl;
    from_watch = refl;
    holds_lock = refl;
    bounded = omega arith;
  }
  Reach-IsOrdered sent (next {q = q} {t = t} reach step) =
      Step-IsOrdered q t step (Reach-IsOrdered sent reach)

  -- Whatever the interleaving, what was read from the result, what its buffer holds and what `Run`
  -- is about to send are, in this order, the fixed up events that `Run` has received; these are
  -- the first of the watch's events; and the buffer holds at most `size` events.
  pub watch_in_order :
      (sent : List (Event O)) (p : Wrapper O)
      → Reach fixup size (new_watch_wrapper fixup size sent) p
      → (p.read ++ (p.result ++ held p.runner) ≡ map (fixed fixup size) p.received)
        × (p.received ++ p.incoming ≡ sent)
        × (length p.result ≤ size)
  watch_in_order sent p reach =
      let h = Reach-IsOrdered sent reach in (h.forwarded, h.from_watch, h.bounded)

  -- While `Run` runs, no step stops the watch or lets a caller out of `Stop`, however many callers
  -- wait in `Stop`.
  pub stop_waits_for_run :
      (sent : List (Event O)) (p q : Wrapper O)
      → Reach fixup size (new_watch_wrapper fixup size sent) p
      → is_running p.runner ≡ true
      → Step fixup size p q
      → (q.stopped ≡ p.stopped) × (p.stopping ≤ q.stopping)
  stop_waits_for_run sent p q reach runs step =
      not_stopped step (sym (sym runs ∙ sym (Reach-IsOrdered sent reach).holds_lock))
    where
      not_stopped :
          Step fixup size p q
          → p.locked ≡ true
          → (q.stopped ≡ p.stopped) × (p.stopping ≤ q.stopping)
      not_stopped (enter r l to) t = rw to (refl, omega arith)
      not_stopped (receive e rest r i to) t = rw to (refl, omega arith)
      not_stopped (send e r room to) t = rw to (refl, omega arith)
      not_stopped (leave_done r c to) t = rw to (refl, omega arith)
      not_stopped (leave_closed r i c to) t = rw to (refl, omega arith)
      not_stopped (take e rest r to) t = rw to (refl, omega arith)
      not_stopped (ask to) t = rw to (refl, omega arith)
      not_stopped (stop n s l to) t = absurd (ground arith)
      not_stopped (close to) t = rw to (refl, omega arith)
      not_stopped (cancel to) t = rw to (refl, omega arith)
