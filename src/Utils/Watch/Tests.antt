-- ===== src/Utils/Watch/Tests.antt =====
-- Instances of the theorems on `WatchWrapper`: one event, which `Run` receives and sends.
use external_crd.Prelude.{
  ℕ, ◌≡◌, refl, ◌≤◌, ◌+◌, Option, some, true, false, [], ◌∷◌, ◌++◌, map, arith, length,
}
use external_crd.Utils.Watch.{
  Event, at_select, Wrapper, fixed, new_watch_wrapper, enter, receive, send, ask, Reach, here, next,
}
use external_crd.Utils.Watch.Order.{held, watch_in_order, stop_waits_for_run}

abbrev double : Option (ℕ → ℕ)
double = some (λ n. n + n)

abbrev added : Event ℕ
added = record { type = []; object = 3 }

abbrev doubled : Event ℕ
doubled = record { type = []; object = 6 }

abbrev sent : Wrapper ℕ
sent = record {
  incoming = [];
  received = added ∷ [];
  closed = false;
  cancelled = false;
  result = doubled ∷ [];
  read = [];
  runner = at_select;
  locked = true;
  stopping = 0;
  stopped = false;
}

run : Reach double 5 (new_watch_wrapper double 5 (added ∷ [])) sent
unfolding new_watch_wrapper fixed
run =
    next (next (next here (enter refl refl refl)) (receive added [] refl refl refl))
      (send doubled refl (omega arith) refl)

watch_in_order_example :
    (sent.read ++ (sent.result ++ held sent.runner) ≡ map (fixed double 5) sent.received)
    × (sent.received ++ sent.incoming ≡ added ∷ [])
    × (length sent.result ≤ 5)
watch_in_order_example = watch_in_order double 5 (added ∷ []) sent run

stop_waits_for_run_example : (false ≡ sent.stopped) × (sent.stopping ≤ 1)
stop_waits_for_run_example =
    stop_waits_for_run double 5 (added ∷ []) sent (record sent { stopping = 1 }) run refl (ask refl)
