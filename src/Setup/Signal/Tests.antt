-- ===== src/Setup/Signal/Tests.antt =====
-- An instance of the theorem on `GracefulStopWithContext`: two signals arrive before the goroutine runs.
use external_crd.Prelude.{◌≡◌, refl, true, leb}
use external_crd.Setup.Signal.{
  graceful_stop, Stopper, exited, Reach, begin, go_on, arrive, receive, cancel, receive_again,
  is_exited, first_receive, quiet_stop,
}

abbrev stopped : Stopper
stopped = record { buffered = 0; phase = exited; cancelled = true }

two_signals : Reach 2 stopped
unfolding graceful_stop
two_signals =
    go_on
      (go_on
        (go_on (go_on (go_on begin (arrive 0 first_receive _)) (arrive 1 first_receive _))
          (receive 1 _))
        (cancel 1 _))
      (receive_again 0 _)

quiet_stop_example : (stopped.cancelled ≡ leb 1 2) × (is_exited stopped.phase ≡ leb 2 2)
quiet_stop_example = quiet_stop two_signals refl
