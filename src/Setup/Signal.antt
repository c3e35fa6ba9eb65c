-- ===== src/Setup/Signal.antt =====
-- `GracefulStopWithContext` of pkg/utils/signal.go: a first signal cancels the context of the program, a
-- second one ends it.
mod Tests
use external_crd.Prelude.{
  ℕ, suc, ◌+◌, ◌≤◌, ◌≡◌, refl, ◌∙◌, Bool, true, false, arith, ◌==◌, ltb, leb, if◌then◌else◌,
}

-- The capacity of `gracefulStopCh`; signal.Notify drops a signal for which it has no room.
abbrev pub stop_capacity : ℕ
stop_capacity = 2

-- Where the goroutine stands: at its first receive, between that and `cancel()`, at its second receive, or
-- behind os.Exit(1).
pub data Phase : Type 0 where
  first_receive cancelling second_receive exited : Phase

pub record Stopper : Type 0 where
  pub buffered : ℕ
  pub phase : Phase
  pub cancelled : Bool

unfoldable pub graceful_stop : Stopper
graceful_stop = record { buffered = 0; phase = first_receive; cancelled = false }

-- A step: a signal arrives, or the goroutine goes on. Its number is of the signals that arrive.
pub data Step : Stopper → ℕ → Stopper → Type 0 where
  arrive :
      (n : ℕ) (p : Phase) (c : Bool)
      → Step
          (record { buffered = n; phase = p; cancelled = c })
          1
          (record { buffered = if ltb n stop_capacity then suc n else n; phase = p; cancelled = c })
  receive :
      (n : ℕ) (c : Bool)
      → Step
          (record { buffered = suc n; phase = first_receive; cancelled = c })
          0
          (record { buffered = n; phase = cancelling; cancelled = c })
  cancel :
      (n : ℕ) (c : Bool)
      → Step
          (record { buffered = n; phase = cancelling; cancelled = c })
          0
          (record { buffered = n; phase = second_receive; cancelled = true })
  receive_again :
      (n : ℕ) (c : Bool)
      → Step
          (record { buffered = suc n; phase = second_receive; cancelled = c })
          0
          (record { buffered = n; phase = exited; cancelled = c })

-- The states, with the number of signals that have arrived.
pub data Reach : ℕ → Stopper → Type 0 where
  begin : Reach 0 graceful_stop
  go_on : {n k : ℕ} {s t : Stopper} → Reach n s → Step s k t → Reach (k + n) t

-- The goroutine has nothing to receive or has ended.
abbrev pub is_quiet : Stopper → Bool
is_quiet s = elim s.phase [
  | first_receive ↦ s.buffered == 0
  | cancelling ↦ false
  | second_receive ↦ s.buffered == 0
  | exited ↦ true
]

abbrev taken : Phase → ℕ
taken first_receive = 0
taken cancelling = 1
taken second_receive = 1
taken exited = 2

abbrev pub is_exited : Phase → Bool
is_exited exited = true
is_exited _ = false

abbrev is_late : Phase → Bool
is_late first_receive = false
is_late cancelling = false
is_late second_receive = true
is_late exited = true

-- The signals that were taken or wait are all that arrived, or two at least.
record IsCounted (n : ℕ) (s : Stopper) : Type 0 where
  at_most : s.buffered + taken s.phase ≤ n
  enough : (if leb n 2 then n else 2) ≤ s.buffered + taken s.phase
  cancels : s.cancelled ≡ is_late s.phase

Step-IsCounted : {n k : ℕ} {s t : Stopper} → IsCounted n s → Step s k t → IsCounted (k + n) t
Step-IsCounted c (arrive m p b) = record {
  at_most = ground (arith, c.at_most);
  enough = ground (arith, c.enough);
  cancels = c.cancels;
}
Step-IsCounted c (receive m b) = record {
  at_most = ground (arith, c.at_most);
  enough = ground (arith, c.enough);
  cancels = c.cancels;
}
Step-IsCounted c (cancel m b) = record {
  at_most = ground (arith, c.at_most);
  enough = ground (arith, c.enough);
  cancels = refl;
}
Step-IsCounted c (receive_again m b) = record {
  at_most = ground (arith, c.at_most);
  enough = ground (arith, c.enough);
  cancels = c.cancels;
}

Reach-IsCounted : {n : ℕ} {s : Stopper} → Reach n s → IsCounted n s
unfolding graceful_stop
Reach-IsCounted begin = record { at_most = omega arith; enough = omega arith; cancels = refl }
Reach-IsCounted (go_on p step) = Step-IsCounted (Reach-IsCounted p) step

quiet_parts :
    (n m : ℕ) (p : Phase) (b : Bool)
    → IsCounted n (record { buffered = m; phase = p; cancelled = b })
    → is_quiet (record { buffered = m; phase = p; cancelled = b }) ≡ true
    → (b ≡ leb 1 n) × (is_exited p ≡ leb 2 n)
quiet_parts n m first_receive b c h =
    (c.cancels ∙ ground (arith, c.enough), ground (arith, c.enough))
quiet_parts n m cancelling b c h = absurd (ground arith)
quiet_parts n m second_receive b c h =
    (c.cancels ∙ ground (arith, c.at_most), ground (arith, c.enough))
quiet_parts n m exited b c h = (c.cancels ∙ ground (arith, c.at_most), ground (arith, c.at_most))

-- Whenever the goroutine of `GracefulStopWithContext` has nothing to receive or has ended, the
-- context is cancelled exactly if a signal has arrived and the process has exited exactly if two
-- have: the buffer of two loses no signal that matters.
pub quiet_stop :
    {n : ℕ} {s : Stopper}
    → Reach n s
    → is_quiet s ≡ true
    → (s.cancelled ≡ leb 1 n) × (is_exited s.phase ≡ leb 2 n)
quiet_stop {n} {s} p h = quiet_parts n s.buffered s.phase s.cancelled (Reach-IsCounted p) h
