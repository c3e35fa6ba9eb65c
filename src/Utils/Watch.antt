-- ===== src/Utils/Watch.antt =====
-- pkg/utils/watch.go: `WatchWrapper`, whose `Run` sends each event of a watch on, with its object fixed
-- up. The goroutine of `Run`, a caller of `Stop` and the reader of the result are the steps of a relation.
pub mod Order
mod Tests
use external_crd.Prelude.{
  Bool, true, false, ℕ, suc, ◌≡◌, ◌<◌, Option, none, some, List, [], ◌∷◌, ◌++◌, map, length,
}

-- watch.Event, with its type a text
pub record Event (O : Type 0) : Type 0 where
  pub type : List ℕ
  pub object : O

-- Where the goroutine of `Run` is: not in it yet, at the `select`, at a send, or out of it.
pub data Runner (O : Type 0) : Type 0 where
  before at_select after : Runner O
  at_send : Event O → Runner O

-- WatchWrapper with its watch: the events that the watch has for its channel, whether that channel is
-- closed, whether the context is done, the buffer of `result`, and the events that were read from it.
-- `locked` is the mutex, `stopping` is how many callers are in `Stop`, before its lock.
pub record Wrapper (O : Type 0) : Type 0 where
  pub incoming : List (Event O)
  pub received : List (Event O)
  pub closed : Bool
  pub cancelled : Bool
  pub result : List (Event O)
  pub read : List (Event O)
  pub runner : Runner O
  pub locked : Bool
  pub stopping : ℕ
  pub stopped : Bool

module _ {O : Type 0} (fixup : Option (O → O)) (size : ℕ) where
  -- The event that is sent: a nil fixup leaves it.
  unfoldable pub fixed : Event O → Event O
  fixed e = elim fixup [ none ↦ e | some f ↦ record e { object = f e.object } ]

  -- NewWatchWrapper, for a watch with some events
  unfoldable pub new_watch_wrapper : List (Event O) → Wrapper O
  new_watch_wrapper incoming = record {
    incoming = incoming;
    received = [];
    closed = false;
    cancelled = false;
    result = [];
    read = [];
    runner = before;
    locked = false;
    stopping = 0;
    stopped = false;
  }

  -- enter: `Run` takes the lock. receive: an event of the watch. send: there is room in `result`.
  -- leave_done, leave_closed: `Run` returns, and the lock is free. take: the reader takes an event.
  -- ask, stop: a caller of `Stop`, before its lock and with it. close, cancel: the watch ends its
  -- events, and the context ends.
  pub data Step (p q : Wrapper O) : Type 0 where
    enter :
        p.runner ≡ before
        → p.locked ≡ false
        → q ≡ record p { runner = at_select; locked = true }
        → Step p q
    receive :
        (e : Event O) (rest : List (Event O))
        → p.runner ≡ at_select
        → p.incoming ≡ e ∷ rest
        → q ≡ record p {
          runner = at_send (fixed e);
          incoming = rest;
          received = p.received ++ e ∷ [];
        }
        → Step p q
    send :
        (e : Event O)
        → p.runner ≡ at_send e
        → length p.result < size
        → q ≡ record p { runner = at_select; result = p.result ++ e ∷ [] }
        → Step p q
    leave_done :
        p.runner ≡ at_select
        → p.cancelled ≡ true
        → q ≡ record p { runner = after; locked = false }
        → Step p q
    leave_closed :
        p.runner ≡ at_select
        → p.incoming ≡ []
        → p.closed ≡ true
        → q ≡ record p { runner = after; locked = false }
        → Step p q
    take :
        (e : Event O) (rest : List (Event O))
        → p.result ≡ e ∷ rest
        → q ≡ record p { result = rest; read = p.read ++ e ∷ [] }
        → Step p q
    ask : q ≡ record p { stopping = suc p.stopping } → Step p q
    stop :
        (n : ℕ)
        → p.stopping ≡ suc n
        → p.locked ≡ false
        → q ≡ record p { stopping = n; stopped = true; closed = true }
        → Step p q
    close : q ≡ record p { closed = true } → Step p q
    cancel : q ≡ record p { cancelled = true } → Step p q

  pub data Reach (p : Wrapper O) : Wrapper O → Type 0 where
    here : Reach p p
    next : {q t : Wrapper O} → Reach p q → Step q t → Reach p t
