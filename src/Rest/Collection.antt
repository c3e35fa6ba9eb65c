-- ===== src/Rest/Collection.antt =====
-- `DeleteCollection` of pkg/apiserver/overlay/rest.go: the list, the pool of workers that delete its
-- items, and the answer. The workers' interleavings are the steps of a relation on the pool.
pub mod Invariant
pub mod Progress
pub mod Blocked
use external_crd.Prelude.{
  ℕ, zero, suc, ◌+◌, ◌*◌, ◌≤◌, ◌<◌, ◌≡◌, Bool, true, false, ltb, if◌then◌else◌, Option, none, some,
  List, [], ◌∷◌, ◌++◌, length,
}
use external_crd.Prelude.Text.{Text}
use external_crd.Prelude.Outcome.{
  GroupResource, ApiError, not_found, Outcome, ok, err, panic, then_do, Exec, lift, ◌>>=◌,
}
use external_crd.Rest.User.{Context}
use external_crd.Rest.Objects.{Rest, Machinery, Backend, ListParams, UnstructuredList}
use external_crd.Rest.Crud.{delete}
use external_crd.Rest.Listing.{Selectors, ListOptions, list}

-- workersNumber, from r.deleteCollectionWorkers and len(items)
unfoldable pub workers_number : ℕ → ℕ → ℕ
workers_number workers items =
    let capped = if ltb items workers then items else workers in if ltb capped 1 then 1 else capped

-- The capacity of the channel `toProcess`.
unfoldable pub to_process_capacity : ℕ → ℕ
to_process_capacity workers = 2 * workers

-- The capacity of the channel `errs`.
pub errs_capacity : ℕ → ℕ
errs_capacity workers = workers + 1

-- The pool: the items that the distributor has not sent, whether it has closed the channel
-- `toProcess`, the items in that channel and its capacity, the workers that wait for an item, the items
-- that workers are deleting, the errors in the channel `errs`, the items whose delete has returned, and
-- the server's state.
pub record Pool (S U : Type 0) : Type 0 where
  pub unsent : List U
  pub closed : Bool
  pub queued : List U
  pub capacity : ℕ
  pub idle : ℕ
  pub busy : List U
  pub errs : List ApiError
  pub handled : List U
  pub server : S

-- How a worker's turn with an item ends; of a delete by `err != nil && !errors.IsNotFound(err)`.
pub data Deletion : Type 0 where
  goes_on : Deletion
  fails : ApiError → Deletion
  crashes : Deletion

abbrev pub judge {ℓ} : {A : Type ℓ} → Outcome A → Deletion
judge (ok _) = goes_on
judge (err (not_found g n)) = goes_on
judge (err e) = fails e
judge panic = crashes

module _ {S U O : Type 0} (k : Machinery U) (b : Backend S U O) (r : Rest) (ctx : Context)
    (v : Option (U → Outcome (Unit {0}))) (options : O) where
  -- The delete of an item whose name is known, or not: any error of meta.Accessor ends the worker.
  unfoldable pub delete_named : Outcome Text → S → Deletion × S
  delete_named (ok name) s =
      let (answer, s') = delete k b r ctx name v options s in (judge answer, s')
  delete_named (err e) s = (fails e, s)
  delete_named panic s = (crashes, s)

  -- The body of a worker's loop: the name of the item, and its delete.
  unfoldable pub delete_item : U → S → Deletion × S
  unfolding delete_named
  delete_item item s = delete_named (k.accessor_name item) s

  -- `start` spawns the distributor and the workers.
  unfoldable pub start : List U → S → Pool S U
  start items s =
      let workers = workers_number r.delete_collection_workers (length items) in
      record {
        unsent = items;
        closed = false;
        queued = [];
        capacity = to_process_capacity workers;
        idle = workers;
        busy = [];
        errs = [];
        handled = [];
        server = s;
      }

  -- send: the distributor sends the next index, for which the channel has room. close: it has sent all,
  -- and closes the channel. receive: a worker takes the next index. done: its delete returned, and it
  -- loops. fail: its delete failed, it sends the error and returns. leave: the channel is closed and
  -- drained, and it returns.
  pub data Step (p q : Pool S U) : Type 0 where
    send :
        (item : U) (rest : List U)
        → p.unsent ≡ item ∷ rest
        → length p.queued < p.capacity
        → q ≡ record p { unsent = rest; queued = p.queued ++ item ∷ [] }
        → Step p q
    close : p.unsent ≡ [] → p.closed ≡ false → q ≡ record p { closed = true } → Step p q
    receive :
        (item : U) (rest : List U) (n : ℕ)
        → p.queued ≡ item ∷ rest
        → p.idle ≡ suc n
        → q ≡ record p { queued = rest; idle = n; busy = item ∷ p.busy }
        → Step p q
    done :
        (before : List U) (item : U) (after : List U)
        → p.busy ≡ before ++ item ∷ after
        → (delete_item item p.server).0 ≡ goes_on
        → q ≡ record p {
          idle = suc p.idle;
          busy = before ++ after;
          handled = item ∷ p.handled;
          server = (delete_item item p.server).1;
        }
        → Step p q
    fail :
        (before : List U) (item : U) (after : List U) (e : ApiError)
        → p.busy ≡ before ++ item ∷ after
        → (delete_item item p.server).0 ≡ fails e
        → q ≡ record p {
          busy = before ++ after;
          errs = p.errs ++ e ∷ [];
          handled = item ∷ p.handled;
          server = (delete_item item p.server).1;
        }
        → Step p q
    leave :
        (n : ℕ)
        → p.queued ≡ []
        → p.closed ≡ true
        → p.idle ≡ suc n
        → q ≡ record p { idle = n }
        → Step p q

  pub data Reach (p : Pool S U) : Pool S U → Type 0 where
    here : Reach p p
    next : {q t : Pool S U} → Reach p q → Step q t → Reach p t

  -- wg.Wait() returns: every worker has; the distributor is not waited for.
  pub record IsFinished (p : Pool S U) : Type 0 where
    pub none_idle : p.idle ≡ 0
    pub none_busy : p.busy ≡ []

-- The `select` at the end: the first error in the channel, or the list.
unfoldable pub answer :
    {S U : Type 0} → Pool S U → UnstructuredList U → Outcome (UnstructuredList U)
answer p out = elim p.errs [ [] ↦ ok out | e ∷ _ ↦ err e ]

-- What `DeleteCollection` does before it starts the workers: an empty list is returned at once.
pub data Plan (U : Type 0) : Type 0 where
  finish : Outcome (UnstructuredList U) → Plan U
  spawn : UnstructuredList U → List U → Plan U

-- internalversion.ListOptions{}
pub no_list_options : {L : Type 0} → ListParams → ListOptions L
no_list_options params = record { label_selector = none; field_selector = none; params = params }

module _ {S U O L R : Type 0} (k : Machinery U) (b : Backend S U O) (sel : Selectors L R) where
  abbrev spawn_for : UnstructuredList U → List U → Plan U
  spawn_for out [] = finish (ok out)
  spawn_for out (item ∷ items) = spawn out (item ∷ items)

  abbrev extracted : UnstructuredList U → Outcome (List U) → Plan U
  extracted out (ok items) = spawn_for out items
  extracted out (err e) = finish (err e)
  extracted out panic = finish panic

  abbrev listed : Outcome (UnstructuredList U) → Plan U
  listed (ok out) = extracted out (k.extract_list out)
  listed (err e) = finish (err e)
  listed panic = finish panic

  -- The first part of `DeleteCollection`; `zero_params` are those of internalversion.ListOptions{}.
  pub plan : ListParams → Rest → Context → Option (ListOptions L) → S → Plan U
  unfolding no_list_options
  plan zero_params r ctx none s = listed (list k b sel r ctx (some (no_list_options zero_params)) s)
  plan zero_params r ctx (some options) s = listed (list k b sel r ctx (some options) s)
