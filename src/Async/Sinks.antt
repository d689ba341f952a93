-- ===== src/Async/Sinks.antt =====
-- The exception sinks of a coroutine, src/uni20/async: the intrusive list of async_task_promise.hpp and
-- the calls that the buffers of buffers.hpp make on it. A node is part of a buffer and goes by a number,
-- as a promise and an EpochContext do; the nodes that no promise has stand in no list.
pub mod Links
pub mod Unlink
pub mod Remove
pub mod Steps
pub mod Link
pub mod Calls
pub mod History
mod Tests
use uni.Prelude.{
  ℕ, zero, suc, Bool, true, false, not, ◌&&◌, Option, none, some, List, [], ◌∷◌, if◌then◌else◌,
  ◌==◌,
}
use uni.Prelude.Outcome.{Outcome, ◌>>=◌, check_that}

pub record ExceptionSinkNode : Type 0 where
  pub owner : Option ℕ
  pub prev : Option ℕ
  pub next : Option ℕ
  pub epoch : Option ℕ
  pub explicit_sink : Bool

abbrev pub new_node : ExceptionSinkNode
new_node = record { owner = none; prev = none; next = none; epoch = none; explicit_sink = false }

abbrev pub Nodes : Type 0
Nodes = ℕ → ExceptionSinkNode

-- `heads` are the fields exception_sinks_head_ of the promises.
pub record Sinks : Type 0 where
  pub nodes : Nodes
  pub heads : ℕ → Option ℕ

unfoldable pub put {ℓ} : {A : Type ℓ} → ℕ → A → (ℕ → A) → ℕ → A
put k new f x = if k == x then new else f x

-- `if (at) at->next = link;`
unfoldable pub set_next : Option ℕ → Option ℕ → Nodes → Nodes
unfolding put
set_next none link nodes = nodes
set_next (some k) link nodes = put k (record (nodes k) { next = link }) nodes

unfoldable pub set_prev : Option ℕ → Option ℕ → Nodes → Nodes
unfolding put
set_prev none link nodes = nodes
set_prev (some k) link nodes = put k (record (nodes k) { prev = link }) nodes

abbrev pub head_after : Option ℕ → Option ℕ → Option ℕ → Option ℕ
head_after none next head = next
head_after (some k) next head = head

-- The links of the neighbours, and the node.
unfoldable pub unlink : ℕ → ℕ → Sinks → Sinks
unfolding put set_next set_prev
unlink promise n s =
    let nodes = set_next (s.nodes n).prev (s.nodes n).next s.nodes in
    record {
      nodes = put n new_node (set_prev (nodes n).next (nodes n).prev nodes);
      heads = put promise (head_after (s.nodes n).prev (s.nodes n).next (s.heads promise)) s.heads;
    }

abbrev pub owned_by : Option ℕ → ℕ → Bool
owned_by none promise = false
owned_by (some owner) promise = owner == promise

-- `unwinding`: std::uncaught_exceptions() is above 0.
unfoldable pub unregister_exception_sink : Bool → ℕ → ℕ → Bool → Sinks → Outcome Sinks
unfolding unlink
unregister_exception_sink unwinding promise n from_destructor s =
    let removed = (do
      _ ← check_that (not (from_destructor && ((s.nodes n).explicit_sink && unwinding)))
      Outcome.done (unlink promise n s)) in
    if owned_by (s.nodes n).owner promise then removed else Outcome.done s

-- `if (node.owner) node.owner->unregister_exception_sink(node, from_destructor);`
abbrev pub unregister_from : Bool → Option ℕ → ℕ → Bool → Sinks → Outcome Sinks
unregister_from unwinding none n from_destructor s = Outcome.done s
unregister_from unwinding (some owner) n from_destructor s =
    unregister_exception_sink unwinding owner n from_destructor s

abbrev pub linked_node : ℕ → Option ℕ → ℕ → Bool → ExceptionSinkNode
linked_node promise head epoch explicit_sink = record {
  owner = some promise;
  prev = none;
  next = head;
  epoch = some epoch;
  explicit_sink = explicit_sink;
}

unfoldable pub link : ℕ → ℕ → ℕ → Bool → Sinks → Sinks
unfolding put set_prev
link promise n epoch explicit_sink s =
    let node = linked_node promise (s.heads promise) epoch explicit_sink in
    record {
      nodes = set_prev (s.heads promise) (some n) (put n node s.nodes);
      heads = put promise (some n) s.heads;
    }

abbrev pub link_if : ℕ → ℕ → Option ℕ → Bool → Sinks → Sinks
link_if promise n none explicit_sink s = s
link_if promise n (some epoch) explicit_sink s = link promise n epoch explicit_sink s

unfoldable pub register_exception_sink : Bool → ℕ → ℕ → Option ℕ → Bool → Sinks → Outcome Sinks
unfolding unregister_exception_sink link
register_exception_sink unwinding promise n epoch explicit_sink s = do
  s' ← unregister_from unwinding (s.nodes n).owner n false s
  Outcome.done (link_if promise n epoch explicit_sink s')

-- What the buffers do, with their node as `this` and that of the other buffer as `other`.
abbrev pub register_from : Bool → Option ℕ → ℕ → Option ℕ → Bool → Sinks → Outcome Sinks
register_from unwinding none this epoch explicit_sink s = Outcome.done s
register_from unwinding (some owner) this epoch explicit_sink s =
    register_exception_sink unwinding owner this epoch explicit_sink s

unfoldable pub copy_exception_sink_from : Bool → ℕ → ℕ → Sinks → Outcome Sinks
unfolding register_exception_sink
copy_exception_sink_from unwinding this other s =
    register_from unwinding (s.nodes other).owner this (s.nodes other).epoch
      (s.nodes other).explicit_sink s

unfoldable pub move_exception_sink_from : Bool → ℕ → ℕ → Sinks → Outcome Sinks
unfolding unregister_exception_sink register_exception_sink
move_exception_sink_from unwinding this other s = do
  s' ← unregister_from unwinding (s.nodes other).owner other false s
  register_from unwinding (s.nodes other).owner this (s.nodes other).epoch
      (s.nodes other).explicit_sink s'

-- The move assignment of a buffer.
unfoldable pub assign_sink : Bool → ℕ → ℕ → Sinks → Outcome Sinks
unfolding unregister_exception_sink move_exception_sink_from
assign_sink unwinding this other s =
    let assigned = (do
      s' ← unregister_from unwinding (s.nodes this).owner this false s
      move_exception_sink_from unwinding this other s') in
    if this == other then Outcome.done s else assigned

-- The loop of unhandled_exception, on fuel: the epochs that get the exception.
unfoldable pub propagated : ℕ → Option ℕ → Nodes → List (Option ℕ)
propagated fuel none nodes = []
propagated zero (some n) nodes = []
propagated (suc fuel) (some n) nodes = (nodes n).epoch ∷ propagated fuel (nodes n).next nodes
