-- ===== src/Async/Sinks/History.antt =====
-- Programs that register and unregister sinks, and the loop that hands an exception to them.
use uni.Prelude.{
  ℕ, zero, suc, ◌≡◌, ◌≤◌, refl, ap, ◌∙◌, Bool, true, Option, none, some, List, [], ◌∷◌, length,
  arith,
}
use uni.Prelude.Outcome.{Outcome, ◌>>=◌}
use uni.Async.Sinks.{
  Nodes, Sinks, new_node, owned_by, unregister_from, register_exception_sink,
  copy_exception_sink_from, move_exception_sink_from, assign_sink, propagated,
}
use uni.Async.Sinks.Links.{elem, first, Unique, Linked, IsLists}
use uni.Async.Sinks.Calls.{
  Sound, unregister_from-Sound, register-Sound, copy_exception_sink_from-Sound,
  move_exception_sink_from-Sound, assign_sink-Sound,
}

-- A buffer goes by its node. The first argument tells whether an exception is on its way.
pub data Command : Type 0 where
  register : Bool → ℕ → ℕ → Option ℕ → Bool → Command
  destroy : Bool → ℕ → Command
  copy_to move_to assign_to : Bool → ℕ → ℕ → Command

abbrev pub apply : Command → Sinks → Outcome Sinks
apply (Command.register u promise n epoch explicit_sink) s =
    register_exception_sink u promise n epoch explicit_sink s
apply (Command.destroy u n) s = unregister_from u (s.nodes n).owner n true s
apply (Command.copy_to u this other) s = copy_exception_sink_from u this other s
apply (Command.move_to u this other) s = move_exception_sink_from u this other s
apply (Command.assign_to u this other) s = assign_sink u this other s

abbrev pub apply_all : List Command → Sinks → Outcome Sinks
apply_all [] s = Outcome.done s
apply_all (command ∷ commands) s = do s' ← apply command s; apply_all commands s'

abbrev pub no_sinks : Sinks
no_sinks = record { nodes = λ n. new_node; heads = λ p. none }

pub no_sinks-IsLists : IsLists no_sinks (λ p. [])
no_sinks-IsLists = record {
  head = λ p. refl;
  linked = λ p. tt;
  unique = λ p. tt;
  members = λ p n. refl;
}

apply-Sound :
    (command : Command) (s : Sinks) (lists : ℕ → List ℕ) → IsLists s lists → Sound (apply command s)
apply-Sound (Command.register u p n epoch x) s lists c = register-Sound u p n epoch x s lists c
apply-Sound (Command.destroy u n) s lists c = unregister_from-Sound u n true s lists c
apply-Sound (Command.copy_to u this other) s lists c =
    copy_exception_sink_from-Sound u this other s lists c
apply-Sound (Command.move_to u this other) s lists c =
    move_exception_sink_from-Sound u this other s lists c
apply-Sound (Command.assign_to u this other) s lists c = assign_sink-Sound u this other s lists c

after-Sound :
    (m : Outcome Sinks) (f : Sinks → Outcome Sinks)
    → Sound m
    → ((s : Sinks) (lists : ℕ → List ℕ) → IsLists s lists → Sound (f s))
    → Sound (m >>= f)
after-Sound (Outcome.done s) f c g = g s (c.0) (c.1)
after-Sound Outcome.refused f c g = tt
after-Sound Outcome.fault f c g = c

all-Sound :
    (commands : List Command) (s : Sinks) (lists : ℕ → List ℕ)
    → IsLists s lists
    → Sound (apply_all commands s)
all-Sound [] s lists c = (lists, c)
all-Sound (command ∷ commands) s lists c =
    after-Sound (apply command s) (apply_all commands) (apply-Sound command s lists c)
      (all-Sound commands)

abbrev pub epochs : Nodes → List ℕ → List (Option ℕ)
epochs nodes [] = []
epochs nodes (n ∷ ns) = (nodes n).epoch ∷ epochs nodes ns

propagated-Linked :
    (nodes : Nodes) (before : Option ℕ) (xs : List ℕ) (fuel : ℕ)
    → Linked nodes before xs
    → length xs ≤ fuel
    → propagated fuel (first xs) nodes ≡ epochs nodes xs
unfolding propagated
propagated-Linked nodes before [] fuel l m = refl
propagated-Linked nodes before (x ∷ xs) zero l m = ground arith
propagated-Linked nodes before (x ∷ xs) (suc fuel) l m = rw (l.1) (
    ap (λ es. (nodes x).epoch ∷ es) (propagated-Linked nodes (some x) xs fuel (l.2) (ground arith)))

-- Whatever buffers register, copy, move, assign and destroy their sinks, from none on, with none of it
-- refused: for each promise, the loop of unhandled_exception comes to an end, and it hands the exception
-- to the epochs of exactly the sinks that the promise owns, to each once.
pub propagated-apply_all :
    (commands : List Command) (s : Sinks)
    → apply_all commands no_sinks ≡ Outcome.done s
    → (promise : ℕ)
    → (sinks : List ℕ) × Unique sinks
      × ((n : ℕ) → elem n sinks ≡ owned_by (s.nodes n).owner promise)
      × ((fuel : ℕ)
          → length sinks ≤ fuel
          → propagated fuel (s.heads promise) s.nodes ≡ epochs s.nodes sinks)
propagated-apply_all commands s e promise =
    let (lists, c) = rw e at (all-Sound commands no_sinks (λ p. []) no_sinks-IsLists) in
    (
      lists promise,
      c.unique promise,
      c.members promise,
      λ fuel m.
          ap (λ h. propagated fuel h s.nodes) (c.head promise)
          ∙ propagated-Linked s.nodes none (lists promise) fuel (c.linked promise) m,
    )
