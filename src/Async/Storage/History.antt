-- ===== src/Async/Storage/History.antt =====
-- Programs that use handles, from no block and no handle on.
use uni.Prelude.{ℕ, ◌≡◌, refl, none, some, List, [], ◌∷◌, get_elem?, inl, inr, Option-cases}
use uni.Async.Storage.{
  Outcome, Store, ◌>>=◌, load, handle, make_unconstructed_shared_storage, make_constructed,
  copy_construct, move_construct, reset, copy_assign, move_assign, emplace, destroy, take,
}
use uni.Async.Storage.Counts.{IsCounted, held}
use uni.Async.Storage.Handles.{
  Sound, reset-Sound, copy_construct-Sound, move_construct-Sound, copy_assign-Sound,
  move_assign-Sound,
}
use uni.Async.Storage.Values.{
  make_unconstructed-Sound, make_constructed-Sound, destroy-Sound, emplace-Sound,
}

-- The calls; a handle is named by its place.
pub data Command (T : Type 0) : Type 0 where
  make : Command T
  make_value : T → Command T
  copy_from move_from reset_at destroy_at take_at : ℕ → Command T
  assign_copy assign_move : ℕ → ℕ → Command T
  emplace_at : ℕ → T → Command T

module _ {T : Type 0} where
  abbrev pub perform : Command T → Store T → Outcome (Store T)
  perform Command.make s = make_unconstructed_shared_storage s
  perform (Command.make_value v) s = make_constructed v s
  perform (Command.copy_from j) s = copy_construct j s
  perform (Command.move_from j) s = move_construct j s
  perform (Command.reset_at i) s = reset i s
  perform (Command.destroy_at i) s = destroy i s
  perform (Command.take_at i) s = do (x, s') ← take i s; Outcome.done s'
  perform (Command.assign_copy i j) s = copy_assign i j s
  perform (Command.assign_move i j) s = move_assign i j s
  perform (Command.emplace_at i v) s = emplace i v s

  abbrev pub run_all : List (Command T) → Store T → Outcome (Store T)
  run_all [] s = Outcome.done s
  run_all (command ∷ commands) s = do s' ← perform command s; run_all commands s'

  abbrev pub nothing : Store T
  nothing = record { blocks = λ a. none; next = 0; handles = [] }

  nothing-IsCounted : IsCounted nothing
  nothing-IsCounted = record { counted = λ a. refl; positive = λ a. tt; fresh = λ a l. refl }

  forget :
      (o : Outcome (Store T)) (x : T)
      → ◌≡◌ {A = Outcome (Store T)}
          ((o >>= λ s. Outcome.done (x, s)) >>= λ (p : T × Store T). Outcome.done p.1)
          o
  forget (Outcome.done s) x = refl
  forget Outcome.refused x = refl
  forget Outcome.fault x = refl

  take-Sound : (s : Store T) (i : ℕ) → IsCounted s → Sound (perform (Command.take_at i) s)
  unfolding take handle load
  take-Sound s i c = elim (Option-cases (get_elem? s.handles i)) [
    | inl h ↦ rw h tt
    | inr (none, h) ↦ rw h tt
    | inr (some a, h) ↦
        let (block, b) = held s c i a h in
        elim (Option-cases (block.value)) [
          | inl v ↦ rw (h, b) (rw v tt)
          | inr (x, v) ↦ rw (h, b) (rw v (rw (forget (destroy i s) x) (destroy-Sound s i c)))
        ]
  ]

  perform-Sound : (command : Command T) (s : Store T) → IsCounted s → Sound (perform command s)
  perform-Sound Command.make s c = make_unconstructed-Sound s c
  perform-Sound (Command.make_value v) s c = make_constructed-Sound s v c
  perform-Sound (Command.copy_from j) s c = copy_construct-Sound s j c
  perform-Sound (Command.move_from j) s c = move_construct-Sound s j c
  perform-Sound (Command.reset_at i) s c = reset-Sound s i c
  perform-Sound (Command.destroy_at i) s c = destroy-Sound s i c
  perform-Sound (Command.take_at i) s c = take-Sound s i c
  perform-Sound (Command.assign_copy i j) s c = copy_assign-Sound s i j c
  perform-Sound (Command.assign_move i j) s c = move_assign-Sound s i j c
  perform-Sound (Command.emplace_at i v) s c = emplace-Sound s i v c

  Sound-bind :
      (o : Outcome (Store T)) (f : Store T → Outcome (Store T))
      → Sound o
      → ((s : Store T) → IsCounted s → Sound (f s))
      → Sound (o >>= f)
  Sound-bind (Outcome.done s) f d g = g s d
  Sound-bind Outcome.refused f d g = tt
  Sound-bind Outcome.fault f d g = d

  run_all-Sound :
      (commands : List (Command T)) (s : Store T) → IsCounted s → Sound (run_all commands s)
  run_all-Sound [] s c = c
  run_all-Sound (command ∷ commands) s c =
      Sound-bind (perform command s) (run_all commands) (perform-Sound command s c)
        (run_all-Sound commands)

  -- Whatever program uses handles, from no block and no handle on: it never touches memory that is
  -- freed and never makes a value over a living one; and when no call is refused, the count of every
  -- block is the number of handles to it, which is not 0, and no other block is left.
  pub history-Sound : (commands : List (Command T)) → Sound (run_all commands nothing)
  history-Sound commands = run_all-Sound commands nothing nothing-IsCounted
