-- ===== src/Common/StaticVector.antt =====
-- static_vector of static_vector.hpp: `size` and the slots of the buffer, each empty or holding an
-- object. The capacity is the number of slots.
pub mod Slots
pub mod Refines
pub mod Calls
pub mod History
pub mod Moves
pub mod Exchange
pub mod Swap
mod Tests
use uni.Prelude.{
  ℕ, zero, suc, ◌+◌, ◌-◌, Bool, true, false, Option, none, some, List, [], ◌∷◌, ◌++◌, length,
  if◌then◌else◌, ◌==◌, ltb, leb, get_elem?,
}
use uni.Prelude.Outcome.{Outcome, ◌>>=◌, or_fault, check_that}

pub record StaticVector (T : Type 0) : Type 0 where
  pub size : ℕ
  pub slots : List (Option T)

module _ {T : Type 0} where
  -- Placement new.
  unfoldable pub construct_at : ℕ → T → List (Option T) → Outcome (List (Option T))
  construct_at i x [] = Outcome.fault
  construct_at zero x (none ∷ slots) = Outcome.done (some x ∷ slots)
  construct_at zero x (some _ ∷ slots) = Outcome.fault
  construct_at (suc i) x (slot ∷ slots) = do
    rest ← construct_at i x slots
    Outcome.done (slot ∷ rest)

  unfoldable pub destroy_at : ℕ → List (Option T) → Outcome (List (Option T))
  destroy_at i [] = Outcome.fault
  destroy_at zero (none ∷ slots) = Outcome.fault
  destroy_at zero (some _ ∷ slots) = Outcome.done (none ∷ slots)
  destroy_at (suc i) (slot ∷ slots) = do rest ← destroy_at i slots; Outcome.done (slot ∷ rest)

  unfoldable pub object_at : ℕ → List (Option T) → Outcome T
  object_at i slots = do slot ← or_fault (get_elem? slots i); or_fault slot

  -- The loops over the slots from `i` on.
  unfoldable pub construct_each : ℕ → List T → List (Option T) → Outcome (List (Option T))
  construct_each i [] slots = Outcome.done slots
  construct_each i (x ∷ xs) slots = do
    slots' ← construct_at i x slots
    construct_each (i + 1) xs slots'

  unfoldable pub construct_copies : ℕ → ℕ → T → List (Option T) → Outcome (List (Option T))
  construct_copies i zero x slots = Outcome.done slots
  construct_copies i (suc k) x slots = do
    slots' ← construct_at i x slots
    construct_copies (i + 1) k x slots'

  unfoldable pub destroy_each : ℕ → ℕ → List (Option T) → Outcome (List (Option T))
  destroy_each i zero slots = Outcome.done slots
  destroy_each i (suc k) slots = do slots' ← destroy_at i slots; destroy_each (i + 1) k slots'

  -- The loop of the copies from another vector.
  unfoldable pub copy_each : ℕ → ℕ → List (Option T) → List (Option T) → Outcome (List (Option T))
  copy_each i zero from slots = Outcome.done slots
  copy_each i (suc k) from slots = do
    x ← object_at i from
    slots' ← construct_at i x slots
    copy_each (i + 1) k from slots'

  -- The loop of the moves: an object that is moved is destroyed at once.
  unfoldable pub move_each :
      ℕ → ℕ → List (Option T) → List (Option T) → Outcome (List (Option T) × List (Option T))
  move_each i zero from slots = Outcome.done (from, slots)
  move_each i (suc k) from slots = do
    x ← object_at i from
    slots' ← construct_at i x slots
    from' ← destroy_at i from
    move_each (i + 1) k from' slots'

  unfoldable pub assign_at : ℕ → T → List (Option T) → Outcome (List (Option T))
  assign_at i x [] = Outcome.fault
  assign_at zero x (none ∷ slots) = Outcome.fault
  assign_at zero x (some _ ∷ slots) = Outcome.done (some x ∷ slots)
  assign_at (suc i) x (slot ∷ slots) = do rest ← assign_at i x slots; Outcome.done (slot ∷ rest)

  -- The first loop of swap.
  unfoldable pub swap_each :
      ℕ → ℕ → List (Option T) → List (Option T) → Outcome (List (Option T) × List (Option T))
  swap_each i zero these those = Outcome.done (these, those)
  swap_each i (suc k) these those = do
    x ← object_at i these
    y ← object_at i those
    these' ← assign_at i y these
    those' ← assign_at i x those
    swap_each (i + 1) k these' those'

  abbrev pub empty_slots : ℕ → List (Option T)
  empty_slots zero = []
  empty_slots (suc n) = none ∷ empty_slots n

  -- `max_size` is MaxSize, and `default_value` is T().
  unfoldable pub of_copies : ℕ → ℕ → T → Outcome (StaticVector T)
  of_copies max_size count value = do
    _ ← check_that (leb count max_size)
    slots ← construct_copies 0 count value (empty_slots max_size)
    Outcome.done (record { size = count; slots = slots })

  unfoldable pub of_list : ℕ → List T → Outcome (StaticVector T)
  of_list max_size init = do
    _ ← check_that (leb (length init) max_size)
    slots ← construct_each 0 init (empty_slots max_size)
    Outcome.done (record { size = length init; slots = slots })

  unfoldable pub copy_construct : ℕ → StaticVector T → Outcome (StaticVector T)
  copy_construct max_size o = do
    slots ← copy_each 0 o.size o.slots (empty_slots max_size)
    Outcome.done (record { size = o.size; slots = slots })

  unfoldable pub clear : StaticVector T → Outcome (StaticVector T)
  clear v = do
    slots ← destroy_each 0 v.size v.slots
    Outcome.done (record { size = 0; slots = slots })

  -- From another vector, and from a list.
  unfoldable pub assign_copy : StaticVector T → StaticVector T → Outcome (StaticVector T)
  unfolding clear
  assign_copy v o = do
    v' ← clear v
    slots ← copy_each 0 o.size o.slots v'.slots
    Outcome.done (record { size = o.size; slots = slots })

  unfoldable pub assign_list : ℕ → StaticVector T → List T → Outcome (StaticVector T)
  unfolding clear
  assign_list max_size v init = do
    v' ← clear v
    _ ← check_that (leb (length init) max_size)
    slots ← construct_each 0 init v'.slots
    Outcome.done (record { size = length init; slots = slots })

  -- The new vector, or the one assigned to, and the other, which is another object.
  unfoldable pub move_construct : ℕ → StaticVector T → Outcome (StaticVector T × StaticVector T)
  unfolding move_each
  move_construct max_size o = do
    (from, slots) ← move_each 0 o.size o.slots (empty_slots max_size)
    Outcome.done (record { size = o.size; slots = slots }, record { size = 0; slots = from })

  unfoldable pub move_assign :
      StaticVector T → StaticVector T → Outcome (StaticVector T × StaticVector T)
  unfolding clear move_each
  move_assign v o = do
    v' ← clear v
    (from, slots) ← move_each 0 o.size o.slots v'.slots
    Outcome.done (record { size = o.size; slots = slots }, record { size = 0; slots = from })

  -- `at` throws, `[]`, `front` and `back` check a precondition.
  unfoldable pub at_pos : ℕ → StaticVector T → Outcome T
  at_pos pos v = do _ ← check_that (ltb pos v.size); object_at pos v.slots

  unfoldable pub back : StaticVector T → Outcome T
  back v = do _ ← check_that (ltb 0 v.size); object_at (v.size - 1) v.slots

  -- Also emplace_back.
  unfoldable pub push_back : ℕ → T → StaticVector T → Outcome (StaticVector T)
  push_back max_size x v = do
    _ ← check_that (ltb v.size max_size)
    slots ← construct_at v.size x v.slots
    Outcome.done (record { size = v.size + 1; slots = slots })

  unfoldable pub pop_back : StaticVector T → Outcome (StaticVector T)
  pop_back v = do
    _ ← check_that (ltb 0 v.size)
    slots ← destroy_at (v.size - 1) v.slots
    Outcome.done (record { size = v.size - 1; slots = slots })

  unfoldable pub resize : ℕ → T → ℕ → StaticVector T → Outcome (StaticVector T)
  resize max_size default_value count v = do
    _ ← check_that (leb count max_size)
    slots ←
        if ltb count v.size
        then destroy_each count (v.size - count) v.slots
        else construct_copies v.size (count - v.size) default_value v.slots
    Outcome.done (record { size = count; slots = slots })

  -- The second loop of swap. What is left of an object that is moved is destroyed by the resize after it.
  unfoldable pub append_each :
      ℕ → ℕ → ℕ → List (Option T) → StaticVector T → Outcome (StaticVector T)
  append_each max_size i zero from v = Outcome.done v
  append_each max_size i (suc k) from v = do
    x ← object_at i from
    v' ← push_back max_size x v
    append_each max_size (i + 1) k from v'

  -- The longer vector gives the shorter one its last elements.
  unfoldable pub give_rest :
      ℕ → T → StaticVector T → StaticVector T → Outcome (StaticVector T × StaticVector T)
  give_rest max_size default_value shorter longer = do
    grown ← append_each max_size shorter.size (longer.size - shorter.size) longer.slots shorter
    shrunk ← resize max_size default_value shorter.size longer
    Outcome.done (grown, shrunk)

  -- `other` is another object.
  unfoldable pub swap :
      ℕ → T → StaticVector T → StaticVector T → Outcome (StaticVector T × StaticVector T)
  swap max_size default_value this other = do
    (these, those) ←
        swap_each 0 (if ltb this.size other.size then this.size else other.size) this.slots
          other.slots
    let this' : StaticVector T = record { size = this.size; slots = these } in
        let other' : StaticVector T = record { size = other.size; slots = those } in
        if ltb this.size other.size
        then give_rest max_size default_value this' other'
        else if ltb other.size this.size
        then (do (o, t) ← give_rest max_size default_value other' this'; Outcome.done (t, o))
        else Outcome.done (this', other')
