-- ===== src/Async/Storage.antt =====
-- src/uni20/async/shared_storage.hpp: handles that share a control block. The blocks are a heap by
-- address, where a freed address is never given out again, and the handles are objects by number.
pub mod Counts
pub mod Handles
pub mod Values
pub mod History
mod Tests
use uni.Prelude.{
  ℕ, zero, suc, ◌+◌, ◌-◌, Bool, true, false, Option, none, some, List, [], ◌∷◌, ◌++◌, if◌then◌else◌,
  ◌==◌, get_elem?,
}
pub use uni.Prelude.Outcome.{Outcome, ◌>>=◌, or_fault, or_refused}

-- control_block: the value is there when `constructed` is set.
pub record ControlBlock (T : Type 0) : Type 0 where
  pub strong_count : ℕ
  pub value : Option T

abbrev pub Blocks : Type 0 → Type 0
Blocks T = ℕ → Option (ControlBlock T)

unfoldable pub write {ℓ} : {A : Type ℓ} → (ℕ → Option A) → ℕ → Option A → ℕ → Option A
write heap address new i = if i == address then new else heap i

abbrev pub set_slot {ℓ} : {A : Type ℓ} → ℕ → A → List A → List A
set_slot i a [] = []
set_slot zero a (b ∷ bs) = a ∷ bs
set_slot (suc i) a (b ∷ bs) = b ∷ set_slot i a bs

pub record Store (T : Type 0) : Type 0 where
  pub blocks : Blocks T
  pub next : ℕ
  pub handles : List (Option ℕ)

module _ {T : Type 0} where
  unfoldable pub load : Blocks T → ℕ → Outcome (ControlBlock T)
  load blocks address = or_fault (blocks address)

  unfoldable pub add_ref : ℕ → Blocks T → Outcome (Blocks T)
  unfolding write load
  add_ref address blocks = do
    block ← load blocks address
    Outcome.done (
        write blocks address
          (some (record { strong_count = block.strong_count + 1; value = block.value })))

  -- With the last reference the value is destroyed and the block deleted.
  unfoldable pub release_ref : ℕ → Blocks T → Outcome (Blocks T)
  unfolding write load
  release_ref address blocks = do
    block ← load blocks address
    if block.strong_count == 1
        then Outcome.done (write blocks address none)
        else Outcome.done (
            write blocks address
              (some (record { strong_count = block.strong_count - 1; value = block.value })))

  unfoldable pub destroy_object : ℕ → Blocks T → Outcome (Blocks T)
  unfolding write load
  destroy_object address blocks = do
    block ← load blocks address
    Outcome.done
        (write blocks address (some (record { strong_count = block.strong_count; value = none })))

  unfoldable pub construct : ℕ → T → Blocks T → Outcome (Blocks T)
  unfolding write load
  construct address new blocks = do
    block ← load blocks address
    elim (block.value) [
      | some _ ↦ Outcome.fault
      | none ↦ Outcome.done (
          write blocks address
            (some (record { strong_count = block.strong_count; value = some new })))
    ]

  -- The block of a handle, which is a null pointer in an empty one.
  unfoldable pub handle : ℕ → Store T → Outcome (Option ℕ)
  handle i s = or_refused (get_elem? s.handles i)

  -- `if (ctrl_) ctrl_->add_ref();`
  abbrev pub add_ref_of : Option ℕ → Blocks T → Outcome (Blocks T)
  add_ref_of none blocks = Outcome.done blocks
  add_ref_of (some address) blocks = add_ref address blocks

  abbrev pub release_ref_of : Option ℕ → Blocks T → Outcome (Blocks T)
  release_ref_of none blocks = Outcome.done blocks
  release_ref_of (some address) blocks = release_ref address blocks

  unfoldable pub make_unconstructed_shared_storage : Store T → Outcome (Store T)
  unfolding write
  make_unconstructed_shared_storage s = Outcome.done (record {
    blocks = write s.blocks s.next (some (record { strong_count = 1; value = none }));
    next = s.next + 1;
    handles = s.handles ++ some s.next ∷ [];
  })

  unfoldable pub make_constructed : T → Store T → Outcome (Store T)
  unfolding write construct
  make_constructed new s = do
    blocks ←
        construct s.next new
          (write s.blocks s.next (some (record { strong_count = 1; value = none })))
    Outcome.done
        (record { blocks = blocks; next = s.next + 1; handles = s.handles ++ some s.next ∷ [] })

  unfoldable pub copy_construct : ℕ → Store T → Outcome (Store T)
  unfolding handle add_ref
  copy_construct other s = do
    ctrl ← handle other s
    blocks ← add_ref_of ctrl s.blocks
    Outcome.done (record { blocks = blocks; next = s.next; handles = s.handles ++ ctrl ∷ [] })

  unfoldable pub move_construct : ℕ → Store T → Outcome (Store T)
  unfolding handle
  move_construct other s = do
    ctrl ← handle other s
    Outcome.done (record {
      blocks = s.blocks;
      next = s.next;
      handles = set_slot other none s.handles ++ ctrl ∷ [];
    })

  -- Also what the destructor does.
  unfoldable pub reset : ℕ → Store T → Outcome (Store T)
  unfolding handle release_ref
  reset this s = do
    ctrl ← handle this s
    blocks ← release_ref_of ctrl s.blocks
    Outcome.done (record { blocks = blocks; next = s.next; handles = set_slot this none s.handles })

  unfoldable pub copy_assign : ℕ → ℕ → Store T → Outcome (Store T)
  unfolding handle add_ref reset
  copy_assign this other s =
      let assigned = (do
        s' ← reset this s
        ctrl ← handle other s'
        blocks ← add_ref_of ctrl s'.blocks
        Outcome.done (record {
          blocks = blocks;
          next = s'.next;
          handles = set_slot this ctrl s'.handles;
        })) in
      if this == other then Outcome.done s else assigned

  unfoldable pub move_assign : ℕ → ℕ → Store T → Outcome (Store T)
  unfolding handle reset
  move_assign this other s =
      let assigned = (do
        s' ← reset this s
        ctrl ← handle other s'
        Outcome.done (record {
          blocks = s'.blocks;
          next = s'.next;
          handles = set_slot this ctrl (set_slot other none s'.handles);
        })) in
      if this == other then Outcome.done s else assigned

  abbrev pub is_constructed : ControlBlock T → Bool
  is_constructed block = elim (block.value) [ none ↦ false | some _ ↦ true ]

  unfoldable pub constructed : ℕ → Store T → Outcome Bool
  unfolding handle load
  constructed this s = do
    ctrl ← handle this s
    elim ctrl [
      | none ↦ Outcome.done false
      | some address ↦ do block ← load s.blocks address; Outcome.done (is_constructed block)
    ]

  unfoldable pub use_count : ℕ → Store T → Outcome ℕ
  unfolding handle load
  use_count this s = do
    ctrl ← handle this s
    elim ctrl [
      | none ↦ Outcome.done 0
      | some address ↦ do block ← load s.blocks address; Outcome.done (block.strong_count)
    ]

  abbrev pub with_blocks : Store T → Blocks T → Store T
  with_blocks s blocks = record { blocks = blocks; next = s.next; handles = s.handles }

  -- destroy_object tests the flag itself.
  unfoldable pub emplace : ℕ → T → Store T → Outcome (Store T)
  unfolding handle destroy_object construct
  emplace this new s = do
    ctrl ← handle this s
    elim ctrl [
      | none ↦ Outcome.refused
      | some address ↦ do
        emptied ← destroy_object address s.blocks
        blocks ← construct address new emptied
        Outcome.done (with_blocks s blocks)
    ]

  unfoldable pub destroy : ℕ → Store T → Outcome (Store T)
  unfolding handle destroy_object
  destroy this s = do
    ctrl ← handle this s
    elim ctrl [
      | none ↦ Outcome.done s
      | some address ↦ do
        blocks ← destroy_object address s.blocks
        Outcome.done (with_blocks s blocks)
    ]

  -- `*this` is refused without a value.
  unfoldable pub take : ℕ → Store T → Outcome (T × Store T)
  unfolding handle load destroy
  take this s = do
    ctrl ← handle this s
    elim ctrl [
      | none ↦ Outcome.refused
      | some address ↦ do
        block ← load s.blocks address
        x ← or_refused block.value
        s' ← destroy this s
        Outcome.done (x, s')
    ]
