-- ===== src/LockableSlice.antt =====
-- sdk/lockable_slice.go: a slice with a lock and a position, from which requests take their nodes
-- and transaction IDs in turn. `none` as a result is a panic, and as an item it is nil.
pub mod Turns
mod Tests
use hiero_sdk_go.Base.{
  ℕ, zero, suc, ◌+◌, ◌%◌, ◌<◌, Bool, true, false, ◌||◌, Option, none, some, List, [], ◌∷◌, ◌++◌,
  ltb, ◌==◌, if◌then◌else◌, length, get_elem?, set, bind,
}

pub record LockableSlice (A : Type 0) : Type 0 where
  pub slice : List (Option A)
  pub locked : Bool
  pub index : ℕ

module _ {A : Type 0} where
  unfoldable pub new_lockable_slice : LockableSlice A
  new_lockable_slice = record { slice = []; locked = false; index = 0 }

  -- `_RequireNotLocked` before a change.
  abbrev pub if_unlocked : LockableSlice A → LockableSlice A → Option (LockableSlice A)
  if_unlocked ls changed = if ls.locked then none else some changed

  unfoldable pub set_locked : LockableSlice A → Bool → LockableSlice A
  set_locked ls locked = record ls { locked = locked }

  unfoldable pub set_slice : LockableSlice A → List (Option A) → Option (LockableSlice A)
  set_slice ls slice = if_unlocked ls (record ls { slice = slice; index = 0 })

  unfoldable pub push : LockableSlice A → List (Option A) → Option (LockableSlice A)
  push ls items = if_unlocked ls (record ls { slice = ls.slice ++ items })

  unfoldable pub clear : LockableSlice A → Option (LockableSlice A)
  clear ls = if_unlocked ls (record ls { slice = [] })

  unfoldable pub get : LockableSlice A → ℕ → Option (Option A)
  get ls index = get_elem? ls.slice index

  unfoldable pub set_item : LockableSlice A → ℕ → Option A → Option (LockableSlice A)
  set_item ls index item =
      if ls.locked
      then none
      else if length ls.slice == index
      then some (record ls { slice = ls.slice ++ (item ∷ []) })
      else if ltb index (length ls.slice)
      then some (record ls { slice = set ls.slice index item })
      else none

  abbrev is_nil : Option A → Bool
  is_nil none = true
  is_nil (some a) = false

  abbrev set_if_nil : LockableSlice A → ℕ → Option A → Option (Option A) → Option (LockableSlice A)
  set_if_nil ls index item none = none
  set_if_nil ls index item (some old) = if is_nil old then set_item ls index item else some ls

  unfoldable pub set_if_absent : LockableSlice A → ℕ → Option A → Option (LockableSlice A)
  set_if_absent ls index item =
      if ls.locked
      then none
      else if length ls.slice == index
      then set_item ls index item
      else set_if_nil ls index item (get_elem? ls.slice index)

  -- The slice moved on, and the position that it had.
  unfoldable pub advance : LockableSlice A → LockableSlice A × ℕ
  advance ls = (
    if length ls.slice == 0 then ls else record ls { index = (ls.index + 1) % length ls.slice },
    ls.index,
  )

  unfoldable pub get_next : LockableSlice A → Option (LockableSlice A × Option A)
  unfolding advance get
  get_next ls = bind (get (advance ls).0 (advance ls).1) λ item. some ((advance ls).0, item)

  unfoldable pub get_current : LockableSlice A → Option (Option A)
  unfolding get
  get_current ls = get ls ls.index

  unfoldable pub is_empty : LockableSlice A → Bool
  is_empty ls = length ls.slice == 0
