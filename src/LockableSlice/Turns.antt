-- ===== src/LockableSlice/Turns.antt =====
-- sdk/lockable_slice.go: the lock, the position, and the turns that `_Advance` takes.
use hiero_sdk_go.Base.{
  bind, get_elem?-ge, ℕ, zero, suc, ◌+◌, ◌%◌, ◌≤◌, ◌<◌, ◌≡◌, refl, sym, ap, ◌∙◌, true, false,
  Option, none, List, arith, ◌==◌, length,
}
use hiero_sdk_go.LockableSlice.{
  LockableSlice, set_slice, push, clear, get, set_item, set_if_absent, advance, get_current,
}
use native.Mathlib.Nat.{mod-add-mod, mod-eq_of_lt}

module _ {A : Type 0} (ls : LockableSlice A) where
  -- A locked slice refuses every change of its items.
  pub locked_refuses :
      (items : List (Option A)) (index : ℕ) (item : Option A)
      → ls.locked ≡ true
      → (set_slice ls items ≡ none)
        × (push ls items ≡ none)
        × (clear ls ≡ none)
        × (set_item ls index item ≡ none)
        × (set_if_absent ls index item ≡ none)
  unfolding set_slice push clear set_item set_if_absent
  locked_refuses items index item h = rw h (refl, refl, refl, refl, refl)

mod_lt : (n k : ℕ) → 0 < n → k % n < n
mod_lt n k h = omega arith

not_empty : (n : ℕ) → 0 < n → (n == 0) ≡ false
not_empty n h = ground arith

advance_lem :
    {A : Type 0} (ls : LockableSlice A)
    → ls.index < length ls.slice
    → (advance ls).0 ≡ record ls { index = (ls.index + 1) % length ls.slice }
unfolding advance
advance_lem ls h = rw (not_empty (length ls.slice) (omega arith)) refl

mod_self : (i n : ℕ) → i < n → i ≡ (i + 0) % n
mod_self i n h = sym (mod-eq_of_lt (omega arith) ∙ omega arith)

mod_step : (i k n : ℕ) → ((i + 1) % n + k) % n ≡ (i + suc k) % n
mod_step i k n = mod-add-mod (i + 1) n k ∙ ap (λ m. m % n) (omega arith)

-- `k` turns.
unfoldable pub turns : {A : Type 0} → ℕ → LockableSlice A → LockableSlice A
turns zero ls = ls
turns (suc k) ls = turns k (advance ls).0

-- After any number of turns of a slice whose position is that of an item, the position is the sum
-- modulo the count of items; items and lock are unchanged.
pub turns_lem :
    {A : Type 0} (k : ℕ) (ls : LockableSlice A)
    → ls.index < length ls.slice
    → turns k ls ≡ record ls { index = (ls.index + k) % length ls.slice }
unfolding turns
turns_lem zero ls h = ap (λ i. record ls { index = i }) (mod_self ls.index (length ls.slice) h)
turns_lem (suc k) ls h = rw (advance_lem ls h) (
    turns_lem k (record ls { index = (ls.index + 1) % length ls.slice })
      (mod_lt (length ls.slice) (ls.index + 1) (omega arith))
    ∙ ap (λ i. record ls { index = i }) (mod_step ls.index k (length ls.slice)))

-- Clearing a slice keeps its position: after it, pushing no more items than the position leaves the
-- current item out of range, which is a panic.
pub get_current-push-clear :
    {A : Type 0} (ls : LockableSlice A) (items : List (Option A))
    → ls.locked ≡ false
    → length items ≤ ls.index
    → bind (bind (clear ls) (λ cleared. push cleared items)) get_current ≡ none
unfolding clear push get_current get
get_current-push-clear ls items e h = rw e (get_elem?-ge items ls.index h)
