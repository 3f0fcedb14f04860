-- ===== src/LockableSlice/Tests.antt =====
-- sdk/lockable_slice.go at concrete slices.
use hiero_sdk_go.Base.{ℕ, ◌≡◌, refl, true, false, none, some, [], ◌∷◌, arith, bind}
use hiero_sdk_go.LockableSlice.{LockableSlice, push, clear, get_current}
use hiero_sdk_go.LockableSlice.Turns.{get_current-push-clear}

-- Three items, at the last of them.
abbrev three : LockableSlice ℕ
three = record { slice = some 7 ∷ some 8 ∷ some 9 ∷ []; locked = false; index = 2 }

abbrev three_locked : LockableSlice ℕ
three_locked = record three { locked = true }

get_current-push-clear_example :
    bind (bind (clear three) (λ cleared. push cleared (some 4 ∷ []))) get_current ≡ none
get_current-push-clear_example = get_current-push-clear three (some 4 ∷ []) refl (omega arith)
