-- ===== src/Base/Cursor.antt =====
-- A position in a list, by what stands from it on: `drop i bytes`.
use Prim.Native.Nat.{ℕ, zero, suc, ◌+◌}
use mathlib.Core.Path.{◌≡◌, refl}
use mathlib.Core.List.{List, [], ◌∷◌, ◌++◌}
use mathlib.Core.Option.{some}
use Prim.Native.Nat.add
use native.Mathlib.Nat.{add-suc, add_comm}
use native.Mathlib.Numerals.{add-one}
use native.Mathlib.Omega.{arith}
use hiero_sdk_go.Base.Lists.{length, get_elem?, drop, take, take-append, length-append}

module _ {ℓ} {A : Type ℓ} where
  -- `s` is what stands from position `i` to the end.
  pub record IsAt (xs : List A) (i : ℕ) (s : List A) : Type ℓ where
    pub rest : drop i xs ≡ s
    pub ends : i + length s ≡ length xs

  get_elem?-drop :
      (xs : List A) (i : ℕ) {b : A} {s : List A} → drop i xs ≡ b ∷ s → get_elem? xs i ≡ some b
  get_elem?-drop [] zero e = cc
  get_elem?-drop [] (suc i) e = cc
  get_elem?-drop (x ∷ xs) zero e = cc
  get_elem?-drop (x ∷ xs) (suc i) e = get_elem?-drop xs i e

  drop-suc : (xs : List A) (i : ℕ) {b : A} {s : List A} → drop i xs ≡ b ∷ s → drop (suc i) xs ≡ s
  drop-suc [] zero e = cc
  drop-suc [] (suc i) e = cc
  drop-suc (x ∷ []) zero e = cc
  drop-suc (x ∷ y ∷ xs) zero e = cc
  drop-suc (x ∷ xs) (suc i) e = drop-suc xs i e

  drop-skip : (xs : List A) (i : ℕ) (v s : List A) → drop i xs ≡ v ++ s → drop (length v + i) xs ≡ s
  drop-skip xs i [] s e = rw (add.zero i) e
  drop-skip xs i (a ∷ v) s e =
      rw (add.suc (length v) i, ← add-suc (length v) i) (drop-skip xs (suc i) v s (drop-suc xs i e))

  pub IsAt-head :
      {xs : List A} {i : ℕ} {b : A} {s : List A} → IsAt xs i (b ∷ s) → get_elem? xs i ≡ some b
  IsAt-head {xs} {i} p = get_elem?-drop xs i p.rest

  pub IsAt-next : {xs : List A} {i : ℕ} {b : A} {s : List A} → IsAt xs i (b ∷ s) → IsAt xs (i + 1) s
  IsAt-next {xs} {i} p = record {
    rest = rw add-one (drop-suc xs i p.rest);
    ends = omega (arith, p.ends);
  }

  pub IsAt-skip :
      {xs : List A} {i : ℕ} (v s : List A) → IsAt xs i (v ++ s) → IsAt xs (i + length v) s
  IsAt-skip {xs} {i} v s p = record {
    rest = rw (add_comm i (length v)) (drop-skip xs i v s p.rest);
    ends = omega (arith, p.ends, length-append v s);
  }

  -- What stands at a position is cut out by its length.
  pub IsAt-take :
      {xs : List A} {i : ℕ} (v s : List A) → IsAt xs i (v ++ s) → take (length v) (drop i xs) ≡ v
  IsAt-take v s p = rw (p.rest) (take-append v s)

  pub IsAt-start : (xs : List A) → IsAt xs 0 xs
  IsAt-start xs = record { rest = refl; ends = omega arith }
