-- ===== src/Node/Backoff.antt =====
-- sdk/managed_node.go: the backoff of a node, and when the node counts as healthy.
use native.Mathlib.Nat.{pow-suc}
use hiero_sdk_go.Base.{
  ℕ, zero, suc, ◌+◌, ◌*◌, ◌^◌, ◌≤◌, ◌<◌, ◌≡◌, refl, ap, ◌∙◌, min, true, false, arith, ltb, inl, inr,
  Bool-cases, List, [], ◌∷◌, length,
}
use hiero_sdk_go.Base.Int.{ℤ, pos, negsuc, pos_part, neg_part, ◌+ℤ◌, ◌≤ℤ◌, ltb_ℤ, +ℤ_parts}
use hiero_sdk_go.Base.Int64.{wrap, double, half_parts, ◌+₆₄◌}
use hiero_sdk_go.Node.{
  ManagedNode, Node, set_min_backoff, is_healthy, next_backoff, increase_backoff, decrease_backoff,
  to_secure, eq_ℤ,
}

-- The backoff lies between its bounds, and doubling it does not wrap.
pub record IsBounded (n : ManagedNode) : Type 0 where
  pub min_nonneg : neg_part n.min_backoff ≡ 0
  pub above_min : n.min_backoff ≤ℤ n.current_backoff
  pub below_max : n.current_backoff ≤ℤ n.max_backoff
  pub max_small : pos_part n.max_backoff < 2 ^ 62

nonneg : (a b : ℤ) → neg_part a ≡ 0 → a ≤ℤ b → neg_part b ≡ 0
nonneg a (pos n) h k = refl
nonneg (pos m) (negsuc n) h k = omega arith
nonneg (negsuc m) (negsuc n) h k = omega arith

double_parts :
    (z : ℤ)
    → neg_part z ≡ 0
    → pos_part z < 2 ^ 62
    → (pos_part (double z) ≡ 2 * pos_part z) × (neg_part (double z) ≡ 0)
unfolding double ◌+₆₄◌ ◌+ℤ◌ wrap
double_parts (pos c) h k = ground arith
double_parts (negsuc c) h k = absurd (omega arith)

-- A failure keeps the bounds.
pub increase_backoff-IsBounded :
    (n : ManagedNode) (now : ℤ) → IsBounded n → IsBounded (increase_backoff n now)
unfolding increase_backoff next_backoff
increase_backoff-IsBounded n now h =
    let nn = nonneg _ n.current_backoff h.min_nonneg h.above_min in
    ground (
      arith,
      double_parts n.current_backoff nn (omega (arith, h, nonneg _ n.max_backoff nn h.below_max)),
      nonneg _ n.max_backoff nn h.below_max,
      h,
    )

-- A success keeps them too.
pub decrease_backoff-IsBounded : (n : ManagedNode) → IsBounded n → IsBounded (decrease_backoff n)
unfolding decrease_backoff
decrease_backoff-IsBounded n h = ground (arith, half_parts n.current_backoff, h)

next_backoff_pos :
    (c m : ℕ) → c ≤ m → m < 2 ^ 62 → next_backoff (pos c) (pos m) ≡ pos (min (2 * c) m)
unfolding next_backoff double ◌+₆₄◌ ◌+ℤ◌ wrap
next_backoff_pos c m h k = ground arith

-- A failure at each of the times, in this order.
unfoldable pub fail_at : ManagedNode → List ℤ → ManagedNode
fail_at n [] = n
fail_at n (now ∷ times) = fail_at (increase_backoff n now) times

pow_pos : (k : ℕ) → 1 ≤ 2 ^ k
pow_pos zero = omega arith
pow_pos (suc k) = omega (arith, pow-suc 2 k, pow_pos k)

le-scaled : (p a : ℕ) → 1 ≤ p → a ≤ p * a
le-scaled p a h = grind arith

min_scaled : (p c m : ℕ) → 1 ≤ p → min (p * min (2 * c) m) m ≡ min (p * 2 * c) m
min_scaled p c m h = elim (Bool-cases (ltb m (2 * c))) [
  | inl e ↦
      let all : min (2 * c) m ≡ m = ground arith in
      rw all (ground (arith, le-scaled p m h, le-scaled p (2 * c) h))
  | inr e ↦ let all : min (2 * c) m ≡ 2 * c = ground arith in rw all (omega arith)
]

min_double : (k c m : ℕ) → min (2 ^ k * min (2 * c) m) m ≡ min (2 ^ suc k * c) m
min_double k c m = rw (pow-suc 2 k) (min_scaled (2 ^ k) c m (pow_pos k))

step :
    (n : ManagedNode) (c m : ℕ) (now : ℤ)
    → n.current_backoff ≡ pos c
    → n.max_backoff ≡ pos m
    → c ≤ m
    → m < 2 ^ 62
    → (increase_backoff n now).current_backoff ≡ pos (min (2 * c) m)
unfolding increase_backoff
step n c m now e e' h k = rw (e, e') (next_backoff_pos c m h k)

counted : (b k : ℕ) → b + suc k < 2 ^ 63 → pos b +₆₄ pos 1 ≡ pos (b + 1)
unfolding ◌+₆₄◌ ◌+ℤ◌ wrap
counted b k h = ground arith

-- Where the backoff is not negative, at most the maximum, and the maximum below 2^62, and the count of
-- failures stays below 2^63: after failures at any times the backoff has doubled with each of them, up
-- to the maximum, and the failures are counted.
pub fail_at-doubles :
    (times : List ℤ) (n : ManagedNode) (c m b : ℕ)
    → n.current_backoff ≡ pos c
    → n.max_backoff ≡ pos m
    → c ≤ m
    → m < 2 ^ 62
    → n.bad_grpc_status_count ≡ pos b
    → b + length times < 2 ^ 63
    → ((fail_at n times).current_backoff ≡ pos (min (2 ^ length times * c) m))
      × ((fail_at n times).bad_grpc_status_count ≡ pos (b + length times))
unfolding fail_at increase_backoff
fail_at-doubles [] n c m b e e' h k l small = (e ∙ ap pos (ground arith), l ∙ ap pos (omega arith))
fail_at-doubles (now ∷ times) n c m b e e' h k l small =
    let one_more : (increase_backoff n now).bad_grpc_status_count ≡ pos (b + 1) =
      ap (λ i. i +₆₄ pos 1) l ∙ counted b (length times) small in
    let (backoff, count) =
      fail_at-doubles times (increase_backoff n now) (min (2 * c) m) m (b + 1)
        (step n c m now e e' h k) e' (omega arith) k one_more (omega arith) in
    (backoff ∙ ap pos (min_double (length times) c m), count ∙ ap pos (omega arith))

pub current-bounds :
    (n : ManagedNode) (now : ℤ)
    → IsBounded n
    → (n.min_backoff ≤ℤ (increase_backoff n now).current_backoff)
      × ((increase_backoff n now).current_backoff ≤ℤ n.max_backoff)
unfolding increase_backoff
current-bounds n now h =
    let kept = increase_backoff-IsBounded n now h in
    (omega (arith, kept.above_min), omega (arith, kept.below_max))

-- A node that failed at `now` counts as unhealthy at every time up to its minimal backoff after
-- that, and as healthy at every time later than its maximal one.
increase_backoff-is_healthy :
    (n : ManagedNode) (now early late : ℤ)
    → IsBounded n
    → early ≤ℤ now +ℤ n.min_backoff
    → ltb_ℤ (now +ℤ n.max_backoff) late ≡ true
    → (is_healthy (increase_backoff n now) early ≡ false)
      × (is_healthy (increase_backoff n now) late ≡ true)
increase_backoff-is_healthy n now early late h soon after =
    let (lo, hi) = current-bounds n now h in
    unfold is_healthy increase_backoff in
    (
      ground (
        arith,
        lo,
        +ℤ_parts now n.min_backoff,
        +ℤ_parts now (next_backoff n.current_backoff n.max_backoff),
      ),
      ground (
        arith,
        hi,
        +ℤ_parts now n.max_backoff,
        +ℤ_parts now (next_backoff n.current_backoff n.max_backoff),
      ),
    )

-- Raising the minimum above the backoff of a node leaves the node below its minimum: the branch
-- for a backoff at the old minimum changes nothing.
set_min_backoff_below :
    (n : ManagedNode) (b : ℤ)
    → n.current_backoff ≡ n.min_backoff
    → ltb_ℤ n.min_backoff b ≡ true
    → ltb_ℤ (set_min_backoff n b).current_backoff (set_min_backoff n b).min_backoff ≡ true
unfolding set_min_backoff
set_min_backoff_below n b e h = elim (Bool-cases (eq_ℤ n.current_backoff n.min_backoff)) [
  | inl same ↦ rw same h
  | inr other ↦ rw (other, e) h
]

next_backoff_0 : (c : ℕ) → suc c < 2 ^ 62 → next_backoff (pos (suc c)) (pos 0) ≡ pos 0
unfolding next_backoff double ◌+₆₄◌ ◌+ℤ◌ wrap
next_backoff_0 c h = ground arith

-- A node that `_ToSecure` made, whose backoff is from 1 to below 2^62 nanoseconds, has lost its maximal
-- backoff: its next failure sets a backoff of 0, and the node counts as healthy at every later time.
pub to_secure-increase_backoff :
    (n : Node) (c : ℕ) (now t : ℤ)
    → n.managed.current_backoff ≡ pos (suc c)
    → suc c < 2 ^ 62
    → ltb_ℤ now t ≡ true
    → ((increase_backoff (to_secure n).managed now).current_backoff ≡ pos 0)
      × (is_healthy (increase_backoff (to_secure n).managed now) t ≡ true)
unfolding to_secure increase_backoff is_healthy
to_secure-increase_backoff n c now t e h later =
    let zero_backoff : next_backoff n.managed.current_backoff (pos 0) ≡ pos 0 =
      rw e (next_backoff_0 c h) in
    (zero_backoff, rw (zero_backoff) (ground (arith, +ℤ_parts now (pos 0))))
