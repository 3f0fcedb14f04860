-- ===== src/Execute/Network.antt =====
-- sdk/executable.go: an execution keeps the network sound.
use hiero_sdk_go.Base.{
  ℕ, ◌≡◌, refl, sym, ap, ◌∙◌, inl, inr, Option, none, some, ◌==◌, if◌then◌else◌, ==_iff, Bool-cases,
  length, get_elem?, bind,
}
use hiero_sdk_go.Base.Int.{ℤ}
use hiero_sdk_go.Node.{ManagedNode, in_use, decrease_backoff}
use hiero_sdk_go.Network.{Network, readmit_time, get_node}
use hiero_sdk_go.Network.Readmit.{
  HealthyOrWaits, HasTime, IsSound, All-mono, ReadmitOutcome, readmit_nodes-IsSound,
}
use hiero_sdk_go.Network.Failover.{network_increase_backoff-IsSound}
use hiero_sdk_go.Execute.{Executable}
use hiero_sdk_go.Execute.Loop.{Attempt, Client, Run, with_managed, execute_attempts}
use hiero_sdk_go.Execute.Changes.{IsKept, attempt_kept, attempts_kept}

readmit_time_managed :
    (mn : Network) (r q : ℕ) (m : ManagedNode)
    → m.readmit_time ≡ readmit_time mn.store r
    → readmit_time (with_managed mn r m).store q ≡ readmit_time mn.store q
readmit_time_managed mn r q m same = elim (Bool-cases (q == r)) [
  | inl e ↦
      ap (λ b. (if b then record (mn.store r) { managed = m } else mn.store q).managed.readmit_time)
        e
      ∙ same
      ∙ ap (readmit_time mn.store) (sym ((==_iff q r).0 e))
  | inr e ↦
      ap (λ b. (if b then record (mn.store r) { managed = m } else mn.store q).managed.readmit_time)
        e
]

with_managed-IsSound :
    (mn : Network) (r : ℕ) (m : ManagedNode)
    → m.readmit_time ≡ readmit_time mn.store r
    → IsSound mn
    → IsSound (with_managed mn r m)
with_managed-IsSound mn r m same h = record {
  waits = All-mono mn.nodes kept h.waits;
  different = h.different;
  known = h.known;
}
  where
    kept :
        (q : ℕ)
        → HealthyOrWaits mn.store mn.healthy_nodes q
        → HealthyOrWaits (with_managed mn r m).store mn.healthy_nodes q
    kept q (inl k) = inl k
    kept q (inr k) = inr (rw (readmit_time_managed mn r q m same, HasTime) k)

get_node-IsSound :
    (mn mn' : Network) (now : ℤ) (pick : ℕ → ℕ) (r : ℕ)
    → IsSound mn
    → get_node mn now pick ≡ some (mn', r)
    → IsSound mn'
unfolding get_node
get_node-IsSound mn mn' now pick r h e =
    chosen (get_elem? o.after.healthy_nodes (pick (length o.after.healthy_nodes)))
      (rw o.returns at e)
  where
    o : ReadmitOutcome mn now
    o = readmit_nodes-IsSound mn now h

    chosen :
        (q : Option ℕ)
        → bind {B = Network × ℕ} q (λ p. some (o.after, p)) ≡ some (mn', r)
        → IsSound mn'
    chosen none k = cc
    chosen (some q) k = let same : mn' ≡ o.after = cc in rw same o.sound

abbrev Sound : Run → Type 0
Sound run = IsSound run.network

Sound-IsKept : {R : Type 0} → IsKept R Sound
unfolding in_use decrease_backoff
Sound-IsKept = record {
  advance = λ run h. h;
  delay = λ run h. h;
  fail = λ run h f. h;
  use_a = λ run h a r. with_managed-IsSound run.network r _ refl h;
  punished = λ run h a r. network_increase_backoff-IsSound run.network r a.failed_at h;
  rewarded = λ run h r. with_managed-IsSound run.network r _ refl h;
  called = λ run h r. h;
  picked = λ run h a mn r e. get_node-IsSound run.network mn a.picked_at a.pick r h e;
  regenerate = λ run h id e b k. h;
  map_to = λ run h hash node request response e reply k. h;
  defers = λ run h. h;
}

-- The attempts of an execution, whatever they meet, leave a sound network sound: at the return, before
-- the updates of the address book that were deferred to it, every node is healthy or waits for a time,
-- and no healthy node is listed twice.
pub execute_attempts-IsSound :
    {R : Type 0} (client : Client) (world : ℕ → Attempt R) (e : Executable) (mn : Network)
    → IsSound mn
    → IsSound (execute_attempts client world e mn).0.network
unfolding execute_attempts
execute_attempts-IsSound client world e mn h =
    attempts_kept Sound client world
      (λ k run sound. attempt_kept Sound Sound-IsKept client (world k) k run sound sound) _ 0 _ h
