-- ===== src/Network/Failover.antt =====
-- sdk/network.go: a node that failed leaves the healthy nodes, and is not chosen while it backs off.
use hiero_sdk_go.Base.{
  ℕ, zero, suc, ◌≡◌, ◌≢◌, ap, ◌∙◌, ◌⊎◌, inl, inr, true, false, some, List, [], ◌∷◌, arith, ◌==◌,
  if◌then◌else◌, Bool-cases, Option-cases, length, get_elem?,
}
use hiero_sdk_go.Base.Int.{ℤ, ltb_ℤ, ◌+ℤ◌, +ℤ_parts}
use hiero_sdk_go.Node.{Node, increase_backoff}
use hiero_sdk_go.Node.Backoff.{IsBounded, current-bounds}
use hiero_sdk_go.Network.{
  Network, contains, readmit_time, remove_first, network_increase_backoff, get_node, readmit_nodes,
}
use hiero_sdk_go.Network.Readmit.{
  HealthyOrWaits, HasTime, AllDifferent, IsSound, has_come, All-mono, All-mem, All-of_contains,
  ReadmitOutcome, readmit_nodes-IsSound,
}

contains-remove_first :
    (r q : ℕ) (rs : List ℕ)
    → AllDifferent rs
    → contains (remove_first r rs) q ≡ (if q == r then false else contains rs q)
unfolding contains remove_first
contains-remove_first r q [] d = ground arith
contains-remove_first r q (p ∷ rs) (d, ds) = ground (arith, contains-remove_first r q rs ds, d)

AllDifferent-remove_first :
    (r : ℕ) (rs : List ℕ) → AllDifferent rs → AllDifferent (remove_first r rs)
unfolding remove_first contains
AllDifferent-remove_first r [] d = tt
AllDifferent-remove_first r (p ∷ rs) (d, ds) =
    ground (arith, AllDifferent-remove_first r rs ds, contains-remove_first r p rs ds, d, ds)

readmit_time_failed :
    (mn : Network) (q r : ℕ) (now : ℤ)
    → (q == r) ≡ true
    → readmit_time (network_increase_backoff mn r now).store q
      ≡ some (now +ℤ (increase_backoff (mn.store r).managed now).current_backoff)
unfolding network_increase_backoff increase_backoff
readmit_time_failed mn q r now e =
    ap
      (λ b.
        (if b
          then record (mn.store r) { managed = increase_backoff (mn.store r).managed now }
          else mn.store q).managed.readmit_time)
      e

readmit_time_other :
    (mn : Network) (q r : ℕ) (now : ℤ)
    → (q == r) ≡ false
    → readmit_time (network_increase_backoff mn r now).store q ≡ readmit_time mn.store q
unfolding network_increase_backoff
readmit_time_other mn q r now e =
    ap
      (λ b.
        (if b
          then record (mn.store r) { managed = increase_backoff (mn.store r).managed now }
          else mn.store q).managed.readmit_time)
      e

-- A failure keeps the network sound.
pub network_increase_backoff-IsSound :
    (mn : Network) (r : ℕ) (now : ℤ) → IsSound mn → IsSound (network_increase_backoff mn r now)
unfolding network_increase_backoff
network_increase_backoff-IsSound mn r now h = record {
  waits = All-mono mn.nodes kept h.waits;
  different = AllDifferent-remove_first r mn.healthy_nodes h.different;
  known = All-of_contains _ (λ q. contains mn.nodes q ≡ true) known;
}
  where
    after : ℕ → Node
    after = (network_increase_backoff mn r now).store

    still :
        (q : ℕ)
        → (q == r) ≡ false
        → HealthyOrWaits mn.store mn.healthy_nodes q
        → (contains (remove_first r mn.healthy_nodes) q ≡ true) ⊎ HasTime (readmit_time after q)
    still q e (inl k) = inl (contains-remove_first r q mn.healthy_nodes h.different ∙ rw e k)
    still q e (inr k) = inr (rw (readmit_time_other mn q r now e, HasTime) k)

    kept :
        (q : ℕ)
        → HealthyOrWaits mn.store mn.healthy_nodes q
        → HealthyOrWaits after (remove_first r mn.healthy_nodes) q
    kept q k = elim (Bool-cases (q == r)) [
      | inl e ↦ inr (rw (readmit_time_failed mn q r now e, HasTime) tt)
      | inr e ↦ still q e k
    ]

    known :
        (q : ℕ) → contains (remove_first r mn.healthy_nodes) q ≡ true → contains mn.nodes q ≡ true
    known q k =
        All-mem mn.healthy_nodes (λ p. contains mn.nodes p ≡ true) q h.known
          (ground (arith, contains-remove_first r q mn.healthy_nodes h.different))

get_elem?-contains : (rs : List ℕ) (i : ℕ) {q : ℕ} → get_elem? rs i ≡ some q → contains rs q ≡ true
unfolding contains
get_elem?-contains [] i e = cc
get_elem?-contains (r ∷ rs) zero e = ground arith
get_elem?-contains (r ∷ rs) (suc i) e = ground (arith, get_elem?-contains rs i e)

-- What `_GetNode` returns is a healthy node of the network that readmission leaves.
get_node-contains :
    (mn after mn' : Network) (now : ℤ) (pick : ℕ → ℕ) (q : ℕ)
    → readmit_nodes mn now ≡ some after
    → get_node mn now pick ≡ some (mn', q)
    → contains after.healthy_nodes q ≡ true
unfolding get_node
get_node-contains mn after mn' now pick q e g =
    elim (Option-cases (get_elem? after.healthy_nodes (pick (length after.healthy_nodes)))) [
      | inl n ↦ cc (rw (e, n) at g)
      | inr (p, n) ↦
          let same : p ≡ q = cc (rw (e, n) at g) in
          get_elem?-contains after.healthy_nodes _ (n ∙ ap some same)
    ]

not_due :
    (mn : Network) (r : ℕ) (now t : ℤ)
    → IsBounded (mn.store r).managed
    → ltb_ℤ t (now +ℤ (mn.store r).managed.min_backoff) ≡ true
    → has_come t (readmit_time (network_increase_backoff mn r now).store r) ≡ false
not_due mn r now t b e =
    let (lo, hi) = current-bounds (mn.store r).managed now b in
    let later = +ℤ_parts now (mn.store r).managed.min_backoff in
    let next = (increase_backoff (mn.store r).managed now).current_backoff in
    rw (readmit_time_failed mn r r now (ground arith), has_come)
      (ground (arith, lo, later, +ℤ_parts now next))

contains_failed :
    (mn : Network) (r : ℕ) (now : ℤ)
    → IsSound mn
    → contains (network_increase_backoff mn r now).healthy_nodes r ≡ false
unfolding network_increase_backoff
contains_failed mn r now h = ground (arith, contains-remove_first r r mn.healthy_nodes h.different)

-- A node that failed at `now`, in a sound network and with a bounded backoff, is not chosen at any
-- time before its minimal backoff is over, whatever random index is drawn.
pub get_node-ne_failed :
    (mn mn' : Network) (r q : ℕ) (now t : ℤ) (pick : ℕ → ℕ)
    → IsSound mn
    → IsBounded (mn.store r).managed
    → ltb_ℤ t (now +ℤ (mn.store r).managed.min_backoff) ≡ true
    → get_node (network_increase_backoff mn r now) t pick ≡ some (mn', q)
    → q ≢ r
get_node-ne_failed mn mn' r q now t pick h b soon g same = cc (member, absent)
  where
    failed : Network
    failed = network_increase_backoff mn r now

    o : ReadmitOutcome failed t
    o = readmit_nodes-IsSound failed t (network_increase_backoff-IsSound mn r now h)

    member : contains o.after.healthy_nodes r ≡ true
    member = rw same at (get_node-contains failed o.after mn' t pick q o.returns g)

    removed : contains failed.healthy_nodes r ≡ false
    removed = contains_failed mn r now h

    absent : contains o.after.healthy_nodes r ≡ false
    absent = o.healthy r ∙ rw (removed, not_due mn r now t b soon) (ground arith)
