-- ===== src/Network/Readmit.antt =====
-- sdk/managed_network.go: readmission of nodes whose backoff is over.
use hiero_sdk_go.Base.{
  ℕ, ◌≡◌, refl, ◌∙◌, ◌⊎◌, inl, inr, Bool, true, false, not, ◌&&◌, ◌||◌, Option, none, some, List,
  [], ◌∷◌, ◌++◌, arith, ◌==◌, if◌then◌else◌, Bool-cases, All,
}
use hiero_sdk_go.Base.Int.{ℤ, ltb_ℤ, ◌+ℤ◌}
use hiero_sdk_go.Node.{Node}
use hiero_sdk_go.Network.{
  Network, contains, readmit_time, is_due, admit, readmit_loop, next_readmit_time, readmit_nodes,
  latest,
}

-- Whether a readmit time has come.
abbrev pub has_come : ℤ → Option ℤ → Bool
has_come now none = false
has_come now (some t) = not (ltb_ℤ now t)

abbrev pub HasTime : Option ℤ → Type 0
HasTime none = ⊥
HasTime (some t) = Unit {0}

-- The node is healthy or waits for a time.
abbrev pub HealthyOrWaits : (ℕ → Node) → List ℕ → ℕ → Type 0
HealthyOrWaits store healthy r = (contains healthy r ≡ true) ⊎ HasTime (readmit_time store r)

abbrev pub AllDifferent : List ℕ → Type 0
AllDifferent [] = Unit {0}
AllDifferent (r ∷ rs) = (contains rs r ≡ false) × AllDifferent rs

-- Every node is healthy or waits for a time, no healthy node is listed twice, and each is a node.
pub record IsSound (mn : Network) : Type 0 where
  pub waits : All (HealthyOrWaits mn.store mn.healthy_nodes) mn.nodes
  pub different : AllDifferent mn.healthy_nodes
  pub known : All (λ r. contains mn.nodes r ≡ true) mn.healthy_nodes

pub contains-append :
    (rs : List ℕ) (q r : ℕ) → contains (rs ++ (q ∷ [])) r ≡ (contains rs r || (r == q))
unfolding contains
contains-append [] q r = ground arith
contains-append (p ∷ rs) q r = ground (arith, contains-append rs q r)

pub All-mono {ℓ κ} :
    {P : ℕ → Type ℓ} {Q : ℕ → Type κ} (rs : List ℕ) → ((r : ℕ) → P r → Q r) → All P rs → All Q rs
All-mono [] f h = tt
All-mono (r ∷ rs) f (h, hs) = (f r h, All-mono rs f hs)

AllDifferent-append :
    (rs : List ℕ) (q : ℕ) → AllDifferent rs → contains rs q ≡ false → AllDifferent (rs ++ (q ∷ []))
unfolding contains
AllDifferent-append [] q d h = (refl, tt)
AllDifferent-append (r ∷ rs) q (d, ds) h =
    (ground (arith, contains-append rs q r), AllDifferent-append rs q ds (ground arith))

All-append {ℓ} : (P : ℕ → Type ℓ) (rs : List ℕ) (q : ℕ) → All P rs → P q → All P (rs ++ (q ∷ []))
All-append P [] q h k = (k, tt)
All-append P (r ∷ rs) q (h, hs) k = (h, All-append P rs q hs k)

-- What the loop comes to, for every list of nodes that are healthy or wait.
pub record Readmitted (store : ℕ → Node) (now : ℤ) (rs healthy : List ℕ) : Type 0 where
  pub result : List ℕ
  pub returns : readmit_loop store now rs healthy ≡ some result
  pub members :
      (r : ℕ)
      → contains result r
        ≡ (contains healthy r || (contains rs r && has_come now (readmit_time store r)))
  pub different : AllDifferent result

abbrev joined : (ℕ → Node) → ℤ → List ℕ → ℕ → List ℕ
joined store now healthy r =
    if contains healthy r
    then healthy
    else if has_come now (readmit_time store r)
    then healthy ++ (r ∷ [])
    else healthy

round_at :
    (now : ℤ) (healthy : List ℕ) (r : ℕ) (c : Bool) (o : Option ℤ)
    → (c ≡ true) ⊎ HasTime o
    → (if c then some healthy else admit healthy r (is_due now o))
      ≡ some (if c then healthy else if has_come now o then healthy ++ (r ∷ []) else healthy)
round_at now healthy r true o h = refl
round_at now healthy r false none (inl h) = cc
round_at now healthy r false none (inr h) = elim h [ ]
round_at now healthy r false (some t) h = elim (Bool-cases (ltb_ℤ now t)) [
  | inl e ↦ rw e
  | inr e ↦ rw e
]

contains-joined :
    (store : ℕ → Node) (now : ℤ) (healthy : List ℕ) (r q : ℕ)
    → contains (joined store now healthy r) q
      ≡ (contains healthy q || (q == r && has_come now (readmit_time store r)))
contains-joined store now healthy r q = elim (Bool-cases (contains healthy r)) [
  | inl e ↦ rw e (ground (arith, e))
  | inr e ↦ rw e (elim (Bool-cases (has_come now (readmit_time store r))) [
    | inl k ↦ rw k (ground (arith, contains-append healthy r q))
    | inr k ↦ rw k (ground arith)
  ])
]

AllDifferent-joined :
    (store : ℕ → Node) (now : ℤ) (healthy : List ℕ) (r : ℕ)
    → AllDifferent healthy
    → AllDifferent (joined store now healthy r)
AllDifferent-joined store now healthy r d = elim (Bool-cases (contains healthy r)) [
  | inl e ↦ rw e d
  | inr e ↦ rw e (elim (Bool-cases (has_come now (readmit_time store r))) [
    | inl k ↦ rw k (AllDifferent-append healthy r d e)
    | inr k ↦ rw k d
  ])
]

HealthyOrWaits-joined :
    (store : ℕ → Node) (now : ℤ) (healthy : List ℕ) (r q : ℕ)
    → HealthyOrWaits store healthy q
    → HealthyOrWaits store (joined store now healthy r) q
HealthyOrWaits-joined store now healthy r q (inl h) =
    inl (ground (arith, contains-joined store now healthy r q))
HealthyOrWaits-joined store now healthy r q (inr h) = inr h

merge_at :
    (c a b x y : Bool)
    → (c ≡ true → x ≡ y)
    → (a || (c && x) || (b && y)) ≡ (a || ((if c then true else b) && y))
merge_at true true b x y h = refl
merge_at true false b x y h = let e = h refl in ground arith
merge_at false a b x y h = ground arith

has_come_eq :
    (store : ℕ → Node) (now : ℤ) (q r : ℕ)
    → (q == r) ≡ true
    → has_come now (readmit_time store r) ≡ has_come now (readmit_time store q)
has_come_eq store now q r h = let e : r ≡ q = ground arith in rw e

readmit_loop_step :
    (store : ℕ → Node) (now : ℤ) (r : ℕ) (rs healthy : List ℕ)
    → HealthyOrWaits store healthy r
    → Readmitted store now rs (joined store now healthy r)
    → Readmitted store now (r ∷ rs) healthy
unfolding readmit_loop
readmit_loop_step store now r rs healthy h m = record {
  result = m.result;
  returns = rw (round_at now healthy r (contains healthy r) (readmit_time store r) h) m.returns;
  members = λ q.
      m.members q
      ∙ rw (contains-joined store now healthy r q) (
          unfold contains in
          merge_at (q == r) (contains healthy q) (contains rs q) _ _ (has_come_eq store now q r));
  different = m.different;
}

readmit_loop_lem :
    (store : ℕ → Node) (now : ℤ) (rs healthy : List ℕ)
    → All (HealthyOrWaits store healthy) rs
    → AllDifferent healthy
    → Readmitted store now rs healthy
readmit_loop_lem store now [] healthy h d = record {
  result = healthy;
  returns = unfold readmit_loop in refl;
  members = λ r. unfold contains in ground arith;
  different = d;
}
readmit_loop_lem store now (r ∷ rs) healthy (h, hs) d = readmit_loop_step store now r rs healthy h (
    readmit_loop_lem store now rs (joined store now healthy r)
      (All-mono rs (HealthyOrWaits-joined store now healthy r) hs)
      (AllDifferent-joined store now healthy r d))

pub All-mem : (rs : List ℕ) (P : ℕ → Type 0) (q : ℕ) → All P rs → contains rs q ≡ true → P q
unfolding contains
All-mem [] P q h e = cc
All-mem (r ∷ rs) P q (h, hs) e = elim (Bool-cases (q == r)) [
  | inl k ↦ let same : q ≡ r = ground arith in rw same h
  | inr k ↦ All-mem rs P q hs (rw (k, contains) at e)
]

contains-cons : (r q : ℕ) (rs : List ℕ) → contains rs q ≡ true → contains (r ∷ rs) q ≡ true
unfolding contains
contains-cons r q rs h = ground arith

contains_head : (r : ℕ) (rs : List ℕ) → contains (r ∷ rs) r ≡ true
unfolding contains
contains_head r rs = ground arith

pub All-of_contains :
    (rs : List ℕ) (P : ℕ → Type 0) → ((r : ℕ) → contains rs r ≡ true → P r) → All P rs
All-of_contains [] P f = tt
All-of_contains (r ∷ rs) P f =
    (f r (contains_head r rs), All-of_contains rs P (λ q h. f q (contains-cons r q rs h)))

-- Whether the round of readmission is due.
abbrev pub is_time : Network → ℤ → Bool
is_time mn now = not (ltb_ℤ now mn.earliest_readmit_time)

-- Readmission does not panic on a sound network, and leaves it sound.
pub record ReadmitOutcome (mn : Network) (now : ℤ) : Type 0 where
  pub after : Network
  pub returns : readmit_nodes mn now ≡ some after
  pub sound : IsSound after
  pub same_nodes : after.nodes ≡ mn.nodes
  pub same_store : after.store ≡ mn.store
  pub healthy :
      (r : ℕ)
      → contains after.healthy_nodes r ≡ (
          contains mn.healthy_nodes r
          || (is_time mn now && (contains mn.nodes r && has_come now (readmit_time mn.store r))))

not_yet :
    (mn : Network) (now : ℤ)
    → IsSound mn
    → ltb_ℤ now mn.earliest_readmit_time ≡ true
    → ReadmitOutcome mn now
not_yet mn now h e = record {
  after = mn;
  returns = unfold readmit_nodes in rw e;
  sound = h;
  same_nodes = refl;
  same_store = refl;
  healthy = λ r. rw e (ground arith);
}

due_now :
    (mn : Network) (now : ℤ)
    → IsSound mn
    → ltb_ℤ now mn.earliest_readmit_time ≡ false
    → ReadmitOutcome mn now
due_now mn now h e = record {
  after = record mn {
    earliest_readmit_time =
        latest (next_readmit_time mn.store now mn.nodes (now +ℤ mn.max_node_readmit_period))
          (now +ℤ mn.min_node_readmit_period);
    healthy_nodes = m.result;
  };
  returns = unfold readmit_nodes in rw (e, m.returns);
  sound = record {
    waits = All-mono mn.nodes kept h.waits;
    different = m.different;
    known = All-of_contains m.result (λ r. contains mn.nodes r ≡ true) node;
  };
  same_nodes = refl;
  same_store = refl;
  healthy = λ r. rw e (m.members r);
}
  where
    m : Readmitted mn.store now mn.nodes mn.healthy_nodes
    m = readmit_loop_lem mn.store now mn.nodes mn.healthy_nodes h.waits h.different

    kept : (r : ℕ) → HealthyOrWaits mn.store mn.healthy_nodes r → HealthyOrWaits mn.store m.result r
    kept r (inl k) = inl (ground (arith, m.members r))
    kept r (inr k) = inr k

    node : (r : ℕ) → contains m.result r ≡ true → contains mn.nodes r ≡ true
    node r k = elim (Bool-cases (contains mn.healthy_nodes r)) [
      | inl old ↦ All-mem mn.healthy_nodes (λ q. contains mn.nodes q ≡ true) r h.known old
      | inr new ↦ ground (arith, m.members r)
    ]

-- In a network where every node is healthy or waits for a time, readmission does not panic. It
-- keeps the nodes and leaves such a network, in which a node is healthy exactly if it was, or if
-- the round was due and the node's time had come.
pub readmit_nodes-IsSound : (mn : Network) (now : ℤ) → IsSound mn → ReadmitOutcome mn now
readmit_nodes-IsSound mn now h = elim (Bool-cases (ltb_ℤ now mn.earliest_readmit_time)) [
  | inl e ↦ not_yet mn now h e
  | inr e ↦ due_now mn now h e
]
