-- ===== src/Network/Replace.antt =====
-- sdk/managed_network.go: `_SetNetwork` leaves exactly the nodes that were asked for.
use hiero_sdk_go.Base.{
  ℕ, ◌+◌, ◌≡◌, refl, ap, ◌∙◌, inl, inr, Bool, true, false, ◌&&◌, List, [], ◌∷◌, ◌++◌, append_assoc,
  append-nil, arith, ◌==◌, if◌then◌else◌, Bool-cases, length, length-append, get_elem?,
  get_elem?-append,
}
use hiero_sdk_go.Base.Text.{Text}
use hiero_sdk_go.Node.{Node, get_key, get_address, close}
use hiero_sdk_go.Network.{update}
use hiero_sdk_go.Network.Configure.{
  is_kept, get_nodes_to_remove, erase_at, Removal, removed, close_failed, panicked, and_then,
  remove_node, remove_nodes,
}

-- Nodes keep their key and their address when they are closed.
abbrev pub SameNames : (ℕ → Node) → (ℕ → Node) → Type 0
SameNames s t =
    (q : ℕ)
    → (get_key (t q) ≡ get_key (s q)) × (get_address (t q).managed ≡ get_address (s q).managed)

SameNames-trans : (s t u : ℕ → Node) → SameNames s t → SameNames t u → SameNames s u
SameNames-trans s t u h k q = ((k q).0 ∙ (h q).0, (k q).1 ∙ (h q).1)

names_at :
    (s : ℕ → Node) (q r : ℕ) (b : Bool)
    → (b ≡ true → r ≡ q)
    → (let n : Node = if b then record (s r) { channel = false } else s q in
        (get_key n ≡ get_key (s q)) × (get_address n.managed ≡ get_address (s q).managed))
unfolding get_key
names_at s q r true h =
    (ap (λ (p : ℕ). (s p).account_id) (h refl), ap (λ (p : ℕ). get_address (s p).managed) (h refl))
names_at s q r false h = (refl, refl)

SameNames-close :
    (s : ℕ → Node) (r : ℕ) → SameNames s (update s r (record (s r) { channel = false }))
SameNames-close s r q = names_at s q r (q == r) (λ e. ground arith)

erase_at-append :
    (pre : List ℕ) (r : ℕ) (rs : List ℕ) → erase_at (length pre) (pre ++ (r ∷ rs)) ≡ pre ++ rs
unfolding erase_at
erase_at-append [] r rs = refl
erase_at-append (p ∷ pre) r rs = ap (λ l. p ∷ l) (erase_at-append pre r rs)

remove_nodes-append :
    (fails : ℕ → Bool) (s : ℕ → Node) (is js nodes : List ℕ)
    → remove_nodes fails s (is ++ js) nodes
      ≡ and_then (remove_nodes fails s is nodes) (λ t rest. remove_nodes fails t js rest)
unfolding remove_nodes
remove_nodes-append fails s [] js nodes = refl
remove_nodes-append fails s (i ∷ is) js nodes =
    go (λ t rest. remove_nodes-append fails t is js rest)
      (remove_node fails s i nodes (get_elem? nodes i))
  where
    go :
        ((t : ℕ → Node) (rest : List ℕ)
          → remove_nodes fails t (is ++ js) rest
            ≡ and_then (remove_nodes fails t is rest) (λ u more. remove_nodes fails u js more))
        → (m : Removal)
        → and_then m (λ t rest. remove_nodes fails t (is ++ js) rest)
          ≡ and_then
              (and_then m (λ t rest. remove_nodes fails t is rest))
              (λ t rest. remove_nodes fails t js rest)
    go ih (removed t rest) = ih t rest
    go ih (close_failed t) = refl
    go ih panicked = refl

no_and : (b : Bool) → (b && false) ≡ false
no_and true = refl
no_and false = refl

-- The nodes that the incoming map asks for.
unfoldable pub keep : (ℕ → Node) → List (Text × ℕ) → List ℕ → List ℕ
keep s incoming [] = []
keep s incoming (r ∷ rs) =
    if is_kept s incoming r then r ∷ keep s incoming rs else keep s incoming rs

-- The removal without a failing close: the nodes that are left, in a store with the same names.
pub record Removed (fails : ℕ → Bool) (s : ℕ → Node) (is nodes result : List ℕ) : Type 0 where
  pub store : ℕ → Node
  pub returns : remove_nodes fails s is nodes ≡ removed store result
  pub names : SameNames s store

module _ (fails : ℕ → Bool) (no_failure : (r : ℕ) → fails r ≡ false) where
  remove_one :
      (s : ℕ → Node) (pre : List ℕ) (r : ℕ) (rs : List ℕ)
      → Removed fails s (length pre ∷ []) (pre ++ (r ∷ rs)) (pre ++ rs)
  remove_one s pre r rs = record {
    store = update s r (record (s r) { channel = false });
    returns =
        unfold remove_nodes close in
        rw
          (get_elem?-append pre r rs, no_failure r, no_and (s r).channel, erase_at-append pre r rs);
    names = SameNames-close s r;
  }

  join :
      (s : ℕ → Node) (is js a b c : List ℕ) (first : Removed fails s is a b)
      → Removed fails first.store js b c
      → Removed fails s (is ++ js) a c
  join s is js a b c first second = record {
    store = second.store;
    returns = remove_nodes-append fails s is js a ∙ rw (first.returns) second.returns;
    names = SameNames-trans s first.store second.store first.names second.names;
  }

  pub remove_all :
      (s t : ℕ → Node) (incoming : List (Text × ℕ)) (pre rs : List ℕ)
      → Removed fails t
          (get_nodes_to_remove s incoming (length pre) rs)
          (pre ++ rs)
          (pre ++ keep s incoming rs)
  unfolding get_nodes_to_remove keep
  remove_all s t incoming pre [] = record {
    store = t;
    returns = unfold remove_nodes in refl;
    names = λ q. (refl, refl);
  }
  remove_all s t incoming pre (r ∷ rs) =
      let ih = remove_all s t incoming (pre ++ (r ∷ [])) rs in
      let here : length (pre ++ (r ∷ [])) ≡ length pre + 1 =
        omega (arith, length-append pre (r ∷ [])) in
      let ih' : Removed fails t (get_nodes_to_remove s incoming (length pre + 1) rs)
          (pre ++ (r ∷ rs)) (pre ++ (r ∷ keep s incoming rs)) =
        rw (here, append_assoc pre (r ∷ []) rs, append_assoc pre (r ∷ []) (keep s incoming rs)) at
          ih in
      elim (Bool-cases (is_kept s incoming r)) [
        | inl e ↦ rw (e, append-nil) ih'
        | inr e ↦ rw e (join t _ _ _ _ _ ih' (remove_one ih'.store pre r (keep s incoming rs)))
      ]
