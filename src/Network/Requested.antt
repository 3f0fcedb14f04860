-- ===== src/Network/Requested.antt =====
-- sdk/managed_network.go: what `_SetNetwork` leaves is what was asked for.
use hiero_sdk_go.Base.{
  ℕ, ◌≡◌, sym, ◌∙◌, inl, inr, Bool, true, false, ◌&&◌, ◌||◌, Option, none, some, List, [], ◌∷◌,
  ◌++◌, arith, Bool-cases, All,
}
use mathlib.Core.Path.{subst}
use hiero_sdk_go.Base.Int.{ℤ}
use hiero_sdk_go.Base.Text.{Text, text_eq, text_eq→eq, text_eq_refl}
use hiero_sdk_go.Node.{Node, get_key, get_address}
use hiero_sdk_go.Network.{Network, lookup}
use hiero_sdk_go.Network.Configure.{
  is_kept, get_nodes_to_remove, with_nodes, has_key, has_address, add_nodes, set_network,
  matches_incoming,
}
use hiero_sdk_go.Network.Replace.{SameNames, Removed, keep, remove_all}

-- A node of the list has this key and this address.
unfoldable pub has_node : (ℕ → Node) → List ℕ → Text → Text → Bool
has_node s [] key address = false
has_node s (r ∷ rs) key address =
    (text_eq (get_key (s r)) key && text_eq (get_address (s r).managed) address)
    || has_node s rs key address

-- The map's entry: the node has the entry's address, and the map holds it there.
abbrev pub IsEntry : (ℕ → Node) → List (Text × ℕ) → Text × ℕ → Type 0
IsEntry s incoming (address, r) =
    (get_address (s r).managed ≡ address) × (lookup address incoming ≡ some r)

abbrev pub IsServed : (ℕ → Node) → List ℕ → Text × ℕ → Type 0
IsServed s nodes (address, r) = has_node s nodes (get_key (s r)) address ≡ true

has_node-append :
    (s : ℕ → Node) (rs : List ℕ) (q : ℕ) (key address : Text)
    → has_node s rs key address ≡ true
    → has_node s (rs ++ (q ∷ [])) key address ≡ true
unfolding has_node
has_node-append s [] q key address h = cc
has_node-append s (r ∷ rs) q key address h = ground (arith, has_node-append s rs q key address)

has_node_last :
    (s : ℕ → Node) (rs : List ℕ) (q : ℕ)
    → has_node s (rs ++ (q ∷ [])) (get_key (s q)) (get_address (s q).managed) ≡ true
unfolding has_node
has_node_last s [] q =
    ground (arith, text_eq_refl (get_key (s q)), text_eq_refl (get_address (s q).managed))
has_node_last s (r ∷ rs) q = ground (arith, has_node_last s rs q)

is_kept-key :
    (s : ℕ → Node) (incoming : List (Text × ℕ)) (r v : ℕ)
    → is_kept s incoming r ≡ true
    → lookup (get_address (s r).managed) incoming ≡ some v
    → get_key (s v) ≡ get_key (s r)
unfolding is_kept
is_kept-key s incoming r v h e =
    text_eq→eq (get_key (s v)) (get_key (s r)) (rw (e, matches_incoming) at h)

-- A kept node at an address that is asked for has the key that is asked for.
has_node-kept :
    (s : ℕ → Node) (incoming : List (Text × ℕ)) (rs : List ℕ) (address : Text) (v : ℕ)
    → All (λ r. is_kept s incoming r ≡ true) rs
    → lookup address incoming ≡ some v
    → has_address s rs address ≡ true
    → has_node s rs (get_key (s v)) address ≡ true
unfolding has_node has_address
has_node-kept s incoming [] address v h e k = cc
has_node-kept s incoming (r ∷ rs) address v (h, hs) e k =
    elim (Bool-cases (text_eq (get_address (s r).managed) address)) [
      | inl same ↦
          let found : lookup (get_address (s r).managed) incoming ≡ some v =
            rw (text_eq→eq _ _ same) e in
          ground (arith, is_kept-key s incoming r v h found, text_eq_refl (get_key (s r)), same)
      | inr other ↦ ground (arith, has_node-kept s incoming rs address v hs e (rw other at k))
    ]

add_nodes-has_node :
    (s : ℕ → Node) (kept : List ℕ) (rest : List (Text × ℕ)) (nodes : List ℕ) (key address : Text)
    → has_node s nodes key address ≡ true
    → has_node s (add_nodes s kept rest nodes) key address ≡ true
unfolding add_nodes
add_nodes-has_node s kept [] nodes key address h = h
add_nodes-has_node s kept ((a, r) ∷ rest) nodes key address h =
    elim (Bool-cases (has_key s kept (get_key (s r)) && has_address s kept a)) [
      | inl e ↦ rw e (add_nodes-has_node s kept rest nodes key address h)
      | inr e ↦
          rw e
            (add_nodes-has_node s kept rest _ key address (has_node-append s nodes r key address h))
    ]

abbrev is_old : (ℕ → Node) → List ℕ → Text → ℕ → Bool
is_old s kept a r = has_key s kept (get_key (s r)) && has_address s kept a

add_nodes_old :
    (s : ℕ → Node) (kept : List ℕ) (a : Text) (r : ℕ) (rest : List (Text × ℕ)) (nodes : List ℕ)
    → is_old s kept a r ≡ true
    → add_nodes s kept ((a, r) ∷ rest) nodes ≡ add_nodes s kept rest nodes
unfolding add_nodes
add_nodes_old s kept a r rest nodes e = rw e

add_nodes_new :
    (s : ℕ → Node) (kept : List ℕ) (a : Text) (r : ℕ) (rest : List (Text × ℕ)) (nodes : List ℕ)
    → is_old s kept a r ≡ false
    → add_nodes s kept ((a, r) ∷ rest) nodes ≡ add_nodes s kept rest (nodes ++ (r ∷ []))
unfolding add_nodes
add_nodes_new s kept a r rest nodes e = rw e

add_nodes-IsServed :
    (s : ℕ → Node) (incoming : List (Text × ℕ)) (kept : List ℕ) (rest : List (Text × ℕ))
    (nodes : List ℕ)
    → All (λ r. is_kept s incoming r ≡ true) kept
    → ((key address : Text)
        → has_node s kept key address ≡ true
        → has_node s nodes key address ≡ true)
    → All (IsEntry s incoming) rest
    → All (IsServed s (add_nodes s kept rest nodes)) rest
add_nodes-IsServed s incoming kept [] nodes h sub e = tt
add_nodes-IsServed s incoming kept ((a, r) ∷ rest) nodes h sub ((ea, el), es) =
    elim (Bool-cases (is_old s kept a r)) [
      | inl old ↦
          subst (λ l. All (IsServed s l) ((a, r) ∷ rest))
            (sym (add_nodes_old s kept a r rest nodes old))
            (
              add_nodes-has_node s kept rest nodes _ _
                  (sub _ _ (has_node-kept s incoming kept a r h el (ground arith))),
              add_nodes-IsServed s incoming kept rest nodes h sub es,
            )
      | inr new ↦
          subst (λ l. All (IsServed s l) ((a, r) ∷ rest))
            (sym (add_nodes_new s kept a r rest nodes new))
            (
              add_nodes-has_node s kept rest _ (get_key (s r)) a
                  (rw ea at (has_node_last s nodes r)),
              add_nodes-IsServed s incoming kept rest _ h
                  (λ key address k. has_node-append s nodes r key address (sub key address k)) es,
            )
    ]

All-snoc : (P : ℕ → Type 0) (rs : List ℕ) (q : ℕ) → All P rs → P q → All P (rs ++ (q ∷ []))
All-snoc P [] q h k = (k, tt)
All-snoc P (r ∷ rs) q (h, hs) k = (h, All-snoc P rs q hs k)

IsEntry-is_kept :
    (s : ℕ → Node) (incoming : List (Text × ℕ)) (a : Text) (r : ℕ)
    → IsEntry s incoming (a, r)
    → is_kept s incoming r ≡ true
unfolding is_kept
IsEntry-is_kept s incoming a r (ea, el) = rw (ea, el) (text_eq_refl (get_key (s r)))

add_nodes-is_kept :
    (s : ℕ → Node) (incoming : List (Text × ℕ)) (kept : List ℕ) (rest : List (Text × ℕ))
    (nodes : List ℕ)
    → All (λ r. is_kept s incoming r ≡ true) nodes
    → All (IsEntry s incoming) rest
    → All (λ r. is_kept s incoming r ≡ true) (add_nodes s kept rest nodes)
unfolding add_nodes
add_nodes-is_kept s incoming kept [] nodes h e = h
add_nodes-is_kept s incoming kept ((a, r) ∷ rest) nodes h (e, es) =
    elim (Bool-cases (has_key s kept (get_key (s r)) && has_address s kept a)) [
      | inl old ↦ rw old (add_nodes-is_kept s incoming kept rest nodes h es)
      | inr new ↦ rw new (
          add_nodes-is_kept s incoming kept rest _
            (All-snoc (λ q. is_kept s incoming q ≡ true) nodes r h
              (IsEntry-is_kept s incoming a r e))
            es)
    ]

keep-is_kept :
    (s t : ℕ → Node) (incoming : List (Text × ℕ)) (rs : List ℕ)
    → ((r : ℕ) → is_kept s incoming r ≡ true → is_kept t incoming r ≡ true)
    → All (λ r. is_kept t incoming r ≡ true) (keep s incoming rs)
unfolding keep
keep-is_kept s t incoming [] same = tt
keep-is_kept s t incoming (r ∷ rs) same = elim (Bool-cases (is_kept s incoming r)) [
  | inl e ↦ rw e (same r e, keep-is_kept s t incoming rs same)
  | inr e ↦ rw e (keep-is_kept s t incoming rs same)
]

is_kept-names :
    (s t : ℕ → Node) (incoming : List (Text × ℕ)) (r : ℕ)
    → SameNames s t
    → is_kept s incoming r ≡ true
    → is_kept t incoming r ≡ true
unfolding is_kept
is_kept-names s t incoming r same h =
    rw ((same r).1) (go (lookup (get_address (s r).managed) incoming) h)
  where
    go : (o : Option ℕ) → matches_incoming s r o ≡ true → matches_incoming t r o ≡ true
    go none h = cc
    go (some v) h = rw ((same v).0, (same r).0) h

IsEntry-names :
    (s t : ℕ → Node) (incoming rest : List (Text × ℕ))
    → SameNames s t
    → All (IsEntry s incoming) rest
    → All (IsEntry t incoming) rest
IsEntry-names s t incoming [] same h = tt
IsEntry-names s t incoming ((a, r) ∷ rest) same ((ea, el), hs) =
    (((same r).1 ∙ ea, el), IsEntry-names s t incoming rest same hs)

-- Where no connection fails to close, and the incoming map holds each of its nodes at the node's
-- own address and no address twice, `_SetNetwork` returns without an error. Then every node of the
-- network is one that the map asks for (by address and account ID), and for every entry of the map
-- there is a node with its address and its account ID.
pub set_network_lem :
    (mn : Network) (fails : ℕ → Bool) (incoming : List (Text × ℕ)) (now : ℕ → ℤ)
    → ((r : ℕ) → fails r ≡ false)
    → All (IsEntry mn.store incoming) incoming
    → (mn' : Network) × (set_network mn fails incoming now ≡ some (mn', false))
      × All (λ r. is_kept mn'.store incoming r ≡ true) mn'.nodes
      × All (IsServed mn'.store mn'.nodes) incoming
unfolding with_nodes
set_network_lem mn fails incoming now no_failure entries = (
  with_nodes mn t now (add_nodes t kept incoming kept),
  unfold set_network in rw m.returns,
  add_nodes-is_kept t incoming kept incoming kept all_kept entries',
  add_nodes-IsServed t incoming kept incoming kept all_kept (λ key address h. h) entries',
)
  where
    kept : List ℕ
    kept = keep mn.store incoming mn.nodes

    m : Removed fails mn.store (get_nodes_to_remove mn.store incoming 0 mn.nodes) mn.nodes kept
    m = remove_all fails no_failure mn.store mn.store incoming [] mn.nodes

    t : ℕ → Node
    t = m.store

    all_kept : All (λ r. is_kept t incoming r ≡ true) kept
    all_kept =
        keep-is_kept mn.store t incoming mn.nodes
          (λ r h. is_kept-names mn.store t incoming r m.names h)

    entries' : All (IsEntry t incoming) incoming
    entries' = IsEntry-names mn.store t incoming incoming m.names entries
