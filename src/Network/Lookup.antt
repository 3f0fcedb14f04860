-- ===== src/Network/Lookup.antt =====
-- sdk/managed_network.go: the map from account IDs to nodes, and the healthy nodes, that are built
-- from a list of nodes.
use hiero_sdk_go.Base.{
  ℕ, ◌≡◌, refl, sym, ap, ◌∙◌, inl, inr, Option, none, some, List, [], ◌∷◌, ◌++◌, append_assoc,
  append-nil, arith, if◌then◌else◌, Bool-cases,
}
use hiero_sdk_go.Base.Int.{ℤ}
use hiero_sdk_go.Base.Text.{Text, text_eq, text_eq→eq, text_eq_iff}
use hiero_sdk_go.Node.{Node, get_key, is_healthy}
use hiero_sdk_go.Network.{lookup}
use hiero_sdk_go.Network.Configure.{put, or_empty, create_network_loop, create_network_from_nodes}

pub lookup-put {ℓ} :
    {A : Type ℓ} (k j : Text) (v : A) (m : List (Text × A))
    → lookup j (put k v m) ≡ (if text_eq k j then some v else lookup j m)
unfolding lookup put
lookup-put k j v [] = refl
lookup-put k j v ((i, w) ∷ m) =
    ground (arith, text_eq_iff k j, text_eq_iff i k, text_eq_iff i j, lookup-put k j v m)

-- The nodes with a key, and the healthy nodes, each in order.
unfoldable pub nodes_with : (ℕ → Node) → Text → List ℕ → List ℕ
nodes_with store key [] = []
nodes_with store key (r ∷ rs) =
    if text_eq (get_key (store r)) key then r ∷ nodes_with store key rs else nodes_with store key rs

unfoldable pub healthy_of : (ℕ → Node) → (ℕ → ℤ) → List ℕ → List ℕ
healthy_of store now [] = []
healthy_of store now (r ∷ rs) =
    if is_healthy (store r).managed (now r)
    then r ∷ healthy_of store now rs
    else healthy_of store now rs

-- The entry for a key behind which more nodes with the key follow.
abbrev pub grouped : Option (List ℕ) → List ℕ → Option (List ℕ)
grouped o [] = o
grouped o (r ∷ rs) = some (or_empty o ++ (r ∷ rs))

grouped_snoc :
    (o : Option (List ℕ)) (r : ℕ) (rs : List ℕ)
    → grouped (some (or_empty o ++ (r ∷ []))) rs ≡ grouped o (r ∷ rs)
grouped_snoc o r [] = refl
grouped_snoc o r (q ∷ rs) = ap some (append_assoc (or_empty o) (r ∷ []) (q ∷ rs))

create_network_loop-lookup :
    (store : ℕ → Node) (now : ℕ → ℤ) (rs : List ℕ) (network : List (Text × List ℕ))
    (healthy : List ℕ) (k : Text)
    → lookup k (create_network_loop store now rs network healthy).0
      ≡ grouped (lookup k network) (nodes_with store k rs)
unfolding create_network_loop nodes_with
create_network_loop-lookup store now [] network healthy k = refl
create_network_loop-lookup store now (r ∷ rs) network healthy k =
    create_network_loop-lookup store now rs _ _ k
    ∙ rw lookup-put (elim (Bool-cases (text_eq (get_key (store r)) k)) [
      | inl e ↦ rw (e, text_eq→eq _ _ e) (grouped_snoc (lookup k network) r (nodes_with store k rs))
      | inr e ↦ rw e
    ])

create_network_loop-healthy :
    (store : ℕ → Node) (now : ℕ → ℤ) (rs : List ℕ) (network : List (Text × List ℕ))
    (healthy : List ℕ)
    → (create_network_loop store now rs network healthy).1 ≡ healthy ++ healthy_of store now rs
unfolding create_network_loop healthy_of
create_network_loop-healthy store now [] network healthy = sym (append-nil healthy)
create_network_loop-healthy store now (r ∷ rs) network healthy =
    create_network_loop-healthy store now rs _ _
    ∙ elim (Bool-cases (is_healthy (store r).managed (now r))) [
      | inl e ↦ rw e (append_assoc healthy (r ∷ []) (healthy_of store now rs))
      | inr e ↦ rw e
    ]

-- The map built from a list of nodes holds under each key the nodes with that key, in the list's
-- order, and nothing where there is none; the healthy nodes are those of the list, in its order.
pub create_network_from_nodes_lem :
    (store : ℕ → Node) (now : ℕ → ℤ) (nodes : List ℕ) (k : Text)
    → (lookup k (create_network_from_nodes store now nodes).0
        ≡ grouped none (nodes_with store k nodes))
      × ((create_network_from_nodes store now nodes).1 ≡ healthy_of store now nodes)
unfolding create_network_from_nodes
create_network_from_nodes_lem store now nodes k = (
  create_network_loop-lookup store now nodes [] [] k ∙ unfold lookup in refl,
  create_network_loop-healthy store now nodes [] [],
)
