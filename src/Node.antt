-- ===== src/Node.antt =====
-- sdk/managed_node.go, sdk/managed_node_address.go and sdk/node.go: a node of the network with its
-- address and its backoff. The counters are of int64. Times and durations are nanoseconds; a call of `time.Now` is an argument.
pub mod Backoff
pub mod Address
mod Tests
use hiero_sdk_go.Base.{
  ℕ, ◌+◌, ◌*◌, ◌%◌, ◌^◌, Bool, true, false, ◌&&◌, ◌||◌, Option, none, some, List, [], ◌∷◌, ◌++◌,
  ltb, leb, ◌==◌, if◌then◌else◌,
}
use hiero_sdk_go.Base.Int.{ℤ, pos, negsuc, ◌+ℤ◌, ◌-ℤ◌, ltb_ℤ}
use hiero_sdk_go.Base.Int64.{double, half, ◌+₆₄◌}
use hiero_sdk_go.Base.Text.{Text, text_eq, format_uint, parse_uint}

pub record ManagedNodeAddress : Type 0 where
  pub address : Option Text
  pub port : ℕ

-- `\s` of Go's regular expressions.
abbrev is_space : ℕ → Bool
is_space c = c == 9 || c == 10 || c == 12 || c == 13 || c == 32

unfoldable pub no_space : Text → Bool
no_space [] = true
no_space (c ∷ cs) = (if is_space c then false else true) && no_space cs

-- The text before the last colon and the text behind it; the last colon has none behind it.
abbrev pub at_colon : ℕ → Text → Option (Text × Text) → Option (Text × Text)
at_colon c cs none = if c == b':' then some ([], cs) else none
at_colon c cs (some (host, port)) = some (c ∷ host, port)

unfoldable pub split_last_colon : Text → Option (Text × Text)
split_last_colon [] = none
split_last_colon (c ∷ cs) = at_colon c cs (split_last_colon cs)

abbrev pub is_empty : Text → Bool
is_empty [] = true
is_empty (c ∷ cs) = false

abbrev with_port : Text → Option ℕ → Option ManagedNodeAddress
with_port host none = none
with_port host (some port) = some (record { address = some host; port = port % 2 ^ 32 })

match_host_and_port : Option (Text × Text) → Option ManagedNodeAddress
match_host_and_port none = none
match_host_and_port (some (host, port)) =
    if is_empty host
    then none
    else if no_space host
    then with_port host (parse_uint (2 ^ 64) port)
    else none

-- `_ManagedNodeAddressFromString`: the expression `^(\S+):(\d+)$` splits at the last colon, since
-- no digit is one. `none` stands for either error.
unfoldable pub managed_node_address_from_string : Text → Option ManagedNodeAddress
unfolding match_host_and_port
managed_node_address_from_string str = match_host_and_port (split_last_colon str)

unfoldable pub is_transport_security : ManagedNodeAddress → Bool
is_transport_security a = a.port == 50212 || a.port == 443

unfoldable pub address_to_insecure : ManagedNodeAddress → ManagedNodeAddress
address_to_insecure a = if a.port == 50212 then record a { port = 50211 } else a

unfoldable pub address_to_secure : ManagedNodeAddress → ManagedNodeAddress
address_to_secure a = if a.port == 50211 then record a { port = 50212 } else a

abbrev host_and_port : Option Text → ℕ → Text
host_and_port none port = []
host_and_port (some host) port = host ++ (b':' ∷ format_uint port)

unfoldable pub address_string : ManagedNodeAddress → Text
address_string a = host_and_port a.address a.port

pub record ManagedNode : Type 0 where
  pub address : Option ManagedNodeAddress
  pub current_backoff : ℤ
  pub last_used : ℤ
  pub use_count : ℤ
  pub min_backoff : ℤ
  pub max_backoff : ℤ
  pub bad_grpc_status_count : ℤ
  pub readmit_time : Option ℤ

abbrev pub second : ℕ
second = 1_000_000_000

abbrev pub hour : ℕ
hour = 3600 * second

abbrev pub max_backoff_default : ℤ
max_backoff_default = pos hour

-- `_NewManagedNode`; a bad address leaves the field nil, and the caller sees the error.
unfoldable pub new_managed_node : ℤ → Text → ℤ → ManagedNode
new_managed_node now address min_backoff = record {
  address = managed_node_address_from_string address;
  current_backoff = min_backoff;
  last_used = now;
  use_count = pos 0;
  min_backoff = min_backoff;
  max_backoff = max_backoff_default;
  bad_grpc_status_count = pos 0;
  readmit_time = none;
}

abbrev address_text : Option ManagedNodeAddress → Text
address_text none = []
address_text (some a) = address_string a

unfoldable pub get_address : ManagedNode → Text
get_address node = address_text node.address

abbrev pub eq_ℤ : ℤ → ℤ → Bool
eq_ℤ (pos a) (pos b) = a == b
eq_ℤ (pos a) (negsuc b) = false
eq_ℤ (negsuc a) (pos b) = false
eq_ℤ (negsuc a) (negsuc b) = a == b

-- The branch assigns the old minimum, as the code does.
unfoldable pub set_min_backoff : ManagedNode → ℤ → ManagedNode
set_min_backoff node min_backoff =
    let node' =
      if eq_ℤ node.current_backoff node.min_backoff
      then record node { current_backoff = node.min_backoff }
      else node in
    record node' { min_backoff = min_backoff }

unfoldable pub set_max_backoff : ManagedNode → ℤ → ManagedNode
set_max_backoff node wait_time = record node { max_backoff = wait_time }

unfoldable pub in_use : ManagedNode → ℤ → ManagedNode
in_use node now = record node { use_count = node.use_count +₆₄ pos 1; last_used = now }

-- `t.Before(now)`, where nil counts as healthy.
abbrev pub before_now : Option ℤ → ℤ → Bool
before_now none now = true
before_now (some t) now = ltb_ℤ t now

unfoldable pub is_healthy : ManagedNode → ℤ → Bool
is_healthy node now = before_now node.readmit_time now

-- The backoff after one more failure.
unfoldable pub next_backoff : ℤ → ℤ → ℤ
next_backoff current max = if ltb_ℤ max (double current) then max else double current

unfoldable pub increase_backoff : ManagedNode → ℤ → ManagedNode
increase_backoff node now =
    let current = next_backoff node.current_backoff node.max_backoff in
    record node {
      bad_grpc_status_count = node.bad_grpc_status_count +₆₄ pos 1;
      current_backoff = current;
      readmit_time = some (now +ℤ current);
    }

unfoldable pub decrease_backoff : ManagedNode → ManagedNode
decrease_backoff node = record node {
  current_backoff =
      if ltb_ℤ (half node.current_backoff) node.min_backoff
      then node.min_backoff
      else half node.current_backoff;
}

-- `Time.Sub` saturates at the ends of int64.
abbrev pub saturate : ℤ → ℤ
saturate (pos n) = if ltb n (2 ^ 63) then pos n else pos 0x7fff_ffff_ffff_ffff
saturate (negsuc n) = if ltb n (2 ^ 63) then negsuc n else negsuc 0x7fff_ffff_ffff_ffff

-- `none` stands for the panic on a nil readmit time.
abbrev since : Option ℤ → ℤ → Option ℤ
since none t = none
since (some r) t = some (saturate (r -ℤ t))

unfoldable pub wait : ManagedNode → Option ℤ
wait node = since node.readmit_time node.last_used

-- `_Node`: the account ID is held as its text, and the channel as whether it is open.
pub record Node : Type 0 where
  pub managed : ManagedNode
  pub account_id : Text
  pub channel : Bool
  pub verify_certificate : Bool

unfoldable pub new_node : ℤ → Text → Text → ℤ → Node
new_node now account_id address min_backoff = record {
  managed = new_managed_node now address min_backoff;
  account_id = account_id;
  channel = false;
  verify_certificate = true;
}

unfoldable pub get_key : Node → Text
get_key node = node.account_id

abbrev pub map_address :
    (ManagedNodeAddress → ManagedNodeAddress)
    → Option ManagedNodeAddress
    → Option ManagedNodeAddress
map_address to none = none
map_address to (some a) = some (to a)

-- The managed node that `_ToSecure` and `_ToInsecure` build: it is given no maximal backoff.
abbrev pub move_address : (ManagedNodeAddress → ManagedNodeAddress) → ManagedNode → ManagedNode
move_address to m = record m { address = map_address to m.address; max_backoff = pos 0 }

unfoldable pub to_secure : Node → Node
to_secure node = record node { managed = move_address address_to_secure node.managed }

unfoldable pub to_insecure : Node → Node
to_insecure node = record node { managed = move_address address_to_insecure node.managed }

unfoldable pub set_verify_certificate : Node → Bool → Node
set_verify_certificate node verify = record node { verify_certificate = verify }

-- `_Close`: whether the gRPC library fails to close the connection is an argument.
unfoldable pub close : Bool → Node → Node × Bool
close fails node = (record node { channel = false }, node.channel && fails)
