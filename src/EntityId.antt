-- ===== src/EntityId.antt =====
-- sdk/id.go, sdk/topic_id.go: the addresses of 20 bytes that stand for entities. An error is `none`.
-- Texts in hexadecimal digits are as the package encoding/hex reads and writes them.
pub mod Solidity
mod Tests
use hiero_sdk_go.Base.{
  ℕ, ◌+◌, ◌-◌, ◌/◌, ◌%◌, ◌^◌, Bool, false, true, ◌&&◌, Option, none, some, List, [], ◌∷◌, ◌++◌, ltb,
  ◌==◌, if◌then◌else◌, bind, length, take, drop,
}
use hiero_sdk_go.Base.Text.{Text}
use hiero_sdk_go.Abi.Hex.{hex_decode, has_0x}
use hiero_sdk_go.Abi.Words.{low_bytes, set_bytes}

unfoldable pub encode_digit : ℕ → ℕ
encode_digit d = if ltb d 10 then d + b'0' else d - 10 + b'a'

-- `hex.EncodeToString`
unfoldable pub hex_encode : List ℕ → Text
unfolding encode_digit
hex_encode [] = []
hex_encode (b ∷ bs) = encode_digit (b / 16) ∷ encode_digit (b % 16) ∷ hex_encode bs

-- `_IdToSolidityAddress`, of numbers below 2^64.
unfoldable pub id_to_solidity_address : ℕ → ℕ → ℕ → Text
unfolding hex_encode
id_to_solidity_address shard realm num =
    hex_encode (low_bytes 4 (shard % 2 ^ 32) [] ++ (low_bytes 8 realm [] ++ low_bytes 8 num []))

-- The shard, the realm and the number that the bytes of an address hold.
unfoldable pub numbers : List ℕ → Option (ℕ × ℕ × ℕ)
unfolding set_bytes
numbers bytes =
    if length bytes == 20
    then some (
      set_bytes 0 (take 4 bytes),
      set_bytes 0 (take 8 (drop 4 bytes)),
      set_bytes 0 (take 8 (drop 12 bytes)),
    )
    else none

-- `_IdFromSolidityAddress`
unfoldable pub id_from_solidity_address : Text → Option (ℕ × ℕ × ℕ)
unfolding hex_decode numbers
id_from_solidity_address s = bind (hex_decode s) λ bytes. numbers bytes

-- `decodeEvmAddress`
unfoldable pub decode_evm_address : Text → Option (List ℕ)
unfolding hex_decode
decode_evm_address s =
    let rest = if has_0x s then drop 2 s else s in
    if length rest == 40 then hex_decode rest else none

unfoldable pub all_zero : List ℕ → Bool
all_zero [] = true
all_zero (b ∷ bs) = b == 0 && all_zero bs

-- Whether the first 12 bytes are zeros. An address has 20 bytes, so that no index is out of range.
unfoldable pub long_zero : Option (List ℕ) → Bool
unfolding all_zero
long_zero none = false
long_zero (some address) = all_zero (take 12 address)

-- `isLongZeroAddress`
unfoldable pub is_long_zero_address : Text → Bool
unfolding decode_evm_address long_zero
is_long_zero_address evm_address = long_zero (decode_evm_address evm_address)

pub record TopicId : Type 0 where
  pub shard : ℕ
  pub realm : ℕ
  pub topic : ℕ
  pub checksum : Option Text

-- `TopicIDFromSolidityAddress`
unfoldable pub topic_id_from_solidity_address : Text → Option TopicId
unfolding id_from_solidity_address
topic_id_from_solidity_address s =
    bind (id_from_solidity_address s)
      λ id. some (record { shard = id.0; realm = id.1; topic = id.2; checksum = none })

-- `TopicID.ToSolidityAddress`
unfoldable pub to_solidity_address : TopicId → Text
unfolding id_to_solidity_address
to_solidity_address id = id_to_solidity_address id.shard id.realm id.topic

-- `TopicIDFromEvmAddress`
unfoldable pub topic_id_from_evm_address : ℕ → ℕ → Text → Option TopicId
unfolding id_from_solidity_address is_long_zero_address
topic_id_from_evm_address shard realm evm_address =
    if is_long_zero_address evm_address
    then (bind (id_from_solidity_address evm_address)
        λ id. some (record { shard = shard; realm = realm; topic = id.2; checksum = none }))
    else none

-- `TopicID.ToEvmAddress`
unfoldable pub to_evm_address : TopicId → Text
unfolding id_to_solidity_address
to_evm_address id = id_to_solidity_address 0 0 id.topic
