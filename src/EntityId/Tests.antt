-- ===== src/EntityId/Tests.antt =====
-- Addresses of entities, and the theorems on them at one topic.
use hiero_sdk_go.Base.{◌+◌, ◌^◌, ◌≡◌, refl, ◌∷◌, true, none, some, arith}
use hiero_sdk_go.Base.Text.{codes}
use hiero_sdk_go.EntityId.{
  TopicId, encode_digit, hex_encode, id_to_solidity_address, id_from_solidity_address,
  is_long_zero_address, topic_id_from_evm_address, to_evm_address,
}
use hiero_sdk_go.EntityId.Solidity.{
  id_from_solidity_address-id_to_solidity_address, topic_id_from_evm_address-to_evm_address,
  topic_id_from_evm_address-prefixed,
}

abbrev topic_4660 : TopicId
topic_4660 = record { shard = 1; realm = 2; topic = 4660; checksum = some (codes "abcde") }

address_of_4660 : to_evm_address topic_4660 ≡ codes "0000000000000000000000000000000000001234"
unfolding to_evm_address id_to_solidity_address hex_encode encode_digit
address_of_4660 = refl

id_from_solidity_address-id_to_solidity_address_example :
    id_from_solidity_address (id_to_solidity_address (2 ^ 32 + 1) 2 4660) ≡ some (1, 2, 4660)
id_from_solidity_address-id_to_solidity_address_example =
    id_from_solidity_address-id_to_solidity_address (2 ^ 32 + 1) 2 4660 (omega arith) (omega arith)

topic_id_from_evm_address-to_evm_address_example :
    topic_id_from_evm_address 1 2 (to_evm_address topic_4660)
    ≡ some (record topic_4660 { checksum = none })
topic_id_from_evm_address-to_evm_address_example =
    topic_id_from_evm_address-to_evm_address topic_4660 (omega arith)

topic_id_from_evm_address-prefixed_example :
    (is_long_zero_address (b'0' ∷ b'x' ∷ to_evm_address topic_4660) ≡ true)
    × (topic_id_from_evm_address 0 0 (b'0' ∷ b'x' ∷ to_evm_address topic_4660) ≡ none)
topic_id_from_evm_address-prefixed_example = topic_id_from_evm_address-prefixed 0 0 topic_4660
