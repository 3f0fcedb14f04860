-- ===== src/EntityId/Solidity.antt =====
-- sdk/id.go, sdk/topic_id.go: reading the addresses that the code writes.
use hiero_sdk_go.Base.{
  ℕ, zero, suc, ◌/◌, ◌%◌, ◌^◌, ◌<◌, ◌≡◌, refl, ap, ◌∙◌, true, none, some, List, [], ◌∷◌, ◌++◌,
  arith,
}
use hiero_sdk_go.Abi.Hex.{hex_digit, hex_decode}
use hiero_sdk_go.Abi.Words.{low_bytes, set_bytes, set_bytes-low_bytes}
use hiero_sdk_go.EntityId.{
  TopicId, encode_digit, hex_encode, id_to_solidity_address, numbers, id_from_solidity_address,
  decode_evm_address, all_zero, long_zero, is_long_zero_address, topic_id_from_evm_address,
  to_evm_address,
}

hex_digit-encode_digit : (d : ℕ) → d < 16 → hex_digit (encode_digit d) ≡ some d
unfolding hex_digit encode_digit
hex_digit-encode_digit d h = ground arith

data AllBytes : List ℕ → Type 0 where
  no_byte : AllBytes []
  one_byte : (b : ℕ) (bs : List ℕ) → b < 256 → AllBytes bs → AllBytes (b ∷ bs)

low_bytes-AllBytes : (k n : ℕ) (acc : List ℕ) → AllBytes acc → AllBytes (low_bytes k n acc)
low_bytes-AllBytes zero n acc h = h
low_bytes-AllBytes (suc k) n acc h =
    low_bytes-AllBytes k (n / 256) ((n % 256) ∷ acc) (one_byte (n % 256) acc (omega arith) h)

append-AllBytes : (a b : List ℕ) → AllBytes a → AllBytes b → AllBytes (a ++ b)
append-AllBytes [] b no_byte k = k
append-AllBytes (x ∷ a) b (one_byte _ _ l h) k = one_byte x (a ++ b) l (append-AllBytes a b h k)

hex_decode-hex_encode : (bs : List ℕ) → AllBytes bs → hex_decode (hex_encode bs) ≡ some bs
unfolding hex_decode hex_encode
hex_decode-hex_encode [] h = refl
hex_decode-hex_encode (b ∷ bs) (one_byte _ _ l h) =
    let high : b / 16 < 16 = omega arith in
    let low : b % 16 < 16 = omega arith in
    rw
      (
        hex_digit-encode_digit (b / 16) high,
        hex_digit-encode_digit (b % 16) low,
        hex_decode-hex_encode bs h,
      )
      (ap (λ (i : ℕ). some (i ∷ bs)) (omega arith))

-- The 20 bytes of an address.
abbrev address_bytes : ℕ → ℕ → ℕ → List ℕ
address_bytes shard realm num =
    low_bytes 4 (shard % 2 ^ 32) [] ++ (low_bytes 8 realm [] ++ low_bytes 8 num [])

address_bytes-AllBytes : (shard realm num : ℕ) → AllBytes (address_bytes shard realm num)
address_bytes-AllBytes shard realm num =
    append-AllBytes _ _ (low_bytes-AllBytes 4 (shard % 2 ^ 32) [] no_byte) (
      append-AllBytes _ _ (low_bytes-AllBytes 8 realm [] no_byte)
        (low_bytes-AllBytes 8 num [] no_byte))

numbers-address_bytes :
    (shard realm num : ℕ)
    → realm < 2 ^ 64
    → num < 2 ^ 64
    → numbers (address_bytes shard realm num) ≡ some (shard % 2 ^ 32, realm, num)
unfolding numbers
numbers-address_bytes shard realm num h k =
    let a : set_bytes 0 (low_bytes 4 (shard % 2 ^ 32) []) ≡ shard % 2 ^ 32 =
      set_bytes-low_bytes 4 (shard % 2 ^ 32) [] (omega arith) in
    let b : set_bytes 0 (low_bytes 8 realm []) ≡ realm =
      set_bytes-low_bytes 8 realm [] (omega arith) in
    let c : set_bytes 0 (low_bytes 8 num []) ≡ num = set_bytes-low_bytes 8 num [] (omega arith) in
    rw (a, b, c)

hex_decode-id_to_solidity_address :
    (shard realm num : ℕ)
    → hex_decode (id_to_solidity_address shard realm num) ≡ some (address_bytes shard realm num)
unfolding id_to_solidity_address
hex_decode-id_to_solidity_address shard realm num =
    hex_decode-hex_encode (address_bytes shard realm num) (address_bytes-AllBytes shard realm num)

-- The address of a shard, a realm and a number below 2^64 is read back as the shard's low 32 bits, the
-- realm and the number.
pub id_from_solidity_address-id_to_solidity_address :
    (shard realm num : ℕ)
    → realm < 2 ^ 64
    → num < 2 ^ 64
    → id_from_solidity_address (id_to_solidity_address shard realm num)
      ≡ some (shard % 2 ^ 32, realm, num)
unfolding id_from_solidity_address
id_from_solidity_address-id_to_solidity_address shard realm num h k =
    rw
      (hex_decode-id_to_solidity_address shard realm num, numbers-address_bytes shard realm num h k)

decode_evm_address-to_evm_address :
    (id : TopicId) → decode_evm_address (to_evm_address id) ≡ some (address_bytes 0 0 id.topic)
unfolding decode_evm_address to_evm_address id_to_solidity_address hex_encode encode_digit
decode_evm_address-to_evm_address id = hex_decode-id_to_solidity_address 0 0 id.topic

-- So is it behind the prefix 0x, which is cut off.
decode_evm_address-prefixed :
    (id : TopicId)
    → decode_evm_address (b'0' ∷ b'x' ∷ to_evm_address id) ≡ some (address_bytes 0 0 id.topic)
unfolding decode_evm_address to_evm_address id_to_solidity_address hex_encode encode_digit
decode_evm_address-prefixed id = hex_decode-id_to_solidity_address 0 0 id.topic

-- An address of a topic has twelve zeros in front.
long_zero-address_bytes : (n : ℕ) → long_zero (some (address_bytes 0 0 n)) ≡ true
unfolding long_zero all_zero
long_zero-address_bytes n = refl

is_long_zero_address-to_evm_address :
    (id : TopicId) → is_long_zero_address (to_evm_address id) ≡ true
unfolding is_long_zero_address
is_long_zero_address-to_evm_address id =
    ap long_zero (decode_evm_address-to_evm_address id) ∙ long_zero-address_bytes id.topic

-- The address that ToEvmAddress gives a topic below 2^64 is read by TopicIDFromEvmAddress, with the
-- topic's shard and realm, as the topic with no checksum.
pub topic_id_from_evm_address-to_evm_address :
    (id : TopicId)
    → id.topic < 2 ^ 64
    → topic_id_from_evm_address id.shard id.realm (to_evm_address id)
      ≡ some (record id { checksum = none })
unfolding topic_id_from_evm_address to_evm_address
topic_id_from_evm_address-to_evm_address id h = rw (
  is_long_zero_address-to_evm_address id,
  id_from_solidity_address-id_to_solidity_address 0 0 id.topic (omega arith) h,
)

-- The address of a topic with 0x in front of it counts as a long zero address, and yet
-- TopicIDFromEvmAddress fails on it.
pub topic_id_from_evm_address-prefixed :
    (shard realm : ℕ) (id : TopicId)
    → (is_long_zero_address (b'0' ∷ b'x' ∷ to_evm_address id) ≡ true)
      × (topic_id_from_evm_address shard realm (b'0' ∷ b'x' ∷ to_evm_address id) ≡ none)
unfolding topic_id_from_evm_address is_long_zero_address id_from_solidity_address hex_decode
    hex_digit
topic_id_from_evm_address-prefixed shard realm id =
    let long : is_long_zero_address (b'0' ∷ b'x' ∷ to_evm_address id) ≡ true =
      ap long_zero (decode_evm_address-prefixed id) ∙ long_zero-address_bytes id.topic in
    (long, rw long)
