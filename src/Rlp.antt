-- ===== src/Rlp.antt =====
-- sdk/rlp.go: items of the recursive length prefix code, their encoder and their decoder.
pub mod Lengths
pub mod Steps
pub mod RoundTrip
pub mod Total
mod Tests
use hiero_sdk_go.Base.{
  ℕ, zero, suc, ◌+◌, ◌-◌, ◌*◌, ◌/◌, ◌%◌, ◌^◌, Bool, false, ◌&&◌, Option, none, some, List, [], ◌∷◌,
  ◌++◌, ltb, leb, ◌==◌, if◌then◌else◌, length, get_elem?, take, drop,
}

pub data RlpType : Type 0 where
  value_type list_type : RlpType

-- `RLPItem`: the type tag, the bytes, the children. The struct holds all three at once.
mutual
  pub data RlpItem : Type 0 where
    item : RlpType → List ℕ → RlpItems → RlpItem

  pub data RlpItems : Type 0 where
    nil : RlpItems
    cons : RlpItem → RlpItems → RlpItems

abbrev pub item_type : RlpItem → RlpType
item_type (item t v cs) = t

abbrev pub item_value : RlpItem → List ℕ
item_value (item t v cs) = v

abbrev pub child_items : RlpItem → RlpItems
child_items (item t v cs) = cs

-- `append` of one child.
abbrev pub snoc : RlpItems → RlpItem → RlpItems
snoc nil c = cons c nil
snoc (cons x xs) c = cons x (snoc xs c)

abbrev pub new_rlp_item : RlpType → RlpItem
new_rlp_item t = item t [] nil

-- The loop of `encodeBinary`, on fuel: a uint64 has at most eight bytes.
unfoldable pub encode_binary_loop : ℕ → ℕ → List ℕ → List ℕ
encode_binary_loop zero num bytes = bytes
encode_binary_loop (suc f) num bytes =
    let more = encode_binary_loop f (num / 256) ((num % 256) ∷ bytes) in
    if num == 0 then bytes else more

unfoldable pub encode_binary : ℕ → List ℕ
unfolding encode_binary_loop
encode_binary num = encode_binary_loop 8 num []

-- A byte sum wraps modulo 256.
unfoldable pub encode_length : ℕ → ℕ → List ℕ
encode_length num offset =
    if ltb num 56
    then ((offset + num % 256) % 256) ∷ []
    else ((length (encode_binary num) + offset + 55) % 256) ∷ encode_binary num

-- `hex.EncodeToString(value) == "00"` holds of the one byte 0 alone.
abbrev is_zero_byte : List ℕ → Bool
is_zero_byte (b ∷ []) = b == 0
is_zero_byte _ = false

unfoldable pub assign_value : RlpItem → List ℕ → RlpItem
assign_value (item t v cs) value = item value_type (if is_zero_byte value then [] else value) cs

unfoldable pub assign_bytes : RlpItem → List ℕ → RlpItem
assign_bytes (item t v cs) value = item value_type value cs

unfoldable pub assign_list : RlpItem → RlpItem
assign_list (item t v cs) = item list_type v cs

unfoldable pub clear : RlpItem → RlpItem
clear (item t v cs) = item t [] nil

unfoldable pub push_back : RlpItem → RlpItem → RlpItem
push_back (item t v cs) child = item t v (snoc cs child)

unfoldable mutual
  pub size : RlpItem → ℕ
  size (item value_type v cs) = length v
  size (item list_type v cs) = size_items cs

  pub size_items : RlpItems → ℕ
  size_items nil = 0
  size_items (cons c cs) = size c + size_items cs

-- `len(item.itemValue) == 1 && item.itemValue[0] < 0x80`
abbrev pub is_single_byte : List ℕ → Bool
is_single_byte (b ∷ []) = ltb b 0x80
is_single_byte _ = false

-- `Write`; its error is nil on every path, so the bytes alone are its result.
unfoldable mutual
  pub write : RlpItem → List ℕ
  write (item value_type v cs) = if is_single_byte v then v else encode_length (length v) 0x80 ++ v
  write (item list_type v cs) = encode_length (length (write_items cs)) 0xC0 ++ write_items cs

  pub write_items : RlpItems → List ℕ
  write_items nil = []
  write_items (cons c cs) = write c ++ write_items cs

-- What a call of the decoder comes to: a result, or a panic on an index or a slice out of range.
-- `out_of_fuel` is no behaviour of the code.
pub data Outcome {ℓ} (A : Type ℓ) : Type ℓ where
  ok : A → Outcome A
  panicked : Outcome A
  out_of_fuel : Outcome A

infixl 5 ◌>>=◌
abbrev pub ◌>>=◌ {ℓ κ} : {A : Type ℓ} {B : Type κ} → Outcome A → (A → Outcome B) → Outcome B
ok a >>= f = f a
panicked >>= f = panicked
out_of_fuel >>= f = out_of_fuel

abbrev pub index_byte : List ℕ → ℕ → Outcome ℕ
index_byte bytes i = elim (get_elem? bytes i) [ none ↦ panicked | some b ↦ ok b ]

-- The sum of two `int`s, the second one a bit pattern; `none` where the sum is negative.
unfoldable pub int_add : ℕ → ℕ → Option ℕ
int_add a b = let s = (a + b) % 2 ^ 64 in if ltb s (2 ^ 63) then some s else none

-- `bytes[i : i+n]`, for a slice whose capacity is its length.
slice_to : List ℕ → ℕ → Option ℕ → Outcome (List ℕ)
slice_to bytes i none = panicked
slice_to bytes i (some stop) =
    if leb i stop && leb stop (length bytes) then ok (take (stop - i) (drop i bytes)) else panicked

unfoldable pub slice : List ℕ → ℕ → ℕ → Outcome (List ℕ)
unfolding slice_to
slice bytes i n = slice_to bytes i (int_add i n)

-- The loop that reads a length of `k` bytes: the length so far, and the index, come back.
unfoldable pub read_length : ℕ → List ℕ → ℕ → ℕ → Outcome (ℕ × ℕ)
read_length zero bytes acc index = ok (acc, index)
read_length (suc k) bytes acc index = do
  b ← index_byte bytes index
  read_length k bytes ((acc * 256 + b) % 2 ^ 64) (index + 1)

abbrev pub with_value : RlpItem → List ℕ → RlpItem
with_value (item t v cs) value = item value_type value cs

-- `bytes[*index : *index+stringLength]`, stored as the item's value.
unfoldable pub read_string : RlpItem → List ℕ → ℕ → ℕ → Outcome (RlpItem × ℕ)
read_string it bytes index n = do v ← slice bytes index n; ok (with_value it v, index + n)

-- `*index < startIndex+listLength`
abbrev pub before : ℕ → Option ℕ → Bool
before index none = false
before index (some stop) = ltb index stop

abbrev pub mark_list : RlpItem × ℕ → Outcome (RlpItem × ℕ)
mark_list (item t v cs, index) = ok (item list_type v cs, index)

-- The branches of `decodeBytes` on its prefix. `children` is the loop that both list cases run,
-- from a start index to a stop.
unfoldable pub decode_prefix :
    RlpItem → List ℕ → ℕ → ℕ → (ℕ → Option ℕ → Outcome (RlpItem × ℕ)) → Outcome (RlpItem × ℕ)
decode_prefix it bytes index prefix children =
    if ltb prefix 0x80
    then ok (with_value it (prefix ∷ []), index)
    else if ltb prefix 0xB8
    then read_string it bytes index (prefix - 0x80)
    else if ltb prefix 0xC0
    then (read_length (prefix - 0xB7) bytes 0 index >>= λ (n, start). read_string it bytes start n)
    else if ltb prefix 0xF7
    then (children index (int_add index (prefix - 0xC0)) >>= mark_list)
    else (read_length (prefix - 0xF7) bytes 0 index >>= λ (n, start).
        children start (int_add start n) >>= mark_list)

-- `decodeBytes`, and its loop over the children of a list.
unfoldable mutual
  pub decode_bytes : ℕ → RlpItem → List ℕ → ℕ → Outcome (RlpItem × ℕ)
  decode_bytes zero it bytes index = out_of_fuel
  decode_bytes (suc f) it bytes index = do
    prefix ← index_byte bytes index
    decode_prefix it bytes (index + 1) prefix (decode_children f it bytes)

  pub decode_children : ℕ → RlpItem → List ℕ → ℕ → Option ℕ → Outcome (RlpItem × ℕ)
  decode_children zero it bytes index stop = out_of_fuel
  decode_children (suc f) it bytes index stop =
      let more = decode_bytes f (new_rlp_item list_type) bytes index >>= λ (child, next).
      decode_children f (push_back it child) bytes next stop in
      if before index stop then more else ok (it, index)

-- The fuel: two units for each byte, and one more.
unfoldable pub read : RlpItem → List ℕ → Outcome RlpItem
read it [] = ok (clear it)
read it (b ∷ bs) = do
  (it', index) ← decode_bytes (2 * length (b ∷ bs) + 1) (clear it) (b ∷ bs) 0
  ok it'
