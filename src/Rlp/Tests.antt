-- ===== src/Rlp/Tests.antt =====
-- sdk/rlp.go: encodings at concrete items.
use hiero_sdk_go.Base.{◌≡◌, ◌≢◌, refl, [], ◌∷◌, arith}
use hiero_sdk_go.Rlp.{
  RlpItem, item, nil, cons, value_type, list_type, ok, out_of_fuel, read, write, write_items,
  encode_length, size, size_items,
}
use hiero_sdk_go.Rlp.RoundTrip.{IsCanonical, value, list, none, more, read-write}
use hiero_sdk_go.Rlp.Total.{read-ne-out_of_fuel, read-write_55}

-- The bytes of "dog", and a list of it and the single byte 5.
abbrev dog : RlpItem
dog = item value_type (100 ∷ 111 ∷ 103 ∷ []) nil

abbrev pets : RlpItem
pets = item list_type [] (cons dog (cons (item value_type (5 ∷ []) nil) nil))

abbrev old_item : RlpItem
old_item = item value_type (1 ∷ []) nil

write-pets : write pets ≡ 0xC5 ∷ 0x83 ∷ 100 ∷ 111 ∷ 103 ∷ 5 ∷ []
unfolding write write_items encode_length size size_items
write-pets = refl

pets-IsCanonical : IsCanonical pets
unfolding write write_items encode_length size size_items
pets-IsCanonical = list _ (more (value _) (more (value _) none)) (omega arith)

read-write_example : read old_item (write pets) ≡ ok pets
unfolding write write_items encode_length size size_items
read-write_example = read-write old_item pets pets-IsCanonical (omega arith)

-- A length of 8 bytes that the input does not hold.
read-ne-out_of_fuel_example : read old_item (0xBF ∷ 255 ∷ 255 ∷ []) ≢ out_of_fuel
read-ne-out_of_fuel_example = read-ne-out_of_fuel old_item (0xBF ∷ 255 ∷ 255 ∷ [])

-- One value of 54 bytes takes 55.
abbrev long_value : RlpItem
long_value =
    item value_type
      (1 ∷ 1 ∷ 1 ∷ 1 ∷ 1 ∷ 1 ∷ 1 ∷ 1 ∷ 1 ∷ 1 ∷ 1 ∷ 1 ∷ 1 ∷ 1 ∷ 1 ∷ 1 ∷ 1 ∷ 1 ∷ 1 ∷ 1 ∷ 1 ∷ 1 ∷ 1 ∷ 1
        ∷ 1 ∷ 1 ∷ 1 ∷ 1 ∷ 1 ∷ 1 ∷ 1 ∷ 1 ∷ 1 ∷ 1 ∷ 1 ∷ 1 ∷ 1 ∷ 1 ∷ 1 ∷ 1 ∷ 1 ∷ 1 ∷ 1 ∷ 1 ∷ 1 ∷ 1 ∷ 1
        ∷ 1 ∷ 1 ∷ 1 ∷ 1 ∷ 1 ∷ 1 ∷ 1 ∷ [])
      nil

read-write_55_example :
    read old_item (write (item list_type [] (cons long_value nil))) ≡ ok (item list_type [] nil)
unfolding write write_items encode_length size size_items
read-write_55_example = read-write_55 old_item (cons long_value nil) refl
