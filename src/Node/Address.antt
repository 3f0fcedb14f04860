-- ===== src/Node/Address.antt =====
-- sdk/managed_node_address.go: an address and its text.
use hiero_sdk_go.Base.{
  ℕ, ◌^◌, ◌<◌, ◌≡◌, refl, ap, true, false, none, some, [], ◌∷◌, ◌++◌, arith, All,
}
use hiero_sdk_go.Base.Text.{Text, IsDigit, format_uint, All-format_uint, parse_uint-format_uint}
use hiero_sdk_go.Node.{
  ManagedNodeAddress, no_space, is_empty, split_last_colon, at_colon,
  managed_node_address_from_string, address_string, is_transport_security, address_to_secure,
  address_to_insecure,
}

split_last_colon-digits : (ds : Text) → All IsDigit ds → split_last_colon ds ≡ none
unfolding split_last_colon
split_last_colon-digits [] h = refl
split_last_colon-digits (d ∷ ds) (h, hs) =
    rw (split_last_colon-digits ds hs, at_colon) (ground arith)

split_last_colon-append :
    (host ds : Text) → All IsDigit ds → split_last_colon (host ++ (b':' ∷ ds)) ≡ some (host, ds)
unfolding split_last_colon
split_last_colon-append [] ds h = rw (split_last_colon-digits ds h, at_colon)
split_last_colon-append (c ∷ host) ds h = rw (split_last_colon-append host ds h, at_colon)

-- The text of an address whose host is there, not empty and free of white space, and whose port is
-- a uint32, is parsed back to the address.
pub managed_node_address_from_string-address_string :
    (host : Text) (port : ℕ)
    → is_empty host ≡ false
    → no_space host ≡ true
    → port < 2 ^ 32
    → (let a : ManagedNodeAddress = record { address = some host; port = port } in
        managed_node_address_from_string (address_string a) ≡ some a)
unfolding managed_node_address_from_string address_string
managed_node_address_from_string-address_string host port h k p =
    rw
      (
        split_last_colon-append host (format_uint port) (All-format_uint port),
        h,
        k,
        parse_uint-format_uint (2 ^ 64) port (omega arith) (omega arith),
      )
      (ap (λ (n : ℕ). some (record { address = some host; port = n })) (omega arith))

-- Moving an address to the secure port and back gives the address that was there, and the address
-- in between is secure, if the port was the plain one.
pub address_to_insecure-address_to_secure :
    (a : ManagedNodeAddress)
    → a.port ≡ 50211
    → (address_to_insecure (address_to_secure a) ≡ a)
      × (is_transport_security (address_to_secure a) ≡ true)
      × (is_transport_security a ≡ false)
unfolding address_to_insecure address_to_secure is_transport_security
address_to_insecure-address_to_secure a h = ground arith
