-- ===== src/Lib.antt =====
-- The Hiero SDK for Go: the parts that choose nodes, execute requests, collect transfers and encode
-- data, with the theorems that make them correct. Paths are from the repository's root.
--
-- The program's parts. A client holds a network (sdk/network.go, over sdk/managed_network.go) of nodes
-- (sdk/node.go, over sdk/managed_node.go). A transaction or a query holds lockable slices
-- (sdk/lockable_slice.go) of nodes and IDs, and `_Execute` (sdk/executable.go) takes a node from
-- them or from the network, calls it, and by its answer retries, goes on to another node, or ends. A
-- failure backs the node off and takes it from the healthy nodes; `_ReadmitNodes` brings it back. Transfer
-- transactions and topic messages are requests; the RLP codec serves the Ethereum transactions. A contract
-- call takes its arguments from a builder (sdk/contract_function_parameters.go) that keeps a selector
-- (sdk/contract_function_selector.go) in step, and the ABI codec (sdk/abi_encode.go, sdk/abi_decode.go)
-- writes and reads values of a type (sdk/abi_type.go).
--
-- Files and code:
-- - Base: lists, options, texts, native numbers, integers and int64, shared by all.
-- - Rlp: sdk/rlp.go. `RLPItem` is RlpItem, `Write` write, `Read` read, `decodeBytes` decode_bytes
--   with its loop decode_children. A panic is `panicked`. read gives two units of fuel for each byte
--   and one more: each call of the decoder takes a byte, and each child one more call.
-- - Node: sdk/managed_node.go, sdk/managed_node_address.go, sdk/node.go; Node/Backoff and
--   Node/Address are their theorems.
-- - Network: sdk/managed_network.go and sdk/network.go, with a store of nodes that stands for the
--   pointers; Network/Configure has `_SetNetwork` and the settings. Network/Readmit, Failover,
--   Lookup, Replace, Requested and ForExecute are theorems.
-- - LockableSlice: sdk/lockable_slice.go.
-- - Execute: sdk/executable.go with what it calls of sdk/transaction.go and sdk/query.go;
--   Execute/Loop is `_Execute`, by recursion on the attempts left. Execute/Changes carries an
--   invariant through the loop; Execute/Network, Delays and Outcomes are theorems. What the query for
--   the address book gives, and the requests that are built, are arguments.
-- - Transfer: sdk/transfer_transaction.go with `Compare` of the IDs; Transfer/Tokens has the token
--   and NFT transfers, Transfer/Validate the check of the checksums.
-- - Topic: the chunks of sdk/topic_message_submit_transaction.go and sdk/topic_message_query.go;
--   Topic/Pieces and Topic/Chunks are theorems on cutting and joining.
-- - Checksum: sdk/entity_id.go.
-- - EntityId: the Solidity and EVM addresses of sdk/id.go and sdk/topic_id.go; EntityId/Solidity is theorems.
-- - Stream: `processProtoMessageStream` of sdk/mirror_node.go.
-- - Abi: `Type` of sdk/abi_type.go is AbiType; Abi/Encode is sdk/abi_encode.go, Abi/Decode
--   sdk/abi_decode.go, Abi/Format `Format`, Abi/Words and Abi/Hex their words and texts. Go values that the
--   code meets by reflection are Value. All recursion is on the type, so no fuel is needed. Abi/Spec
--   is the encoding that the contract ABI specifies, by recursion on the proof that a value fits its
--   type; Abi/Sizes, Encoding, Reads, Tuples, Cases, RoundTrip, Safe, Typed and
--   Soundness are theorems.
-- - Contract: sdk/contract_function_parameters.go, sdk/contract_function_selector.go and sdk/math.go, with
--   one function for each method in Contract/Params and Contract/Selector and the names of the types
--   in Contract/Names. The hash is an argument. Contract/Layout, Integers, Numbers, Writes,
--   ArrayWrites and ReadBack are theorems.
-- - Tests in each part: runs at concrete inputs.
--
-- Conventions. Time is in nanoseconds and a reading of the clock is an argument, as are random indices,
-- answers of nodes, failures to close a connection, and the conversions to protobuf. int64 sums wrap; a
-- length is a natural number. A map is an association list in the order of one iteration. A panic is
-- `none` or a constructor of its own. The array behind an input of the ABI decoder ends with the input.
--
-- Not modelled: gRPC channels and TLS, logging, the generated protobuf code in proto, cryptography
-- (keys, mnemonics, signing), the reading of type texts, of JSON and of structs by the ABI codec,
-- the parsing of IDs from text, hbar conversions through floats, the other transactions and queries,
-- the client's configuration, tck and examples. Goroutines are not interleaved: each operation of a
-- network is one step, as under its lock.
pub mod Base
pub mod Rlp
pub mod Node
pub mod Network
pub mod LockableSlice
pub mod EntityId
pub mod Execute
pub mod Transfer
pub mod Topic
pub mod Abi
pub mod Contract
pub mod Checksum
pub mod Stream
