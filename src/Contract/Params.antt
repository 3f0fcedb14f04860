-- ===== src/Contract/Params.antt =====
-- sdk/contract_function_parameters.go: the methods of the builder.
pub mod Native
pub mod Ints
pub mod Uints
pub mod Arrays
pub mod Bytes
