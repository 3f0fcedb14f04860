-- ===== src/Contract/Selector.antt =====
-- sdk/contract_function_selector.go: the methods of a selector.
pub mod Ints
pub mod Uints
pub mod Others
