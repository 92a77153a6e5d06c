-- ===== src/Decoders.antt =====
-- decoders/: one module per protocol. Importing them fills the table of intents.py.
pub mod Erc20
pub mod Transfers
pub mod Erc4337
pub mod Uniswap
pub mod UniversalRouter
pub mod Routers
pub mod Relay
pub mod Signatures
pub mod Registry
pub mod Sound
pub mod Dispatch
pub mod Rules
pub mod Registered
pub mod Loading
pub mod Examples
