-- ===== src/Wasm.antt =====
-- The sandbox for WebAssembly guests (internal/kernel/wasmhost): the ABI, what a guest may ask of
-- the host, and how a capability enters a guest.
pub mod Abi
pub mod CallState
pub mod Keys
pub mod Context
pub mod HostCalls
pub mod Publish
pub mod Grants
pub mod TenantEvents
pub mod Chain
pub mod Host
pub mod Load
pub mod Entry
pub mod ModuleId
pub mod Manifest
pub mod Approval
pub mod Module
mod Examples
