-- ===== src/Examples.antt =====
-- The theorems at concrete inputs.
mod Sample
mod Requests
mod Store
mod Wallets
mod Service
mod Network
mod Identities
mod Evidence
mod Bindings
mod Settlements
