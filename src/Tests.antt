-- ===== src/Tests.antt =====
-- The theorems applied to concrete inputs.
mod Inputs
mod Transactions
mod Documents
mod Manifests
mod Files
mod Recipes
mod Repository
mod Selections
mod Matches
mod Seals
mod Opening
