-- ===== src/Tests.antt =====
-- The concrete inputs and the runs on them: a codec, records, and state directories.
mod Alphas
mod Plans
mod Receipts
mod Releases
mod Nodes
mod Codec
mod Records
mod Operations
mod Manifests
mod Stores
mod Success
mod Runs
