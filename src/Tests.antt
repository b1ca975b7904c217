-- ===== src/Tests.antt =====
-- Runs of the models at concrete inputs, and the theorems applied to them.
mod Planning
mod Rpc
mod Ingesting
mod Verifying
mod Saving
mod Holding
mod Fetching
mod Ranges
mod Flowing
mod Messages
mod Global
mod Yielding
mod Supplying
mod Capturing
mod Showing
mod Classifying
