-- ===== src/Tests.antt =====
-- Witnesses and test data for the theorems.
mod Login
mod Privileged
mod Channel
mod Strings
mod Listener
mod Config
mod Transfers
mod Addresses
mod Memory
mod Names
mod Reload
mod Session
