-- ===== src/Tests.antt =====
-- Runs of the model: the theorems applied to concrete services, tables and messages.
pub mod Data
mod Inventory
mod Orders
mod Infrastructure
mod Redelivery
mod Poller
mod Saga
mod System
mod Process
mod Placing
mod Restarts
mod Config
mod Refusing
mod Log
mod Validation
mod Session
