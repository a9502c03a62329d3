-- ===== src/Tests.antt =====
-- Runs at concrete inputs, and the theorems at inputs that meet their hypotheses.
mod Protocol
mod Transfer
mod FileStore
mod Auth
mod Server
mod Handlers
mod Delivery
mod Reach
mod Granted
mod Offered
mod Directory
mod Writing
mod Log
mod Listing
mod Start
mod Client
mod Showing
mod Exchange
