-- ===== src/Tests.antt =====
-- Concrete runs of the program, on a Redis server in memory and a plain SDK.
mod Data
mod Ws
mod System
mod Turns
mod Together
mod Service
mod Rest
mod Fees
mod Start
