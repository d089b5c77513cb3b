-- ===== src/Examples.antt =====
-- Tests of the model on small inputs, and the theorems at inputs that meet their hypotheses.
mod Data
mod Control
mod Sessions
mod Wiring
mod Publishing
mod Exchanges
mod Flights
mod Rounds
mod Networks
mod Failures
mod Answered
