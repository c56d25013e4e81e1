-- ===== src/Examples.antt =====
-- Concrete instances and states, and runs of the theorems on them.
mod Fixtures
mod Numbers
mod Nodes
mod Work
mod Running
mod Training
mod Exchanges
mod Starting
mod Living
