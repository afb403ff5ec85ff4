-- ===== src/Tests.antt =====
-- Concrete runs of the model, and the properties at concrete inputs.
mod Wheels
mod Texts
mod Data
mod Brokers
mod Clients
mod ClientWorlds
mod Filters
