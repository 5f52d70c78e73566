-- ===== src/Tests.antt =====
-- The theorems at concrete inputs, by component.
mod Queues
mod Mutexes
mod Gates
mod Drawing
mod Consoles
mod Keys
mod Pcis
mod Rings
mod Commands
mod Boots
