-- ===== src/Examples.antt =====
-- Concrete runs of the code, and the theorems at concrete inputs.
mod Attachments
mod Sessions
mod Packets
mod Options
mod Peers
