-- ===== src/Tests.antt =====
-- Concrete runs of the program's parts; each child is about the modules that it names.
mod Data
mod Parsing
mod Packets
mod Exchanges
mod Sessions
mod Pppoe
mod Access
mod Start
mod Protocol
mod Stay
