-- ===== src/Examples.antt =====
-- Concrete inputs for the theorems.
mod Streams
mod Runs
mod Papers
mod Chats
mod Searches
mod Manuscripts
mod Memories
mod Gateways
mod Servers
mod Sheets
mod Feeds
mod Windows
mod Tools
mod Pipelines
mod Turns
mod Extractions
