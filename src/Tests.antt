-- ===== src/Tests.antt =====
-- The model at concrete values.
mod Sample
mod Streams
mod Codecs
mod Systems
mod Filters
mod Exchanges
mod Registries
mod Launches
mod LongIndexes
mod Contexts
mod Modules
mod Pages
mod Warnings
mod Flows
