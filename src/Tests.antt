-- ===== src/Tests.antt =====
-- Concrete inputs for the theorems: each witness applies its theorem to data of the kind that the
-- program sees.
mod Service
mod Deliveries
mod Values
mod Pipes
mod Channels
mod Manager
mod Overlap
mod Rabbit
mod Routes
mod Client
mod Queues
mod Whole
mod Consumer
mod Broker
mod Converter
mod Scylla
mod Tasks
mod Etcd
mod Database
mod Settings
