-- ===== src/Tests.antt =====
-- Runs of the model at concrete inputs.
mod Data
mod Runtime
mod Positions
mod Postgres
mod SqlServer
mod MySql
mod Store
mod Stream
mod Cache
mod Config
mod Columns
mod Kafka
mod Formats
mod History
