-- ===== src/Relay.antt =====
-- influxdb-relay: a write relay in front of InfluxDB backends, with a retry buffer per backend.
pub mod Response
pub mod BufferList
pub mod Retry
pub mod Http
pub mod Udp
pub mod Service
mod Tests
