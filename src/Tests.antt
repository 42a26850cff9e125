-- ===== src/Tests.antt =====
-- Runs of the model, and the theorems at concrete inputs.
mod Bytes
mod Maps
mod Timers
mod Sockets
mod Web
mod Served
mod Requests
mod Data
mod Templates
mod Pages
mod Limits
