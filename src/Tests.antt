-- ===== src/Tests.antt =====
-- Runs of the model at concrete inputs, and instances of the theorems at inputs that meet their hypotheses.
mod Callbacks
mod Calls
mod Requests
mod Startup
mod Ends
mod Routing
mod Messages
mod Asleep
mod Updates
mod Buses
mod Drivers
