-- ===== src/Tests.antt =====
-- Concrete runs of the service: the theorems of the other modules at inputs that exercise the code.
mod Data
mod State
mod Route
mod Lifecycle
mod Routing
mod Stores
mod Wire
mod Dns
mod Subscription
mod Health
mod Proxy
