-- ===== src/Tests.antt =====
-- Concrete runs of the definitions, and the instances of the theorems.
mod Strings
mod Bounds
mod Servers
mod Policies
mod Caches
mod Messages
mod Deployments
mod Clients
mod Admins
