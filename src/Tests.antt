-- ===== src/Tests.antt =====
-- The theorems at concrete inputs. Memory holds the libraries as they would be in memory; each of
-- the other children applies the theorems about one part.
mod Memory
mod Data
mod Store
mod Rankings
mod Services
mod Messages
mod Handlers
mod Queries
mod System
mod Startup
mod Conversion
