-- ===== src/Tests.antt =====
-- Concrete inputs for the modelled functions, and the theorems applied to them.
mod Text
mod Rows
mod Trees
mod Inserts
mod Creates
mod Updates
mod Users
mod Queries
mod Lookups
mod Printed
mod Sessions
mod Nodes
mod Selects
