-- ===== src/Tests.antt =====
-- The theorems at concrete inputs: a small instance of the third-party code, two databases, and
-- the examples.
pub mod Toy
mod Trees
mod Lands
mod Market
mod Online
mod Sales
mod Proofs
mod Api
mod Ledger
