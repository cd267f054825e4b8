-- ===== src/Examples.antt =====
-- Tests, and the theorems at concrete inputs. `toy` stands for keccak256 and the RLP codec.
pub mod Toy
mod Block
mod Codec
mod Frontier
mod CodeStore
mod Records
mod Accounts
mod Record
mod Regions
