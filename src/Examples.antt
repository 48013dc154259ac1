-- ===== src/Examples.antt =====
-- Inputs at which the theorems apply, and tests of the definitions.
mod Values
mod TxButton
mod Forms
mod Context
mod Pages
mod Lists
mod Runs
mod Node
mod Council
mod Views
