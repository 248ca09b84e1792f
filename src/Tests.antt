-- ===== src/Tests.antt =====
-- Runs of the model at inputs of the repository's tests, and the theorems at concrete inputs.
mod Region
mod Api
mod Auth
mod Navigation
mod Logs
mod Runtime
mod Settings
mod Saving
mod Nodes
mod Overview
mod Workspace
mod Import
mod Users
mod Theme
mod Requests
