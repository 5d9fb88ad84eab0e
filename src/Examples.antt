-- ===== src/Examples.antt =====
-- Small concrete kernels on which the theorems are applied, and runs of the code on them.
mod Samples
mod Tools
mod Dispatching
mod Authorizing
mod Executing
mod Registries
mod Stores
mod Subscribing
mod Containers
mod Workflows
mod Conversations
mod Loading
mod Translating
mod Providing
mod Fleets
mod Building
mod Runtimes
