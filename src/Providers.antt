-- ===== src/Providers.antt =====
-- src/mellivor_kernel/providers: the contract and the registry
pub mod Registry
pub mod ToolCalling
pub mod ChatCompletions
pub mod Factory
pub mod Vendor
pub mod OpenAi
pub mod Claude
pub mod Gemini
pub mod Local
