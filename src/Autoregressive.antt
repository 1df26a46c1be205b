-- ===== src/Autoregressive.antt =====
-- backend/modeldeck/workers/autoregressive_worker.py: the worker around a causal language model.
pub mod PrefixCache
pub mod BodyLimit
pub mod Tools
pub mod Generation
pub mod Service
