-- ===== src/Tests.antt =====
-- Runs of the model on small inputs, and an instance of each theorem with hypotheses.
mod Codec
mod Adapter
mod Server
mod Prompt
mod Cache
mod Tokenizer
mod Engine
mod Image
mod Prefill
mod Startup
