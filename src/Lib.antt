-- ===== src/Lib.antt =====
-- Verification of branchscore, a server that scores the options of a question with the next-token
-- logits of a local model. Paths are from the repository's root.
--
-- A request arrives over HTTP (tools/branchscore_server.cpp). The callbacks that llhttp makes collect
-- it in a `ParseContext`, under limits and a bearer check; `handle_connection` routes it, parses the
-- body (src/json.cpp), turns it into decisions (src/systemone_adapter.cpp), checks images and
-- budgets, calls the engine (src/gemma4_decision_engine.cpp), and encodes the response. The engine
-- renders its prompt with src/gemma4_prompt_renderer.cpp, cuts it into tokens with src/tokenizer.cpp,
-- and selects the option with the largest logit with src/categorical_readout.cpp.
--
-- Base, Result, Double: shared names and lemmas; exceptions and postconditions; doubles as bit
--   patterns. A `std::string` is the list of its bytes, a `std::map` a list of fields in the order of
--   its keys, a `std::size_t` a number with its wrap-around written out (`sub64`). Messages of
--   exceptions are left out, their classes and codes are kept.
-- Json: src/json.cpp. Value has the data and its accessors, Parser the class `Parser`, Printer
--   `append_value` and `stringify`. The parser runs on fuel, 4 * length + 4, which is proved to be
--   enough. `std::strtod` and the printing of a double are the parameters `Libc`; that they invert each
--   other on finite numbers is the hypothesis `PrintsNumbers`.
-- Decision: include/branchscore/decision.hpp and decision_limits.hpp.
-- Image: src/image_preprocessor.cpp. Inspect has `ImagePreprocessor::inspect_encoded`, Prepare the
--   sizes of images and their visual tokens, without the pixels; stb_image is the parameters `StbiInfo`
--   and `StbiLoad`, the arithmetic of double the parameter `DoubleMath`.
-- Engine: src/gemma4_decision_engine.cpp. Validate has `validate_request` and
--   `check_position_budget`, Evaluate `estimate_prefill_positions` and `evaluate`. The image
--   preprocessor, the vision encoder, the Prefill engine and what the timings are read from are the
--   parameter `Machine`. Scores, Checks, Sound, Around and Estimate
--   hold the proofs; Preprocessed takes the preprocessor of Image for its part of the parameter.
-- Tokenizer: src/tokenizer.cpp. Vocabulary has `GemmaTokenizer::Impl` and its look-ups, Merge
--   `tokenize_segment` with its loop of merges, Segments `tokenize_raw` and `tokenize`, AnswerLabel
--   `tokenize_answer_label`, Load `from_gguf`, for which the open file is the parameter `Gguf`. The
--   loop of merges runs on fuel, 3 for each symbol and one more: a round takes a bigram from the
--   queue, and one that merges adds two at most and empties a symbol. The loops over the text have
--   one round for each byte and one more. Linked has the invariant of the symbols, Spelling what
--   tokens spell, Split the tokens of a text of two parts.
-- Readout: src/categorical_readout.cpp. Float has the comparisons of `float` on bit patterns, Summary
--   the checks of `gather_categorical_logits` and `summarize_categorical`; the graph is the parameter
--   `Logits`, the arithmetic of `double` and `std::exp` the parameter `Arithmetic`.
-- Adapter: src/systemone_adapter.cpp. Base64 has `decode_base64`, Request `parse_request`, Response
--   `make_response`; the modules below them and Valid hold the proofs.
-- Server: tools/branchscore_server.cpp. Authorization has the text helpers and the bearer check,
--   Context the callbacks, Intake `receive_request` over a list of what the socket gives, Replies
--   the statuses and bodies, Handle `handle_connection`, Startup `parse_arguments` and what `main` does
--   before it loads the model. llhttp is the parameter `LlHttp`: it makes
--   any callbacks, in order, and stops at the first that does not return `HPE_OK`. The engine, the time
--   and the page of the user interface are parameters.
-- Prompt: src/gemma4_prompt_renderer.cpp and src/gemma4_answer_labels.hpp. Sha256 has the class
--   `Sha256`, Render the identity, the labels and `render`. The reasoning policy has one value, so
--   the check of it is left out.
-- Prefill: src/prefill_engine.cpp. Schedule has the checks of `PrefillEngine::prefill`, of the width of
--   the visual tokens, of the length and, in `StateCache`, of the capacity, and its loop over the
--   chunks with what each chunk gets as input; a column of the input is the token or the visual token that
--   it comes from. The loop runs on fuel, one round for each position and one more.
-- Cache: `StateCache` of src/state_cache.cpp. Tensors are their widths; ggml allocates them in the
--   program, which is left out.
-- Tests: runs at small inputs, among them the digest of `abc`, and an instance of each theorem.
--
-- Not modelled: sockets and signals, which are system calls; the command line tools; the graphs of the
-- vision encoder, of prefill and of the readout, the model loader and the backend, which call ggml.
pub mod Base
pub mod Result
pub mod Double
pub mod Json
pub mod Decision
pub mod Image
pub mod Engine
pub mod Adapter
pub mod Server
pub mod Prompt
pub mod Tokenizer
pub mod Readout
pub mod Prefill
pub mod Cache
pub mod Tests
