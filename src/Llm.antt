-- ===== src/Llm.antt =====
-- pkg/llm: the tokens that a request will use, the usage that a response reports, and what they add
-- up to. The decoders of encoding/json, the count of runes of unicode/utf8 and the lines of bufio
-- are a parameter.
pub mod Json
pub mod Estimate
pub mod Gate
pub mod Usage
pub mod Metrics
pub mod Total
pub mod Report
mod Tests
