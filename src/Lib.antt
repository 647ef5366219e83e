-- ===== src/Lib.antt =====
-- A model of the core of CyberSentinel-IPS, a network and host intrusion detection and prevention
-- sensor, and proofs of what makes its parts correct.
--
-- The program's parts. `crates/common` has the configuration, the event types and address ranges.
-- `crates/decode` reads the headers of a packet and reports what is wrong with them.
-- `crates/reassembly` turns fragments and segments back into the bytes that the destination will
-- see: a range buffer keeps bytes by absolute offset, and a policy, chosen by destination, says which
-- copy wins where two disagree. Its flow table keeps the conversations within caps and timeouts, and its
-- normaliser gives a path its one spelling.
-- `crates/applayer` reads HTTP requests from the bytes, and `crates/engine` evaluates rules on them.
-- `crates/prevent` keeps the verdicts: a rule that blocks condemns a conversation and its source,
-- and every later packet is judged against that. `crates/correlation` joins what the network half and the
-- host half of the sensor saw of one host into an incident.
--
-- Which file models which part.
-- - Prelude: the names and lemmas that all share. `Option` stands for a result or a panic.
-- - Common/Endpoint: an address with a port, as the keys of flows order them.
-- - Common/Net: crates/common/src/net.rs (`IpNetwork::new`, `contains`, `mask`).
-- - Common/Event: the types of crates/common/src/event.rs that the others use.
-- - Common/Config: `ReassemblyConfig` of crates/common/src/config.rs, its defaults and its check.
-- - Common/Int, Common/Bits: signed offsets, and the bit operations of masks.
-- - Common/Map: the maps of the standard library, as lists of entries.
-- - Reassembly/RangeBuffer: crates/reassembly/src/range_buffer.rs. `write` is `RangeBuffer::write` cut
--   at its early returns into `write`, `write_from`, `write_kept` and `write_into`; `walk` is its
--   loop, and `mark_loop` that of `mark_covered`.
-- - Reassembly/Policy: crates/reassembly/src/policy.rs.
-- - Reassembly/Stream: crates/reassembly/src/stream.rs. `push_pair` is `StreamPair::push`, `offer` its
--   part before the deliveries, and `push`, `store`, `deliver` are the methods of one `Stream`.
-- - Reassembly/Defrag: crates/reassembly/src/defrag.rs. `push` is `Defragmenter::push`, cut at the
--   lookup of the set into `open_set`, `push_into` and `finish`.
-- - Reassembly/Normalize: crates/reassembly/src/normalize.rs. `percent_decode_repeatedly` cuts its loop
--   into `decode_rounds_from` and `after_round`; Normalize/Collapse has `collapse_path`, cut into the
--   split, the walk over the parts (`visit_all`) and the writing (`render`), and `normalize_path`.
-- - Reassembly/Flow: crates/reassembly/src/flow.rs and the limits of lib.rs. Flow/Table has
--   `FlowTable`: `observe` sweeps and makes room, `observe_in` is the rest of it, `absorb_segment` the
--   part that takes a TCP segment, and `end_flow` every end of a flow.
-- - Decode/Anomaly, Decode/Layers, Decode/Transport: crates/decode/src/anomaly.rs, layers.rs and, of
--   lib.rs, `decode_transport` with its three readers, which are cut at their returns.
-- - Applayer/Http: crates/applayer/src/http.rs. `push` is `HttpParser::push`, its loop `read_heads`, with
--   as many turns as there are bytes, since each turn takes some; `parse_head` is cut at its returns.
-- - Rules/Options, Rules/Model: the types of crates/rules/src/options.rs and model.rs that are read.
-- - Engine/Vars: the sets and headers of crates/engine/src/vars.rs.
-- - Engine/Eval, Engine/Evaluate: crates/engine/src/eval.rs. Eval/Window has the window of a content
--   option by its modifiers, and Evaluate/Holds what each option asks for. `step` is one option
--   of the loop of `evaluate`; what a regular expression finds is a parameter.
-- - Correlation: crates/correlation/src/lib.rs. `observe` and `try_correlate` are the methods.
-- - Prevent/Key, Prevent/Store: crates/prevent/src/store.rs and the counters of depth.rs.
--
-- Numbers are natural numbers. Offsets in the range buffer saturate at `u64::MAX` where the source
-- saturates; a slice out of range is a panic, `none`. Instants and durations are numbers of one
-- unit. Counters do not wrap. A loop of the source is structural recursion on the list that it
-- walks; the two that are not have a bound on their turns: the rounds that the source allows for
-- percent-decoding, and in the HTTP parser the number of bytes held, of which each turn takes one.
--
-- Not modelled: packet capture, the kernel queue and nftables (system calls), the network half of
-- the decoder, rule parsing, the multi-pattern matcher,
-- host sensors, storage and alerting, and the command line.
pub mod Prelude
pub mod Common
pub mod Reassembly
pub mod Decode
pub mod Prevent
pub mod Correlation
pub mod Applayer
pub mod Rules
pub mod Engine
