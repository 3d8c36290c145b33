-- ===== src/Lib.antt =====
-- The verification library of droidsaw-dex, a decoder, analyser and emitter of Android DEX files.
--
-- The program reads the bytes of a method's code into instructions, builds a control-flow graph of
-- them, analyses and prints it, and writes files back. The library models these parts:
--
-- - Opcodes: src/opcodes.rs. The enumeration `Opcode`, `to_u8`, `from_u8` and `mnemonic`.
-- - Decode: src/decode.rs and the checked arithmetic of src/error.rs. `Format` holds the table of the
--   instruction formats, `Insn` the instruction and its references into the pools, `Reader` the reads
--   with bounds checks, `Single` the function `decode_single`, `Item` the record of a code item, `Payload` the
--   decoders of switch and array payloads, `Stream` the function `decode_insns`: `Stream/Step` is a
--   round of its loop, `Stream/Checks` what follows the loop, `Stream/Insns` the whole.
-- - Emit: src/emit_dex.rs, from `push_u16` to `emit_instruction`. `Operands` holds the checks of the
--   operand fields, `Instruction` the match on the format, `Payload` the emitters of payloads. The
--   round trips are in `RoundTrip` for instructions and in `Tables` for payloads.
-- - Cfg: src/cfg.rs. `Blocks` finds leaders and cuts the blocks, `Edges` adds the edges, `Build` is
--   `Cfg::build`, `Views` the graph with and without the edges to exception handlers. `Boundary`
--   says, apart from the code, which addresses have to start a block; `Leaders` and `Inside` relate
--   it to the leaders and to the blocks of a graph.
-- - Header: src/header.rs, and `emit_header` and `finalize_checksums` of src/emit_dex.rs in
--   `Emit/Header`. The two hash functions are parameters.
-- - Leb: src/mutf8.rs. The LEB128 readers of droidsaw_common are the record `Leb128`, with their
--   documented behaviour in `IsLeb128` and `IsWriter`.
-- - Debug: src/debug.rs. `Machine` holds the state and the opcodes of the state machine, `Parse` the
--   function `parse_debug_info`, `Lookup` the look-ups of names, `Scan` the function
--   `scan_debug_info_bytes`. `Rounds` is the rule for what every opcode keeps.
-- - Annotation: src/annotation.rs, and the emission of encoded values in src/emit_dex.rs. `Value` holds
--   the values, `Primitive` the function `decode_primitive_encoded_value`, `Frames` the frames of the
--   stack and `Walk` the loop over them with its parsers. On the other side `Emit/Value` holds the
--   widths and the values that hold no others, `Emit/Value/Tasks` the loop over the tasks of
--   `emit_encoded_value`, and `Emit/Value/Spec` the encoding by recursion on the value. `Items` holds
--   the parsers of sets, directories and arrays, and `Emit/Annotation` their emitters.
-- - ClassData: `parse_class_data_with_consumed` of src/decode.rs with src/access_flags.rs, and
--   `emit_class_data_item` of src/emit_dex.rs in `Emit/ClassData`. `Written` and `ReadBack` relate
--   their loops to the bytes of a list.
-- - Optimize: src/optimize.rs. `Classes` holds the sets of opcodes, `Fold` the function `try_fold`,
--   `Pick` the function `pick_const_opcode` and what `constant_fold` makes of one instruction;
--   `Range` and `Emitted` relate them to the range of the ints and to the emitter.
--
-- The decoder's `Instruction` is what the graph builder reads and the emitter writes. A fallible
-- function returns a result whose error carries the variant and its numbers, without the texts. In
-- the graph builder `none` stands for the panic of an index out of range.
--
-- Numbers: u8, u16, u32 and usize are natural numbers, with `% 2 ^ w` for a cast and a test against
-- `2 ^ w` for checked arithmetic; i8 to i64 are integers, read from a bit pattern by `as_signed w`
-- and written by `low_bits w`. A usize has 64 bits. The decoder keeps addresses below 2 ^ 32; the
-- graph builder adds them without a check, which is modelled on unbounded numbers, and the key of a
-- packed switch wraps, as in a release build; so does the arithmetic of constant folding, where a
-- division by zero is a panic. Bytes are a list of numbers below 256. Loops are
-- structural recursion. The loop of `decode_insns` counts its rounds: `insns_size` of them are
-- enough, since each moves the address on. So do the loops over a debug info, with one round for
-- each byte, and the walk over encoded values, with one round more than there are bytes. The
-- emission of a value makes one round for each of its tasks. `bound_count`, which droidsaw_common provides, is a
-- parameter of the payload decoders and of the walk, with its documented behaviour in `IsBoundCount`.
--
-- Not modelled: the text output (emit.rs, smali.rs, classes.rs), the heuristics, the reports, and
-- droidsaw_common, whose source is not in the repository.
pub mod Prelude
pub mod Opcodes
pub mod Decode
pub mod Emit
pub mod Cfg
pub mod Optimize
pub mod Debug
pub mod Header
pub mod Tests
pub mod Annotation
pub mod ClassData
pub mod Leb
