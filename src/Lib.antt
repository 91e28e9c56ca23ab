-- ===== src/Lib.antt =====
-- A verification library for moty, a C inference engine for large language models.
--
-- The program loads a model (c/io, c/tok, c/runtime), runs it (c/engines on the kernels of c/nn and
-- c/hw) and serves it (c/api).
--
-- Grammar drafts, c/util/grammar.h. A GBNF text is parsed into a grammar; a walker, a pushdown
-- automaton over bytes, follows the output of the model; where only one byte can follow, that byte is
-- proposed as a draft, which the model then verifies.
--   Grammar/Syntax: GrCls, GrSym, GrAlt, GrRule, Grammar, GrFrame, GrStack. A stack is the list of
--     its frames from the top, each index its 16 bits; a class of bytes is a Boolean function.
--   Grammar/Build, Grammar/Lexer, Grammar/Parser: gr__alt_new, gr__push, gr__rule, gr__anon and
--     gr__postfix; gr__ws, gr__idlen, gr__esc, gr__lit and gr__cls; gr__alts and gr_parse. A text is
--     the list of its bytes before the NUL; a read past the NUL is the result `overread`. The
--     messages of `err` are the constructors of `Error`.
--   Grammar/Walker: gr__set_add, gr__normalize, gr_state_init, gr_accept. The result `overflow` is
--     -1, the walker switched off, and `fault` a read out of an array.
--   Grammar/Draft: gr_admissible, gr_forced.
--   Grammar/Language: the words of a grammar, which the code does not define.
--   The rest of Grammar: proofs, named for what they prove, and tests.
-- Grammar feed, c/engines/glm.c: Feed has grammar_reset and gr_feed, which keep the walker in step
--   with the bytes of the emitted tokens. The bytes of a token come from Tok/Decode.
-- Choice of experts, c/io/tier.c: Tier has the score of an expert and the two picks of a
--   swap, with Tier/Picks about what they choose. Scores and counts are natural numbers with the wraps of `uint32_t`
--   written out.
-- Cache of experts, c/runtime/moecache.c and c/runtime/moe.h: ExpertCache has expert_cache_init,
--   expert_get and expert_pin on a record of the slots in use and the arrays of counts. It takes
--   `lfru_score` from Tier. `none` is a read out of an array. ExpertCache/Victim is
--   about the choice of the expert to evict, /Touched, /Get, /Resident and /Pins about the operations. The hook that reads the weights of an expert is the parameter `load`.
--
-- Parallel loops, c/nn/par.h and c/nn/par.c: Par has moty_par_range, the static shares of a team and
--   the steps of run_share on the shared counter, in any order of the threads.
--
-- Tokenizer, c/tok/tok.h: a string is the list of its bytes and an id a number; in `Tok` the hash maps
--   are functions; the tables of c/tok/tok_unicode.h the parameter `Classes`.
--   Tok/Utf8, Tok/ByteMap: u8_next and u8_put; tk_build_bytemap.
--   Tok/Bpe, Tok/Pretok: bpe_core, bpe_piece and sp_piece; pretok_chunk and pretok_digit_segments.
--   Tok/Encode, Tok/Decode: tok_encode and tok_id_of; tok_decode.
--   Tok/HashMap: hm_init, hm_put and hm_get, and the loops of tok_load that fill a map;
--     Tok/HashMapLaws is about them.
--   The rest of Tok: proofs, named for what they prove, and tests.
-- API, c/api/api.c: a handle over the operations of an engine, which are a parameter, as are the
--   sampler and the caller; a failure under a trap is a result.
--   Api/Types: the types of c/api/moty.h and c/runtime/engine_api.h, and the state of a handle.
--   Api/Sampling, Api/Draft, Api/Decode, Api/Generate: moty_generate in the order of its parts, the
--     checks, the proposals of the lookahead, emit_tok and the loop, and the whole call.
--   Api/Open: moty_model_open_with and moty_model_close, with an engine's open and close, the files
--     and the memory for the handle as parameters.
--   Api/Reference: an engine whose state is the tokens, with which others are compared.
--   The rest of Api: proofs, named for what they prove, and tests.
--
-- JSON, c/util/json.h: Json/Strings has j_parse_str_raw on the bytes before the NUL, with `overread`
--   for a read past it; Json/Quoted is about it. Json/Values has j_parse_val and json_parse, with
--   the levels of nesting that J_MAX_DEPTH leaves; Json/Ends is about them; Json/Access has json_get.
--   strtoul and strtod are parameters.
--
-- Schemas, c/util/schema_gbnf.h: Schema/Texts has the texts that are compared and written,
--   Schema/Writer sgb_put, sgb_fail and sgb_put_json_string_lit, Schema/Values sgb_value, the writers
--   of its cases and schema_to_gbnf. The levels left are the fuel, 33 for the depths from 0 to
--   SGB_MAX_DEPTH. The text of a number, libc's, is the parameter `number_lit`; the messages of
--   `err` are the constructors of `Fault`. Schema/Supported says which schemas are taken; the rest
--   of Schema: proofs and tests.
-- Open addressing: Hash/Probe has the search loop that hm_put and hm_get of c/tok/tok.h,
--   st_hash_build and st_find_exact of c/io/st.h share, Hash/Mask the mask, Hash/Fnv the hash
--   function, Hash/Capacity the loop that sizes a table. A search that does not end is the result `full`. The rest of Hash: the
--   function that a table stands for, and what a write makes of it.
-- Tensor files, c/io/st.h: Shards/Tensor has st_tensor and shards, Shards/Index st_hash_build,
--   st_find_exact, st_find, st_canon, st_has, st_expect, st_numel, st_nbytes and st_dtype,
--   Shards/File st_open_fd, st_index_file and st_init_file. A file is the list of its bytes; the
--   conversion of a double to int64_t is the parameter `int_of`. The rest of Shards: proofs and tests.
--
-- GGUF, c/io/gguf.h: Gguf/Cursor has gc_u, gc_bytes, gc_str, gg_esz and gg_read_val. A pointer into
--   the buffer is a position; the bits of a floating-point number stay bits. The rest of Gguf:
--   proofs and tests.
--
-- Scratch arena, c/nn/alloc.c and c/nn/nn_alloc.h: Scratch has scr_reset, scr_free, scr_reserve and
--   scr_take on the addresses and the bytes of one block. The allocator mrealloc, which rests on the
--   libc and on mmap, is a parameter.
--
-- Fuel. gr__normalize recurses to the depth 64, which is its fuel. `items` and `rules_loop` of the
-- parser take one more than the length of the text; each round consumes a byte, so that the result
-- `no_fuel` does not occur. scr_reserve doubles its capacity in at most as many rounds as bytes are
-- asked for, since it starts at one byte or more and no round overflows up to 2^62 bytes. The
-- loops of the tokenizer and of JSON take as many rounds as there are bytes, code points or symbols, and each takes one of them at least; the decode loop as
-- many as tokens are asked for. A search of a table looks at as many slots as there are. The loop over
-- a capacity gets 33 rounds: after 32 the capacity is 0 and stays 0. All other loops are structural.
--
-- Allocations are taken to succeed, but for mrealloc in the arena. Not modelled: the numeric kernels (floating point), which are
-- the bulk of c/nn and c/hw; the engines, loaders and allocation tracker, which are mostly I/O and
-- floats; the loading of a tokenizer; the locks, times and messages of
-- the API; slurp_file; the mappings, the reads of tensors and the directory scan of c/io/st.h; the lookups and the index of c/io/gguf.h; the wake-up and the barrier of the thread pool, which rest on pthreads;
-- the route bias and the top-K of c/runtime/moecache.c, which work on floats.

pub mod Base
pub mod Grammar
pub mod Tier
pub mod ExpertCache
pub mod Par
pub mod Scratch
pub mod Feed
pub mod Tok
pub mod Api
pub mod Json
pub mod Hash
pub mod Shards
pub mod Schema
pub mod Gguf
