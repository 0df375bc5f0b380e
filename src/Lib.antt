-- ===== src/Lib.antt =====
-- shecc, the self-hosting C compiler: a model of its lexer and back end and what holds of it.
--
-- The compiler parses C into an SSA form (src/parser.c, src/ssa.c), allocates registers
-- (src/reg-alloc.c), which gives lists of phase-2 instructions (`ph2_ir_t`, one list for each basic
-- block), rewrites these by local patterns (src/peephole.c), lays the blocks out and writes machine
-- words (src/riscv-codegen.c with src/riscv.c, or the ARM pair), and wraps them in an ELF file
-- (src/elf.c). The modules here model the passes from the phase-2 instructions to the machine
-- words of both targets, the ELF file, the lexer's tokens, and the hash map and the string buffers
-- that they share.
--
-- Prelude is what all modules share. A C `int` is its bit pattern, a number below 2 ^ 32
-- (Prelude/Word); Prelude/Bits holds the facts on `&`, `|` and `^` with masks.
--
-- Riscv is src/riscv.c: `extract_bits`, `hi`, `lo`, `encode_R` and the other encoders are the
-- functions with the prefix `rv_`; Riscv/Op is the enumeration `rv_op`, Riscv/Reg the registers,
-- Riscv/Asm the functions `__add` to `__sext_b`. A call of `fatal` is `none`. Riscv/Isa is a
-- decoder written after the instruction formats, independent of the code; Riscv/Fields and
-- Riscv/Decoded compare the encoders with it, Riscv/Immediate is about `rv_hi` and `rv_lo`, and
-- Riscv/Machine runs the decoded words of straight-line integer code on the registers.
--
-- Ir is `opcode_t` and `ph2_ir_t` of src/defs.h, without the `next` link: a block is a list. Basic
-- blocks are named by numbers. Ir/Semantics gives the instructions a meaning, a machine of word
-- registers, frame slots and global slots; control flow, calls and memory behind pointers are any
-- function of the instruction and the state. It is a specification and models no code.
--
-- Peephole is src/peephole.c. Peephole/Rule is what the patterns are made of; its loop for the
-- exponent of a power of two has fuel 32, and a positive `int` is halved 30 times at most.
-- Peephole/Fusion, Simplify, Strength, Bitwise, Moves and Memory hold the functions, one definition
-- for each pattern and one for the chain; a Sound beside a module proves what its patterns keep.
-- Peephole/Laws has the theorems on the functions, Peephole/Driver the walk over a block, with the
-- block's length as fuel, and Peephole/Faults the inputs at which a pattern changes the program.
-- The walk of `peephole` over the functions and their blocks is not modelled: it applies the walk
-- to each block. The `tail` link of a block's list, which the pass leaves as it is, is not either.
--
-- Words is what a sequence of `emit` calls writes, and Program the loops that both back ends share:
-- `cfg_flatten` over functions and blocks and `code_generate` over the flattened instructions, for
-- a record of the back end's operations. Program/Placed and Program/Whole say where the code of
-- each block stands, for a back end that reserves what it writes; each back end fills that
-- interface.
--
-- Codegen is src/riscv-codegen.c: Codegen/Size is `update_elf_offset`, Codegen/Soft the words that
-- replace a multiplication and a division, Codegen/Emit is `emit_ph2_ir`, and Codegen/Layout
-- compares the two. Codegen/Start is `cfg_flatten` and `code_generate`, and Codegen/Start/Placed
-- compares them. Codegen/Flatten is the same loop over one block with the offset as the code has
-- it, and Codegen/Constant runs the words for a constant. The globals that `emit_ph2_ir` reads are
-- the record `Env`: the offset of a block or of a function is a field that is a function.
-- `elf_code` is a list of words. The theorems on whole programs are for those that have a `main`.
--
-- Arm is src/arm.c, in the same form: Arm/Op the enumerations, Arm/Asm the functions `__svc` to
-- `__sxth`, Arm/Fields the fields read back by the manual. The loop of `__mov` that rotates an
-- immediate has fuel 16; a positive `int` above 255 is shifted by two bits 15 times at most.
--
-- ArmGen is src/arm-codegen.c: Size, Soft, Emit, Layout, Start and Start/Placed as for RISC-V, and
-- Plt is `plt_generate`, whose loop has the bytes of the table as fuel, 12 for each round.
-- ArmGen/Lower is src/arch-lower.c. The constants of the table are those that mk/arm.mk defines.
-- `plt_generate`, which `code_generate` calls first for dynamic linking, writes another buffer.
--
-- Hashmap is the hash map of src/globals.c. Hashmap/Key is `strcmp` on keys; a search has the
-- number of slots as fuel, since it ends where it began. Hashmap/Probe and Search say where a
-- search ends, Count counts the occupied slots, Valid is the invariant, Write, Insert and Rehash
-- say what an operation changes, and Put has the theorems on the operations. The `while` loops of
-- the four functions are one definition, with the test of a key as argument. Keys are not null, an
-- allocation does not fail, and `hashmap_free` is not modelled.
--
-- Strbuf is `strbuf_t` of src/globals.c: memory is a function, what `malloc` leaves in it is a
-- parameter, and a write past the capacity is `none`. Strbuf/Laws compares it with the list of its
-- bytes, which Elf takes a buffer as.
--
-- Numeral is `parse_numeric_constant` of src/globals.c, and Numeral/Value the number of a literal.
--
-- Ssa is of src/ssa.c and src/opt-sccp.c: Ssa/Fold is `const_folding` of an instruction, Ssa/Sccp
-- the pass `simple_sccp`, with the branches at the ends of blocks. Variables are numbers, and a
-- record of functions says which are global or marked constant and their `init_val`. Ssa/Meaning
-- gives the instructions a meaning, which models no code: each sets its variable, and what is not
-- computed (control flow, calls, memory) is any function of the instruction and the values. A Sound
-- beside a module compares the instructions before and after.
--
-- Elf is src/elf.c. A buffer is the list of its bytes. The record `Elf` holds the buffers and the
-- globals with the prefix `elf_`, and the functions of `FUNC_LIST` as far as linking needs them;
-- the record `Target` what mk/arm.mk and mk/riscv.mk define. Elf/Bytes and Elf/Align write numbers
-- and padding (three rounds are enough), Elf/Dynamic the sections for dynamic linking (the loop
-- over the table of global offsets has its bytes as fuel), Elf/Sections the names and symbols,
-- Elf/Preprocess is `elf_preprocess`, and Elf/Segments, Elf/Table and Elf/Generate write the
-- headers and the file. `code_generate`, between `elf_preprocess` and `elf_postprocess`, is a
-- function of the state there. Elf/Reader is a reader of the file, written after the format, which
-- models no code; Elf/Readback reads the file back, Elf/Reserved and Elf/Layout are about sizes and
-- addresses, and Elf/Whole puts them together. Sums of sizes are numbers without bound.
--
-- Lexer is src/lexer.c: the record `Lex` is the `strbuf_t` that is read with the location, and a
-- call of `error_at` is `none`. Lexer/Keyword has the tables, Lexer/Scan the loops that fill
-- `token_buffer` (256 rounds are enough, as the buffer is full then, see Lexer/Progress/Rounds) and
-- the numbers, Lexer/Operator the operators, Lexer/Dispatch the other tokens and `lex_token`,
-- Lexer/Stream `gen_file_token_stream`, where a loop over a comment or spaces or a call of
-- `lex_token` without fuel is an outcome apart from an error, and Lexer/Cursor the functions that
-- the parser reads the stream with (Lexer/Kinds numbers the kinds for `==`). A write past
-- `token_buffer` is undefined, and `none` here. The functions of ctype.h are those of the C locale.
-- Lexer/Progress says how far is read, Lexer/Branch and Words what a word becomes, and Keyword/Fast
-- compares the two searches for a keyword. The table is a list; that a hash map finds what was put
-- in it is in Hashmap/Put.
--
-- Not modelled: the rest of src/lexer.c, the preprocessor and the parser, the other passes of
-- src/ssa.c, `optimize_constant_casts` of src/opt-sccp.c, register
-- allocation, the rest of src/globals.c; src/main.c (but for the calls that write the file) and
-- the tools, which are input and output, and lib/c.c, which is compiled into each program.
pub mod Prelude
pub mod Riscv
pub mod Ir
pub mod Peephole
pub mod Codegen
pub mod Arm
pub mod ArmGen
pub mod Elf
pub mod Hashmap
pub mod Lexer
pub mod Numeral
pub mod Program
pub mod Ssa
pub mod Strbuf
pub mod Words
