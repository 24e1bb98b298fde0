-- ===== src/Lib.antt =====
-- Verification of Chloride, the reference interpreter of the Argon language.
--
-- Chloride reads a source file (src/lexer, src/parser), translates it to bytecode (src/translator) and
-- runs the bytecode (src/runtime). The parts modelled here are those that all the others stand on:
--
-- - DynArray: src/dynamic_array/darray.c and darray.h, the growing array of the lexer, the parser and
--   the translator. A DArray's block is a list of element slots. Each operation has the C function's
--   name without its prefix (darray_push is DynArray.push).
-- - Armem: src/runtime/internals/dynamic_array_armem/darray_armem.c and darray_armem.h, the array that
--   holds the items of an Argon array; memmove and memcpy are those of the block.
-- - Nodes: the chained nodes of both hash tables, a chain as a list and a table as a list of chains.
-- - Hashmap: src/hashmap/hashmap.c and hashmap.h, the table of the compiler's constants and caches.
--   Its insertion and its resize call each other; `insert` takes the depth of that nesting, and two
--   nested calls are always enough, because a resize puts its nodes back into a table that has room.
-- - HashmapGc: src/runtime/internals/hashmap/hashmap.c and hashmap.h, the table of an object's fields
--   and of a dictionary's entries, with three nodes inside the table and a block of chains behind.
-- - Text: parse_hex4, utf8_encode and unquote of src/parser/string/string.c, which read a string
--   literal, and decode_utf8, c_quote_string, char_chr and char_ord of
--   src/runtime/objects/string/string.c, which print a string as a literal and turn code points into
--   strings. Their loops take fuel, one round for each byte of the input; every round consumes a byte,
--   so that is enough.
-- - Bytecode: push_instruction_byte, push_instruction_code, set_instruction_byte,
--   set_instruction_code and set_registers of src/translator/translator.c over DynArray, and the
--   operand fetches POP_BYTE and POP_U64 of src/runtime/runtime.c.
-- - Numbers: src/runtime/objects/number/number.c, numbers as an int64_t or a rational number of GMP, and
--   the instructions DO_ADDITION up to DO_GREATER_THAN_EQUAL and DO_NEGATION of src/runtime/runtime.c.
--   Built has the constructors, Arithmetic sums, differences and products, Divide the three divisions,
--   Power exponentiation, Compare the comparisons, Instructions the registers. GMP is the record Gmp,
--   and Laws what is relied on of it; Tests/Fractions meets them. The loops of a power take the exponent
--   as fuel, which they halve in every round.
-- - Ranges: src/runtime/objects/iterator/range_iterator.c, the iterator over a range, on int64_t and on
--   number objects; `collect` is the loop of src/runtime/objects/array/array.c that calls `__next__` up to
--   StopIteration, and takes its number of rounds as fuel; Ends proves how many are enough.
-- - Slices: src/runtime/objects/slice/slice.c, and `__getitem__` of src/runtime/objects/array/array.c with
--   a slice or an index. Bounds has slice_indices, Indices the size, Picked the items, Getitem the whole.
-- - Translator: src/translator, which turns a parsed program into bytecode. Syntax is the parsed program
--   (src/parser), Opcodes enum OperationType, Constants the arena of names, strings and code, Machine the
--   state Translated with the steps that all files share, Pieces runs of instructions. Control has if,
--   while, for, dowrap, break, continue, return, throw and the conditional expression; Values literals,
--   names, templates, arrays and dictionaries; Calls access, item_access, call, assignment and delete;
--   Scopes declaration, import, class and try; Operations operation.c; Functions function.c; Destructure
--   destructure.c; Dispatch translate_parsed and translate, the recursion over the program. Each file of
--   src/translator is a function that takes the translations of its parts as actions. Holes is about the
--   jumps whose target is set later, Restore proves
--   what a translation puts back, by triples of a frame, an action and a frame.
--
-- How the C code is rendered. A call's outcome is a `Run` (Base/Run): a result, the end of the process
-- by `exit`, or a fault, which stands for undefined behaviour. `size_t` and `uint64_t` keep their
-- wrap-around, an `int` that cannot hold its value is a fault, and shifts are products and quotients by
-- powers of 2. A pointer into a block is a position in it, a `void *` value is its address with 0 for
-- NULL. An operation that holds its structure's lock from its first access to its last is one step.
--
-- Not modelled: allocation failure (checked_malloc and ar_alloc end the process), the read-write
-- locks and the garbage collector, memory that is freed, and the parts of the interpreter named in no
-- line above: lexer, parser, the other instructions of the interpreter loop, the other objects' methods
-- and the native modules.
-- Of the numbers: printing, parsing, hashing, rounding and the powers with a fractional exponent (MPFR).
-- GMP is third-party code. Its answers that the translation of a number asks for are fields of the parsed
-- number, and nothing is supposed of them; the hash function of the arena is any function.
-- siphash, which gives the 64-bit hashes of the keys, is third-party code; the tables are stated for
-- hashes as they come, and a node is found by its hash alone, as in the code.
pub mod Base
pub mod DynArray
pub mod Armem
pub mod Bytecode
pub mod Nodes
pub mod Hashmap
pub mod HashmapGc
pub mod Text
pub mod Numbers
pub mod Scopes
pub mod Ranges
pub mod Slices
pub mod Translator
pub mod Tests
