-- ===== src/Lib.antt =====
-- A verification library for the C runtime of TravLang.
--
-- The runtime is a set of primitives that compiled programs call. Parts are modelled one by one, each in
-- the modules named for it; paths below are from the root of the repository.
--
-- Common holds what the parts share: tests on numbers, binary digits, lists under native indices, reads and writes that
-- may be out of bounds, machine words, signed integers, and a fold over blocks of a byte sequence.
--
-- Lexing models runtime/lexing.c, the engine that runs the tables of a generated lexer. Lexing has the
-- tables, the buffer and one round of `caml_lex_engine`; Lexing/Engine the loops of both engines and the
-- memory moves of `caml_new_lex_engine`. A round that goes on has read a character or used up the end of
-- the input, so a call runs on fuel of the characters left and two, and is proved to end on it.
--
-- Parsing models runtime/parsing.c, the engine that runs the tables of a generated parser. Parsing has the
-- tables, the environment and the look-ups; Parsing/Engine one function for each label of
-- `caml_parse_engine` (`loop`, `testshift`, `recover`, `shift`, `push`, `reduce`, `semantic_action`), where a
-- `goto` is a call, and the only way back, to `loop`, is a result of its own. It runs on fuel three.
-- The engine stops to let the program read a token, run an action or grow the stacks, and is entered again
-- by a command; those parts of the program are written in the language itself.
--
-- Digest/Md5 models runtime/md5.c and runtime/caml/md5.h, and Digest/Blake2 runtime/blake2.c and
-- runtime/caml/blake2.h, on a little-endian machine: `transform` and `compress` are the block functions,
-- and the contexts with their operations are called as in the source. Loops over data run on fuel of its
-- length. The reference definitions, of a whole message at once, follow RFC 1321 (Digest/Md5/Rounds has its
-- block function, Digest/Md5/Reference the rest) and RFC 7693 (Digest/Blake2/Rfc7693); with the model they
-- share only types and the bytes of words. Digest/Md5/Blocks and Digest/Blake2/Blocks are on the block
-- functions, and Stream and Session on the contexts.
--
-- Strings models runtime/str.c and the allocation of strings of runtime/alloc.c on the bytes of a block of
-- whole words: Strings/Layout has the padding that tells the length, Strings/Access and Strings/Update the
-- checked reads and writes (`caml_string_get16` is `string_get16`, and so on), Strings/Equality and
-- Strings/Order the comparisons. Fresh memory is a parameter, since the allocator is not modelled, and so
-- is the outcome of a comparison of pointers.
--
-- Integers models runtime/ints.c: Integers/Literals reads literals, and Integers/Overflow gives literals a
-- meaning without bounds to compare with; Integers/Words has the operations on words of 32 and 64 bits (a
-- division that C leaves undefined is a result of its own),
-- and Integers/Laws the integers that they stand for. The loop over digits is recursion on the string.
--
-- Channels models runtime/io.c. On the output side the channel carries the bytes that the system has taken
-- and the replies that it is going to give, a list, and a call without a further reply waits. Channels has
-- the operations, Channels/Output flushing, Channels/Puts what puts bytes. The loop of `caml_flush` runs on
-- fuel of the buffered bytes and one, that of `caml_really_putblock` on the length of the block and two,
-- since a first round may find no room; both are proved not to run out.
-- Channels/Input is the input side: the channel carries the bytes still to be read and the replies to come,
-- and the loop of `caml_really_getblock` runs on fuel of the bytes asked for and one. Channels/Reads and
-- Channels/Gets are on what it reads.
--
-- Interpreter models runtime/interp.c on 64-bit words, with the opcodes of runtime/caml/instruct.h and some
-- macros of runtime/caml/mlvalues.h. Interpreter has the registers, values and heap of `caml_interprete`,
-- and each section of its instructions a module: Interpreter/Access the stack and the environment,
-- Interpreter/Blocks globals, blocks and arrays, Interpreter/Calls application and closures,
-- Interpreter/Arithmetic integers, Interpreter/Control branches, exceptions and C functions,
-- Interpreter/Methods method look-up. Interpreter/Machine takes the steps. C functions and the exception of
-- a division by zero are parameters. The heap is a list of blocks that only grows. `run` takes as many
-- steps as it is given; the search of a method has fuel for each place of the table. The other
-- modules of Interpreter are on what several instructions do together.
--
-- Bigarray models runtime/bigarray.c, the descriptors of big arrays, which carry the address of their data:
-- `element` is the first part of `caml_ba_get_N` and `caml_ba_set_aux`, and `create`, `slice`, `sub`,
-- `change_layout` and `reshape` are the primitives. `malloc` is a parameter. Bigarray/Offsets counts the
-- elements, Bigarray/Bounds and Bigarray/Elements have the indices and their elements, Bigarray/Made the
-- allocation, and Bigarray/Slices, Bigarray/Layouts and Bigarray/Reshaping the views of an array.
--
-- Trees has values as finite trees, and Compare models runtime/compare.c on them: `compare_turn` is the body
-- of the loop of `do_compare_val`, with the stack of blocks still to be compared, and `compare_loop` runs on
-- fuel of the size of both values. The equality of pointers is a parameter. Compare/Reference is the
-- comparison by recursion, Compare/Turns, Compare/Kinds and Compare/Loop are on the loop, Compare/Order has the
-- order as a relation, and Compare/Signs, Compare/Agreement and Compare/Results have what the signs of the results
-- say of it.
--
-- Marshal models the codes of runtime/extern.c (Marshal/Output: `extern_int`, `extern_header` and so on give the
-- bytes that they write) and of runtime/intern.c (Marshal/Input: `read_item` is the switch of `intern_rec` on the
-- next code). Marshal/Bytes, Marshal/Numbers, Marshal/Codes, Marshal/Blocks and Marshal/Texts read back what is
-- written. The loop of `storevlq` has fuel for ten digits of seven bits, which a word of 64 bits does not exceed.
--
-- Warshall models yacc/warshall.c of the parser generator, on a matrix of bits in the rows of words that the C
-- code walks through by pointers. Its loops count rows. Warshall/Bits has the bits of words, Warshall/Rows one
-- round over the rows, Warshall/Closure and Warshall/Paths the rounds together, Warshall/Diagonal the reflexive
-- closure.
--
-- In the engines and the digests a read or write that leaves a table or a buffer, which the C code does not check, is a
-- fault of the model. Words are natural numbers with the wrap-around written out.
--
-- Not modelled: the strings, floating-point blocks, fibers, signals and debugging of the interpreter,
-- the elements, proxies and copies of big arrays, floating-point numbers and custom blocks in
-- comparisons, hashing, the walks through marshalled values, the garbage collector and the domains
-- (concurrent code over raw memory), system calls, floating-point numbers, bitwise operations of the
-- integers, formats, the rest of the parser generator, and the compiler, which is not written in C.
pub mod Bigarray
pub mod Channels
mod Common
pub mod Compare
pub mod Digest
pub mod Integers
pub mod Interpreter
pub mod Lexing
pub mod Marshal
pub mod Parsing
pub mod Strings
mod Tests
pub mod Trees
pub mod Warshall
