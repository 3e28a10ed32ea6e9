-- ===== src/Lib.antt =====
-- A verification library for xcbuild, a build tool for Xcode projects.
--
-- The program: Libraries/libutil has paths, filesystems and text helpers; Libraries/plist reads and
-- writes property lists; Libraries/dependency has dependency files; Libraries/pbxsetting has
-- build settings, their expressions and the environments that resolve them; Libraries/pbxbuild
-- turns a project into build steps, orders targets and steps by a directed graph, and writes the
-- header maps of a compiler; Libraries/ninja writes the files of the build tool Ninja.
--
-- The files:
--   Prelude   what the modules share: tests, lists, and `std::string` as a list of bytes (Text).
--   Path      Libraries/libutil/Sources/Relative.cpp and Unix.cpp. A path is its raw bytes;
--             `normalized`, `child`, `parent`, `base` and `extension` are the methods of those
--             names. Path/Components, Path/Normalize and Path/Names have the proofs.
--   Wildcard  Libraries/libutil/Sources/Wildcard.cpp; `match` is `Wildcard::Match`.
--   Escape    Libraries/libutil/Sources/Escape.cpp; Escape/Shell has a reader of shell words.
--   Graph     Libraries/pbxbuild/Sources/DirectedGraph.cpp; `insert`, `adjacent` and `ordered` are
--             its methods. Graph/Loop, Graph/Rounds and Graph/Visits have the loop's invariant.
--   Settings  Libraries/pbxsetting/Sources: Lists is Type.cpp, Value is Value.cpp, Operations and
--             Environment are Environment.cpp, Level is Level.cpp, Setting.cpp and Condition.cpp.
--             Environment/Levels has the order of the levels, Environment/Inherited the values that inherit
--             from the levels behind, Environment/Fuel the recursion without an end.
--   Filesystem Libraries/libutil/Sources/MemoryFilesystem.cpp, and `copyFile` of Filesystem.cpp; `walk`
--             and `locate` are its WalkPath, for operations that change the tree and that look.
--             Filesystem/Names has the names of a path, Lookup, Writes and Frames the lemmas on
--             the tree, Operations, Removal, Ranges and Successes the
--             operations.
--   Dependency Libraries/dependency/Sources/BinaryDependencyInfo.cpp; `serialize` and `deserialize`
--             are its methods, `read_from` is the loop of the second, a byte at a time.
--             Dependency/Makefile is MakefileDependencyInfo.cpp: `write_rules` is its `serialize`,
--             `read_rules` its `Deserialize`, a step of a state machine for each byte.
--   Plist     Libraries/plist: Lexer is ASCIIPListLexer.cpp (Readers walks over one token,
--             `read_token` is ASCIIPListLexerReadToken), Unquote its copies of tokens, Writer the
--             strings of ASCIIWriter.cpp, Object the objects, Serializer all of ASCIIWriter.cpp
--             (`handle_object` is its handleObject, `serialize` its write), Parser is
--             ASCIIParser.cpp: `step` is a round of the loop of its `parse`. Lexer/Lengths,
--             Lexer/Bounds, Lexer/Safety, the children of Writer and of Parser have the proofs:
--             Spots is where a value stands, Scalars, Arrays and Dictionaries are its texts,
--             Standing what a parser may be. Json is JSONParser.cpp and Json/Writer JSONWriter.cpp.
--   HeaderMap Libraries/pbxbuild/Sources/HeaderMap.cpp: `add`, `set`, `rehash` and `grow` are its
--             methods, `prepare` what `write` does to the table. HeaderMap/Table has the buckets,
--             Probes the search for a key, Slots the loop of `set`, Entries, Placing, Rehash and
--             Grow the new table, Texts the strings, Keys the keys, Adds and Searches all of `add`.
--   Ninja     Libraries/ninja: `resolve` is that of Value.cpp, the statements are those of Writer.cpp on
--             a buffer. Ninja/Escapes has the escapes in one pass, Reader, Lines and Builds the
--             reading of a build line by the rules of Ninja.
--   DerivedData Libraries/pbxbuild/Sources/DerivedDataHash.cpp: `compute_hash` is its
--             ComputeDerivedDataHash, with MD5 as an argument.
--   Executor  Libraries/xcexecution/Sources/SimpleExecutor.cpp: `sort_invocations` is its
--             SortInvocations, `perform_invocations` and `build_target` are its methods. Executor/Auxiliary
--             is its writeAuxiliaryFiles. Edges has the edges of the graph, Priorities
--             the chain of the priorities, Needs why an invocation waits for another, Schedule the
--             order, Written what the auxiliary files do to the machine, Steps what one
--             invocation does, Runs what is run.
--   Tests     the theorems at concrete inputs, and runs of the definitions.
--
-- How they interact: an environment resolves the references of a value by its levels; a level
-- matches conditions by wildcards; operations on a resolved setting call the path functions. The
-- executor sorts the invocations by the graph. The memory file system walks the names of a
-- normalized path; the writer of make rules escapes names; the parsers of property lists read the
-- tokens of one lexer.
--
-- Bounds and fuel: `ordered` runs with the number of keys and twice the number of keys and entries
-- of the adjacency list as fuel, `Value::Parse` with the length of its text, `ASCIIParser::parse`
-- with twice the number of bytes and two, `JSONParser::parse` with their number and one; all are
-- proved to be enough. The search for a free bucket has the number of buckets and one as fuel,
-- behind which it repeats itself. The recursion of `resolveValue` has no bound in the program: its fuel is an argument.
--
-- Texts are bytes below 256 by intent, which only the data of property lists
-- needs. Unordered containers are lists, in the
-- order of their iteration, which the program leaves open. An output vector of path components is
-- kept with its last element first while the loop runs.
--
-- Not modelled: input and output, processes, the property lists in XML and binary form, the
-- readers of project files, asset catalogs and the other tools, as the parts above do not depend on them.
mod Prelude
pub mod Path
pub mod Filesystem
pub mod Wildcard
pub mod Escape
pub mod Settings
pub mod Dependency
pub mod HeaderMap
pub mod Ninja
pub mod DerivedData
pub mod Plist
pub mod Graph
pub mod Executor
mod Tests
