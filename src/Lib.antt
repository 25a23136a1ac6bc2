-- ===== src/Lib.antt =====
-- A model of the ring file of the repository, which is C++ code in src/, and of its two Python tools:
-- the C++ style checker tools/cpplint.py, and tools/fixwhitespace.py (Whitespace.antt). The three share
-- nothing but the helpers of Prelude.antt.
--
-- The parts of the ring file:
--   Varint.antt     class Varint of src/varint.cc: the size of a record as one to ten bytes.
--   Storage.antt    SeekToOffset, WrappingRead and WrappingWrite of src/ringfile.cc: transfers in the
--                   data area of a file, which go round at its end.
--   RingFile.antt   the rest of class Ringfile; RingFile/Streaming.antt has the operations that write
--                   and read a record in pieces.
--   Command.antt    Read, Write and Stat of class Command of src/command.cc, for lines and files;
--                   Command/Parse.antt has Parse and Main.
--
-- A file is a record of its size, its header and its data area, which is a function from offsets to
-- bytes. The offsets and sizes are 64-bit numbers, whose sums and differences wrap (Prelude/Words.antt).
-- An operation returns an `Outcome`: `done` with what it changed and its result, `refused` for a
-- transfer that fails, `overrun` for a transfer of more bytes than its buffer has, and `stuck` where the
-- code goes on in a way that the model does not follow, as behind a failed assertion. What a file means is
-- a sequence of records, the
-- oldest first: `Holds` of RingFile/Records.antt relates the two, for a file with room for 10 bytes at
-- least and of less than 2 ^ 63 bytes, and `IsAt` of RingFile/Position.antt says where a reader is.
-- `encode` is a record with the bytes of its size, `evict` and `push` are the operations on sequences.
--
-- The loop that makes room runs on fuel, one round more than there are bytes in the ring: a round
-- takes away a record, which has a byte at least. The loop of Read of the command line tool has as
-- much. The loops of Varint have their ten rounds. The system calls (open, fstat, mmap, lseek, read,
-- write) carry out what they are asked for, so that only a read or write past the end fails, and a
-- field that the constructor does not set holds a number that is an argument.
--
-- A text is the list of its character codes (Prelude/Strings.antt, with the methods of Python's
-- strings that the code calls), and a number is a natural number.
--
-- The parts of the checker:
--   Lint/State.antt       class _CppLintState: filters, counting style, error statistic.
--   Lint/Report.antt      the module globals, the accessors of the state, _ShouldPrintError and Error.
--   Lint/Categories.antt  _ERROR_CATEGORIES.
--   Lint/Nolint.antt      ParseNolintSuppressions.
--   Lint/Regex.antt       Match, Search and ReplaceAll, over the expressions that the code uses.
--   Lint/Include.antt     class _IncludeState: which headers are included, and in which order.
--   Lint/Function.antt    class _FunctionState: the length of function bodies.
--   Lint/Paths.antt       the functions of os.path that the code calls, for paths with slashes.
--   Lint/FileName.antt    class FileInfo, _DropCommonSuffixes, _IsTestFilename, _ClassifyInclude and
--                         FilesBelongToSameModule; FileName/Headers.antt is _CPP_HEADERS.
--   Lint/Comments.antt    RemoveMultiLineComments and the functions it calls.
--   Lint/Cleanse.antt     IsCppString, CleanseRawStrings, CleanseComments, class CleansedLines.
--   Lint/Brackets.antt    FindEndOfExpressionInLine, CloseExpression, FindStartOfExpressionInLine and
--                         ReverseCloseExpression.
--   Lint/FileChecks.antt  the checks from CheckForCopyright to CheckForMultilineCommentsAndStrings, and
--                         IsBlankLine; FileChecks/Guard.antt is CheckForHeaderGuard.
--   Lint/Nesting.antt     class NestingState: its two stacks and UpdatePreprocessor. Below it, Block and
--                         Ends are the classes of blocks, Stack, Declarations and Update the other
--                         methods, and Indentation is CheckForNamespaceIndentation.
--   Lint/Conditions.antt  reports under conditions, for the checks of lines that follow.
--   Lint/Constructs.antt  CheckForNonStandardConstructs.
--   Lint/Style.antt       CheckStyle (Style/All.antt) and the checks that it calls.
--   Lint/Language.antt    CheckLanguage (Language/All.antt), CheckIncludeLine, CheckCasts and
--                         CheckForNonConstReference.
--   Lint/Lines.antt       ProcessLine and the loop over the lines, which pass the state of the nesting,
--                         the includes and the functions on; Lint/Outcomes.antt has the steps that
--                         may raise an exception, and how they follow one another.
--   Lint/RequiredIncludes.antt  CheckForIncludeWhatYouUse and UpdateIncludeState.
--   Lint/FunctionLengths.antt  CheckForFunctionLengths.
--   Lint/LineChecks.antt  CheckPosixThreading to IsForwardClassDeclaration,
--                         CheckMakePairUsesDeduction and CheckDefaultLambdaCaptures.
--   Lint/Process.antt     ProcessFile and ProcessFileData; Process/Config.antt is
--                         ProcessConfigOverrides.
--   Lint/Program.antt     ParseArguments and main, with the ways in which the program exits.
--
-- How the parts interact. A check of the source gets the function Error as an argument. Here a check
-- returns the list of its calls of that function, together with the NOLINT suppressions that it
-- records between them, and `perform` of Lint/Report.antt carries the list out on the state of the
-- linter. An operation that changes an object returns the changed object; where it raises an
-- exception, the result says so: `set_filters` and `add_filters` return the filter that the
-- ValueError names, and `none` is the failed assertion of _ShouldPrintError. A name of the source is
-- spelled in lower case here: CheckNextIncludeOrder is check_next_include_order.
--
-- A function that the checker calls outside the repository is a parameter: os.path.abspath and
-- os.path.exists in Lint/FileName.antt, the order of a dict in print_error_counts and in
-- Lint/RequiredIncludes.antt, Python's %r in Whitespace.antt, unicodedata in Lint/Style/All.antt, and in
-- Lint/Process.antt and Lint/Program.antt getopt, int, the files and the expressions that these hold.
-- process_file_data takes the checks of the lines and of the includes as a parameter, for which main
-- puts file_events of Lint/Program.antt. The matcher of Lint/Regex.antt tries the ways of a match in the
-- order of the module re.
--
-- Loops that are not over a list run on fuel. RemoveMultiLineComments gets one round more than there
-- are lines: every round but the last passes a line. The loops of CleanseRawStrings and of
-- _CollapseStrings get one round more than their line has characters: every round but the last
-- leaves a shorter line. The loop
-- of ProcessConfigOverrides gets one round more than the path has characters: a round leaves a shorter
-- path. The loops of RepositoryName over parent directories take their fuel as an
-- argument, which main passes on, and `none` is a loop that has not ended; the loop for .svn does not end
-- where every parent up to the root has that directory. The theorems on ProcessFile and main suppose that
-- RepositoryName ends.
--
-- consume_namespaces and hide_operators get a round for each character, since a round takes characters
-- away or replaces a word; in_template_argument_list gets one for each character and each line;
-- parse_condition gets one for each character. That these are enough is not proved. is_rvalue_type gets one
-- more than there are characters in the line: of more calls two are alike, and the recursion of the code
-- ends with a RuntimeError, as which the model counts them.
--
-- Not modelled: the paths where a system call fails, and the error numbers; a file of less than 34
-- bytes, whose laws are left out, although the operations are defined for it; several processes that
-- use one file at a time. Of the rest of the repository: the C interface
-- (src/public_interface.cc), which passes each call on and sets errno; the Python module
-- (python/module.cc), which is glue to the interpreter; and the tests and build files. Of
-- tools/cpplint.py: the memoized patterns and the text of the usage message,
-- numbers below 0 as a verbosity or a limit of the length of a line, and the extra check functions of
-- ProcessLine, which the program never passes.
pub mod Prelude
pub mod Lint
pub mod Whitespace
pub mod Varint
pub mod Storage
pub mod RingFile
pub mod Command
