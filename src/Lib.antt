-- ===== src/Lib.antt =====
-- Pyodide's Python: the build tool, which rewrites compiler calls for Emscripten and chooses, checks,
-- orders and builds packages, and the runtime's modules, which schedule, run and load code in the browser.
--
-- Pywasmcross models pyodide-build/pyodide_build/pywasmcross.py, which stands in for the compilers
-- while a package is built. `handle_command_generate_args` is the function of that name: Types has its
-- arguments and what it reads of its surroundings (paths, environment variables, the outcome of a
-- subprocess, Python's character classes; each returns, also `Path.resolve`, which can raise on a loop of
-- symbolic links), Arguments the `replay_genargs_handle_*` functions, Exports
-- the parser of llvm-readobj's output and the export flags, Command the dispatch on the command and
-- the loop over the arguments. A command line is a list of texts, a text a list of code points. Lists
-- that the code mutates (`new_args`, `used_libs`) are passed on explicitly.
--
-- Buildall models pyodide-build/pyodide_build/buildall.py and recipe.py, with the data of io.py that
-- they read. Package has the records, Query `_parse_package_query`, Recipes `load_all_recipes` and
-- `load_recipes`, Graph `generate_dependency_graph`: Collect is its first loop, Disable the pass in
-- build order, Select the pass in reverse order, Validate `_validate_package_map`, Generate the whole.
-- Rebuild is `generate_needs_build_set`, which says which packages of the graph are built again.
-- Builder is `_GraphBuilder` with the preparation in `build_from_graph`: its state is a record of the
-- two queues, of what the threads hold and of the sets `unbuilt_host_dependencies`; `Step` has one
-- constructor for each thing that a thread or the main thread does, and `Reachable` the states of a build.
-- A query gives the names that the graph starts from, the recipes give the packages.
--
-- Lockfile is `generate_packagedata`, on the packages that were built; taking a file's hash, a parameter,
-- returns it or raises. Metadata models the sections of
-- meta.yaml in pyodide-build/pyodide_build/io.py with their validators, which give their messages, and
-- Helpers the search for import names in a wheel, of pyodide-build/pyodide_build/common.py; its bound
-- on rounds is shown to be enough if it is at least the number of directories.
--
-- Webloop models src/py/pyodide/webloop.py. Futures has what `then`, `catch` and `finally_` make of the
-- end of their source: an awaitable is a tree of what each `await` brings, so that the loops that await
-- end. Loop is the event loop's state, with `Step` for each thing that the program or the browser does to
-- it, in any order; Handlers the exception handler and the policy.
--
-- Runner models src/py/_pyodide/_base.py: Quiet is `should_quiet`, Transform what is done to the last
-- statement, Code the compiling and Run the running of a `CodeRunner`, with `eval_code`, Imports
-- `find_imports` and `pyimport_impl`. Python's parser and compiler are the record `Compiler`, and what
-- expressions and statements do is the record `Interpreter`; a code object is the statements it has.
-- The module that `compile` is given is transformed in place, so that Code returns it with what comes of it.
--
-- Console models src/py/pyodide/console.py: Buffer has `push` and `runsource`, Compile the compiler, which
-- calls the runner's `CodeRunner`, Completion `complete`, Streams the redirections, with programs that
-- use and set the streams of `sys`, Shorten `shorten`.
--
-- Loader models src/py/pyodide/_package_loader.py: Wheels has the names of wheels and their dist-info
-- directory, Sources what is recorded there, Dynlibs the libraries to load, Unpack `unpack_buffer`.
--
-- Exceptions are values of `Result` (Base/Outcome). `dict` is an association list in insertion order
-- and `set` a list; the order in which a set is popped and the order that graphlib's TopologicalSorter
-- returns are parameters with the behaviour that their documentation states (Graph/Interfaces).
-- The loop that collects packages runs on fuel, one round more than there are recipes, which is shown
-- to be enough since each round takes a package that was not collected before. The depth of the calls
-- of `mark_package_needs_build` is a number too, Python's limit; more than there are packages is enough.
--
-- Not modelled: processes, files and the network, the reading of YAML, messages that are logged, the
-- deep copies of recipes (the model's values do not change), what a call has done before an exception
-- in Loader, the console's lock and its tracebacks, and the parts of the repository in JavaScript and C.
pub mod Base
pub mod Pywasmcross
pub mod Buildall
pub mod Webloop
pub mod Console
pub mod Helpers
pub mod Loader
pub mod Metadata
pub mod Runner
