-- ===== src/Lib.antt =====
-- A model of bsord: the plano library of subrepos/plano/src/plano/, in which the repository's
-- build commands are written, as far as its behaviour is more than a call of the operating
-- system.
--
-- The parts and the files that model them:
--
-- Base: texts (a Python string is a list of code points), Python's `==` and `in` as a class of
-- decided equality, integers, dicts as association lists in insertion order, and the lemmas on
-- lists that the components share.
--
-- World: the process-wide state of plano/main.py, its exceptions, and calls. A call is a
-- function from the state to a result or an exception and a new state; `with` blocks are
-- `with_manager`, whose exit runs after the body whether it raises or not. What is printed or
-- logged is kept in the state as a template and its arguments, in the order of the events.
--
-- Logging: `log`, `enable_logging`, `disable_logging`, `logging_enabled` and `fail` of
-- plano/main.py.
-- Console: `console_color`, `cprint`, `cformat`, `print_properties` and `output_redirected`.
-- Paths: `expand`, `join`, `split`, `normalize_path` and the names of a path, with the
-- functions of `os.path` that they call.
-- FileSystem: the nodes of the file system by location, and the operating system's calls on
-- them, which are the standard library's part of the files below.
-- Files: the tests of paths, directories, `find`, `working_dir`, temporary files, `read` to
-- `concatenate`, `copy`, `move`, `remove`, links, and the JSON and YAML files, over Paths and
-- FileSystem.
-- Environment: `working_env`, `working_module_path`, `check_env`, `check_module`,
-- `check_program`.
-- Strings: `remove_prefix`, `remove_suffix`, `shorten`, `plural`, `capitalize`.
-- Iterables: `unique`, `skip`, `join_path_var`.
-- Listing: the choice of names by `list_dir`; Files.list_dir applies it to a directory.
-- TestRunner: plano/test.py. Tests and the record of a run, the reports, `_run_test` and
-- `run_tests`, the `expect_exception` family, `expect_output`, and `PlanoTestCommand`, which
-- is a program by `BaseCommand.main` of Commands. It prints through Console, logs through
-- Logging, redirects a test's output by `output_redirected` and takes the plural of its
-- message from Strings.
-- Processes: `kill`, `wait`, `stop` and `exit` of plano/main.py.
-- Running: `start`, `run`, `call`, the handler of SIGTERM, the commands of curl in
-- Running/Http and the archives in Running/Archives, over Files and Processes.
-- Timers: `Timer` over a clock, the handler of the alarm and the interval timer.
-- Values: `nvl` to `format_not_empty`, `Namespace`, `get_unique_id`.
-- Building: the commands of .plano.py, with `sleep` and `get_program_name`.
-- Durations: `format_duration`.
-- Waiting: `check_port`, `get_random_port` and the loop of `await_port` and `await_exists`, in
-- units of 1/32 of a second, also under the alarm of a timer of Timers.
-- Commands: plano/command.py. Values, parameters and commands, `_process_parameters`,
-- `_bind_commands`, `__call__` with the stack of running commands, and `BaseCommand.main` and
-- `PlanoCommand`, which log through Logging, print through Console and end by Processes, and
-- what `_process_commands` tells argparse and its form, up to a run of the whole application.
-- Panic: the lines that the handler of panic.c prints.
-- Examples: runs of the definitions and the theorems at concrete inputs.
--
-- Parameters stand for what the operating system or the libraries do: `matches` for fnmatch's
-- test of a name against a pattern, `sort` for `sorted`, `limit` for what the alarm of `Timer`
-- makes of a call under a time limit, `upper` for the upper case of a character or a text,
-- `parser_error` for what argparse does with an error, `join`, `is_file`, `exists` and `read`
-- for paths and files where a component does not stand on Files, the field `expansion` of the
-- state for expanduser and expandvars, the record `System` of Running for the start, the work
-- and the end of a process and for shlex.split, `temp_name` for the random part of a temporary
-- name, `found` for what `which` or the import system finds, `connects` and `succeeds` for
-- what can be connected to, `polled` and `outcome` for how a process ends, `text_of` for the
-- text of an exception, the field `can_open` of the state for whether a file that output goes to
-- can be opened for writing. The theorems that name one hold for every value of it.
--
-- A file holds a text: permissions, times and encodings are left out, a file is written as a
-- whole, and a symbolic link is followed only as the last component of a path, up to 40 in a
-- row. What a running process does to the files is part of `communicate`.
--
-- Every function is total by structural recursion. `await` takes the number of checks that the
-- alarm of its timer leaves time for; `await_timed` has the alarm and takes fuel, of which the
-- timeout in seconds and five is enough. `call_command` takes what is left of the interpreter's
-- stack as its depth and raises a `RecursionError` at 0; two calls are enough, since a bound
-- command is bound to its own name. `copy` takes the depth of calls that is left in the same
-- way.
--
-- Not modelled are the reading of real and relative paths, which `os.path` does alone, and the
-- test programs of the repository (server.c, client.c). What is printed to a file is kept in the
-- events and not in the file's node, so that it can always be decoded. Rendering a message,
-- base64 and URL quoting are calls of libraries and are left out, as is what only prints.
pub mod Base
pub mod Strings
pub mod Iterables
pub mod World
pub mod Paths
pub mod FileSystem
pub mod Files
pub mod Logging
pub mod Console
pub mod Environment
pub mod Listing
pub mod TestRunner
pub mod Processes
pub mod Running
pub mod Timers
pub mod Values
pub mod Durations
pub mod Waiting
pub mod Building
pub mod Commands
pub mod Panic
pub mod Examples
