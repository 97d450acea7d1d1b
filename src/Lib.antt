-- ===== src/Lib.antt =====
-- way-displays: a daemon that keeps the displays of a Wayland session as its configuration asks.
-- The compositor announces heads (displays) and their modes, the listeners copy that into a global
-- display; `desire` computes from the configuration, the lid and the heads what each head should be;
-- `act` asks the compositor for it, one kind of change at a time, and takes note of the outcome.
-- The command line makes requests, which the client sends to the daemon; the daemon reads its
-- configuration from a file and merges the requests into it, one at a time. A turn of the daemon's
-- loop dispatches the events of the compositor, then handles a signal, a change of the file, the lid
-- and a message of a client, then acts, then reports to the client whose request is under way.
--
-- Which file models what:
--   Mode, Mode/*      src/mode.c, inc/mode.h: modes, their comparison and the searches through them.
--   Enums, Enums/*    src/enum.c, inc/enum.h: the enums with their numbers, and their names.
--   Regx              src/regx.c.
--   Cfg, Cfg/*        src/cfg/cfg.c, condition.c, disabled.c: the configuration, its validation,
--                     defaults, equality and merging, and whether a head is disabled. `LidClosed`
--                     puts the defaults and the conditions together.
--   Cfg/File, Cfg/Init, Cfg/Migrate
--                     src/cfg/file.c with the watch of src/fds.c: finding, reading, reloading and
--                     writing the file (`Cfg/File/WriteBack` is on both together); `cfg_init` and
--                     `cfg_migrate_v1`.
--   Lid               src/lid.c: the lid and its events.
--   Head, Head/*      src/head.c, inc/head.h: heads, what matches them, their modes and scales.
--   Desire, Desire/*  src/desire.c: `desire` and all that it calls.
--   Displ, Displ/*    src/displ.c and src/listener: the display and the events that change it.
--   World             the globals of src/server.c's process that the above share, with the requests
--                     made through src/wl_wrappers.c and the messages for the user.
--   Act, Act/*        src/act.c: the state machine.
--   Outputs           src/output.c, src/listener/registry.c and zxdg_output.c: globals and outputs.
--   Ipc, Ipc/*        src/ipc.c, inc/ipc.h: requests, operations and responses.
--   Server, Server/*  src/server.c and `g_cfg_process_ipc_request`: `Process` handles a request,
--                     `Turn` is a turn of the loop. `Protocol` is the abstract protocol of the daemon
--                     and the compositor, and `View` what it sees of the daemon's state.
--   Args, Args/*      src/args.c, src/cli.c and src/main.c: the command line.
--   Client, Client/*  src/client.c, and `ipc_receive_responses` of src/ipc.c; `Answered` puts the
--                     client and the daemon together.
--   Info, Info/*      src/info: what is told to a person. `Delta` and `Callback` are delta.c and
--                     callback.c, with `head_human` of src/head.c; `Commands` is `print_cfg_commands`
--                     of print.c. `Shell` is what reads a line that is typed, `Safe` which lines keep
--                     their words then, and `Parts`, `Replies`, `ModeReplies`, `Accepted` and `Typed`
--                     put the commands together with the command line.
--   Log, Log/*        src/log.c: which lines are printed and captured.
--   Yaml, Yaml/*      src/yaml. Reading: `Primitives`, the maps of the configuration in `Modes` and
--                     `Conditions`, `Version1`, the documents in `Document`, responses in `Heads` and
--                     `Responses`. Writing: `Marshal`, and `State` for heads, the lid and responses.
--                     About the names that pass: `Patterns`, `DisabledPatterns` and `Valid`. About what
--                     is written and read back: `Lookup`, `Parts`, `Elements`, `Collected`, `ModeBack`,
--                     `DisabledBack`, `Writable` and `Restored` for configurations and requests,
--                     `Messages`, `Replies` and `RoundTrip` for responses, `Overrides` for heads.
--   Collections       lib/alex-c, Platform: the C library, floating point and libwayland. These are
--                     parameters; their laws are what the headers document.
--   Prelude, Prelude/*  shared names, tests, integers, lists and texts.
--   Examples/*        a concrete platform and the theorems tried at concrete values.
--
-- A C function that reads a global takes it as an argument, one that changes its argument returns it.
-- A pointer to a head or a mode that is compared is its address, a field `addr`; a pointer that may be
-- NULL is an `Option`. A pointer to a head that was freed is found in no map, and following it is the
-- outcome `fault`; `exit` is the outcome `exited`. Every loop is structural recursion on the list that
-- it walks, but `strip_null` of Head/Modes, whose fuel is the length of the text: every round takes a
-- character. An int32_t is an integer; the area of a mode, a product, is wrapped to 32 bits
-- (`wrap_int32`), other sums are taken not to overflow. Fixed point scales are whole numbers of 256ths;
-- doubles elsewhere are the `Real` of the platform.
--
-- What the outside gives to a function is an argument of it: what happens in a turn (`Input`), the file
-- system, environment and libyaml (`FileSystem`), the options that getopt_long reads and what is left
-- of `argv` then, the conversions of texts to numbers; the shell, for commands that are printed. A mode's refresh that is given is a long that is
-- stored in an int32_t (`int32_of`). Following an argument that is NULL is the result `undefined`.
--
-- Not modelled: sockets, processes and poll, the start and the end of the daemon and the discovery of
-- the lid device (operating system and libudev calls), the reports of src/info/print.c but the
-- commands, the text of messages to the log but those of operations, and freeing, since values are
-- copied.
pub mod Prelude
pub mod Collections
pub mod Platform
pub mod Regx
pub mod Mode
pub mod Enums
pub mod Cfg
pub mod Head
pub mod Lid
pub mod Desire
pub mod Displ
pub mod Outputs
pub mod World
pub mod Act
pub mod Info
pub mod Ipc
pub mod Server
pub mod Args
pub mod Client
pub mod Log
pub mod Yaml
pub mod Examples
