-- ===== src/Cli.antt =====
-- src/cam_demo_config.cpp: the command line of the demo programs. A text is the list of its bytes.
-- `Numbers` has the number parsers, `Options` the options and their validation, `Parse` the loop
-- over the arguments.
pub mod Numbers
pub mod Options
pub mod Parse
pub mod Names
