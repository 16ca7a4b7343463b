-- ===== src/Lib.antt =====
-- mptsd takes transport streams from UDP, RTP or HTTP sources and puts them together into one stream of
-- several programs. This library models the program's own logic and proves what makes it correct.
--
-- The parts, and how they work together. Every channel (data.c) has a list of source URLs and a block of
-- 32 packet identifiers, which begins at 32 times its index. An input thread (input.c) connects to the
-- current source of its channel (network.c), finds the packets in what it reads, and passes them one by
-- one through the handlers of PAT, PMT and EIT. The handlers rewrite the tables; the identifiers that
-- they give away are noted in a table (pidref.c), with which all other packets are renamed before they go
-- into the buffer of the input. When a source fails the input goes on to the next one. The PSI thread
-- (output_psi.c) puts the tables of the whole output into a buffer of its own, the mixing thread
-- (output_mix.c) fills one of two output buffers from all of these, and the writing thread
-- (output_write.c) sends the other one, with the clocks fixed, to the network and into a file.
--
-- Which file models what:
--   Base, with Base/*           shared names, lists over native numbers, texts, machine integers
--   Libs                        what is used of libtsfuncs and libfuncs, as a record of functions
--   Pidref                      pidref.c, pidref.h
--   Channel                     data.c: channel_new, chansrc_add, chansrc_next, chansrc_set
--   Epg                         data.c: epg_new, epg_changed; config.c: config_channel_init_epg
--   Url                         data.c: chansrc_init, get_sproto, is_rtp; config.c: is_valid_url
--   Network                     network.c: mpeg_sync
--   Network/Connect             network.c: connect_source
--   Network/Udp                 network.c: connect_udp, connect_output
--   Continuity                  the stamping loop of input.c and output_psi.c
--   Input                       data.h: INPUT, INPUT_STREAM; input.c: input_buffer_add, in_worktime
--   Input/Tables                input.c: input_process_pat, input_rewrite_pat, input_rewrite_pmt
--   Input/Handlers              input.c: process_pat, process_pmt, process_eit
--   Input/Packets               input.c: the packet loop of input_stream
--   Input/Session               input.c: the connection and reading loops of input_stream
--   Output                      data.h: OUTPUT, OBUF; data.c: obuf_reset, output_buffer_alloc
--   Output/Buffers              the use of the two buffers in output_mix.c and output_write.c
--   Output/Write                output_write.c: ts_frame_process, ts_frame_write
--   Output/Rtp                  output_write.c: ts_frame_write_rtp
--   Output/Drain                output_write.c: the writing of one buffer in output_handle_write
--   Output/Pace                 output_write.c: the pauses between the frames in output_handle_write
--   Output/Mix, Mix/Inputs      output_mix.c: the filling of one buffer in output_handle_mix
--   Output/Psi                  output_psi.c: output_psi_add and the functions that it calls
--   Output/Psi/Words            output_psi.c: the words that output_psi_init_nit packs
--   Output/Psi/Init             output_psi.c: output_psi_init and the functions that it calls
--   Config                      what is used of iniparser.c; the keys of the files
--   Config/Channels             config.c: config_load_channels, the reading of the file
--   Config/Reload               config.c: config_load_channels, the handing over to running inputs
--   Config/Files                config.c: config_load_global, config_load_nit; data.c: nit_new
--   Config/Options              config.c: config_load, the options
--   Config/Load                 config.c: config_load, what follows; sleep.c; data.c: output_open_file
--   Epg/Load                    config.c: config_load_epg and the functions that it calls
--   Web                         web_server.c: process_web_request; web_pages.c
--   Threads                     mptsd.c: spawn_input_threads, kill_threads; data.c: input_new
-- The other files hold proofs, and are named for what they prove; each Tests file holds the runs of its
-- part, and Samples the data of these. A definition has the name of the C function that it models; a
-- loop, or a part of a long function, has a name of its own.
--
-- How the C code is read. A structure is a record, a pointer that may be NULL an option, a function that
-- changes its argument returns the new one beside its result. Numbers are natural numbers; where the code
-- relies on the width of a field the reduction is written out (u8, u16, u32, u64). Packets are lists of
-- bytes, a buffer of packets is a list of packets. libtsfuncs and libfuncs are submodules: their functions
-- are fields of Libs, and a theorem that relies on one says how. The system is a parameter as well: what
-- sockets, files, the resolver and the clock answer are arguments, and what other threads do comes in
-- lists of events, over which the loops of the threads recur, so that no bound on them is needed. Double
-- arithmetic, which spreads NULL packets and paces clocks, is an argument too. The search for packets in
-- mpeg_sync recurs on fuel: a round begins after 1316 bytes at most, or up to six packets later, and takes
-- a byte at least, so that 2445 rounds are enough whatever the socket delivers. atoi is modelled for
-- numbers that an int holds. The two output threads are a set of steps that may come in any order, each as
-- large as what a thread does between two looks at the status of a buffer.
--
-- The lists of libfuncs are visited in the order in which their elements were added. The dictionary of an
-- INI file is a record of what the vendored parser answers for a key, with numbers that are not negative.
-- In a reload, channels are shared between the new list and the inputs: each input has, beside its
-- channel, a note of the list and the place that it shares it with, and what changes a shared channel
-- changes both. The bit rate of the command line is a whole number of bits per second. Undefined
-- behaviour, such as a write through NULL, is a result of its own.
--
-- Not modelled: log messages, memory management, the sleeping of the threads but for the pauses between
-- frames, the accepting of web connections (web_server.c), main, the signal handlers and
-- spawn_output_threads (mptsd.c), which only call the system, and the vendored parser of INI files
-- (iniparser.c, inidict.c).
pub mod Base
pub mod Libs
pub mod Pidref
pub mod Channel
pub mod Url
pub mod Threads
pub mod Web
pub mod Network
pub mod Continuity
pub mod Output
pub mod Input
pub mod Epg
pub mod Config
pub mod Samples
