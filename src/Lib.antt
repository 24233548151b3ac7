-- ===== src/Lib.antt =====
-- vsftpd, ported to Checked C: a verification library for the FTP server's own core code.
--
-- The program is a listener that forks a process for each client, the processes that log a client
-- in and serve its commands, and a base of strings, tables and readers that all of them stand on.
-- This library models the base and the parts next to it:
--
--   Base, Base/*           Boolean tests, byte lists and arrays, with their lemmas
--   Run                    how a call ends: a value, or a fault (bug and die of utility.c, or a
--                          run-time check of Checked C that fails)
--   Str, Str/*             str.c and str.h on buffers: struct mystr with its buffer, length and
--                          allocation, the allocator calls of sysutil.c, and each function that
--                          changes a string (private_str_alloc_memchunk, str_trunc, str_rpad,
--                          str_split_text_common, str_getline and the rest)
--   Text, Text/*           str.c on contents: searching, comparing, splitting, replacing, lines
--   Ascii, Ascii/*         ascii.c: the two conversions of ASCII transfers
--   Hash, Hash/*           hash.c and hash.h: the chained table, for any key and value
--   Standalone, .../*      standalone.c: the accounts of the accept loop and of handle_sigchld, over
--                          two tables of Hash, their histories, and the reload of
--                          handle_sighup over Parseconf/Files and Parseconf/Defaults
--   Number, Number/*       sysutil.c: the readers of octal texts and file sizes, and the printer of
--                          decimal numbers
--   Parseconf, .../*       parseconf.c: the tables, one setting, and the lines of a file, over Text
--                          and Number, and tunables.c: the defaults
--   Ipaddrparse, .../*     ipaddrparse.c: IPv4, IPv6 and separated numbers
--   Ls, Ls/*               ls.c: vsf_filename_passes_filter, over one kind of job for its loop, its
--                          brace lists and its calls of itself
--   Access                 access.c: the checks of names by that filter
--   Strlist, Strlist/*     strlist.c and strlist.h: lists of strings, without their sorting
--   Secbuf                 secbuf.c: the layout of a buffer between guard pages
--   Netstr, Netstr/*       netstr.c: reading up to a terminator, over any arrival of the bytes
--   Cmdio, Cmdio/*         ftpcmdio.c with ftp_getline of readwrite.c: commands and responses
--   Sockaddr, Sockaddr/*   sysutil.c: the comparison of socket addresses
--   Privsock, Privsock/*   privsock.c: the messages between the two processes of a session
--   Privops, Privops/*     privops.c: data connections, the passive listener, changes of owner
--   Postpriv, Postpriv/*   postprivparent.c: the requests that the privileged process serves, over
--                          Privsock and Privops
--   Twoprocess             twoprocess.c: the calls that make those requests
--   Prelogin, Prelogin/*   prelogin.c, with the commands of ssl.c, features.c and opts.c that it
--                          dispatches to: init_connection and the loop over the commands
--                          before a login
--   Login, Login/*         privops.c, the check of a login, and twoprocess.c, its request, the settings
--                          of the user and the set-up of the session
--   Postlogin, .../*       postlogin.c: the lists of commands and the dispatch, the commands that set
--                          up data connections, over Ipaddrparse and Sockaddr, and those on
--                          names, over Access
--   Tests, Tests/*         concrete inputs for the theorems
--
-- A function of the model has the name of the C function. A string function takes the string and
-- returns it changed; what it does to a second string is a pair. A function that can stop the
-- program returns a Run. Loops are recursion on the bytes that are left, or on fuel, one round for
-- each byte and one more, since each round takes at least a byte away. An unsigned int is a number
-- below 2 ^ 32 with its wrap-around written out (add32, sub32), and an allocation is at most
-- INT_MAX. Fresh memory is filled with a byte that is an argument, so that nothing relies on it.
-- The bounds checks of Checked C are modelled where the source declares bounds.
--
-- Str stands on the memory, Text on the contents; Str/Edit and Str/Cut relate the two where both
-- have a function. Hash/Laws relates a table to a map, and Standalone/Accounts uses those laws for
-- both tables of the listener. Parseconf uses the splitting of Text/Split, the lines of Text/Lines
-- and the readers of Number. Cmdio reads its lines through Netstr. Twoprocess is given the server
-- of Postpriv as a function, and Postpriv/Remote puts the two together. A setting that these
-- modules read is a field of the Tunables of Parseconf, by its name. Ipaddrparse stands on
-- Text/Split and Number, Ls on Text, and Access on Ls.
--
-- Taken as arguments: what the operating system says of files, paths, addresses, sockets, forks and
-- ended children; how the bytes of a connection arrive; whether it authenticates a name; and what a
-- TLS handshake and, for Prelogin, the login function answer. An int that goes over the channel is
-- its 32 bits, in little-endian order. memcmp, realloc, isspace, toupper, isdigit, isprint and the
-- format %lu are as the C standard has them in the C locale, with characters as the bytes 0 to 255.
-- atoi is strtol cast to an int, as the manual of the Linux C library has it, since the standard
-- leaves a number that is no int open. Texts that end at a zero byte are lists without one.
--
-- Not modelled: the set-up of sockets and signals, changes of credentials, the handlers of
-- transfers, the sandboxes, logging, listings and TLS itself.
pub mod Access
pub mod Ascii
pub mod Base
pub mod Cmdio
pub mod Hash
pub mod Ipaddrparse
pub mod Login
pub mod Ls
pub mod Netstr
pub mod Number
pub mod Parseconf
pub mod Postlogin
pub mod Postpriv
pub mod Prelogin
pub mod Privops
pub mod Privsock
pub mod Run
pub mod Secbuf
pub mod Sockaddr
pub mod Standalone
pub mod Str
pub mod Strlist
pub mod Tests
pub mod Text
pub mod Twoprocess
