-- ===== src/Lib.antt =====
-- libsamp, a replacement for the client DLL of SA-MP 0.3.7 (reimpl/). The library models the parts
-- that decide what the game reads and how the client reaches a server: the archive `samp.saa`, the
-- virtual files that the game sees in place of two of its own, the sockets below the network, and the
-- screen elements that the server and the player's keys change.
--
-- Parts and files.
--   Common    Numbers, lists, machine words, results and signed integers that every part uses.
--             Common/Outcome: a C function that answers 1 or 0, with a read out of range or a loop
--             that used up its fuel as a third answer.
--   Saa       reimpl/src/archive/saa.c, reimpl/include/sampdll/archive/saa.h, by the functions'
--             names. Saa/Bytes: load_le32, store_le32 and block sizes. Saa/Tea: the block cipher
--             with its chained key. Saa/Hash: the file name hash. Saa/Layout: the header. Saa/Archive:
--             samp_saa_open_verified, samp_saa_find, samp_saa_extract.
--   ArchiveFs reimpl/src/archive/win32_archive_fs.c. ArchiveFs/Table: find_record and
--             allocate_record over the 50 open records. ArchiveFs/Handlers: the six hooked kernel
--             functions, which serve main.scm and script.img and pass every other file on.
--             ArchiveFs/Hooks: the import slots of the game, with what they hold. ArchiveFs/Setup:
--             resolve_kernel_apis, load_archive, verify_archive_signature, validate_gta_and_iat.
--             ArchiveFs/Start: extract_required_file, samp_archive_fs_win32_start and
--             samp_archive_fs_win32_stop, over a record of the system's functions (`System`); a step
--             may fail, and then leaves the state for the cleanup.
--   Net       reimpl/src/net/ipv4_socket_compat.c, as built for Windows, with the functions of
--             reimpl/src/net/dual_stack.c that it calls. Net/World: the state, Net/Sockets: the
--             operations. Net/Manager: reimpl/src/net/tcp_bootstrap_manager.c, which opens its
--             listener through Net/Sockets; the RakNet client is a record of operations, `Adapter`.
--             Net/LocalAddrs: samp_net_ipv4_collect_local_addrs. Net/DualStack:
--             samp_net_connect_dual_stack, with the resolver (`Resolver`) as a parameter. Net/Endpoint:
--             samp_net_parse_hostport of reimpl/src/net/dual_stack.c.
--   Bridge    reimpl/src/runtime_bridge.c, by the functions' names, where it keeps the client's
--             screen elements. Bridge/Text: colours and colour tags.
--             Bridge/Chat: the chat lines.
--             Bridge/ChatInput: the typed line, its history, its commands and its keys.
--             Bridge/Menu: the menus. Bridge/DeathWindow: the list of kills, with its side of
--             the adapter and reimpl/src/net/death_message_codec.h in Bridge/DeathWindow/Adapter.
--             Bridge/Dialog: the dialogs, with the lines of their texts in Bridge/Dialog/Lines.
--             Bridge/GangZone: the gang zones, with their side of the adapter,
--             reimpl/src/net/raknet_client_adapter.cpp and
--             reimpl/include/sampdll/net/raknet_client_adapter.h, in Bridge/GangZone/Adapter.
-- The virtual files use the archive's name hash to choose a file; they hold the bytes that
-- samp_saa_extract wrote. Theorems stand in the child modules of the part that they are about, and
-- concrete runs in each part's Tests.
--
-- Conventions. A pointer to bytes is a list and an offset, or an option of a list where NULL is
-- tested. `size_t` and `uintptr_t` have 32 bits, and sums that the code leaves to wrap are taken
-- modulo 2^32. Loops whose end is not plain from their form run on fuel: 257 rounds for the chain of
-- samp_saa_find, which marks one of 256 entries in each round; `size + 1` for samp_saa_extract, which
-- writes a byte or more in each, and for load_archive, which reads one or more; 128 for the handles of allocate_record and 16 for the sends of
-- samp_net_ipv4_sendto, which are the code's own bounds. The kernel (`Kernel`) and Winsock (`Winsock`)
-- are parameters with a state of their own; of the system below
-- the start, its theorems assume what `IsSystem` says (a ReadFile that succeeds answers the count of
-- the bytes that it stored, HeapAlloc gives a block of the size asked for), and nothing of
-- VirtualProtect or of the CryptoAPI. Floats are their
-- IEEE bits. The record lock of the virtual files makes each hooked call one step; traces are left
-- out.
--
-- Not modelled. In win32_archive_fs.c: its trace. In the network code: the loading of the resolver's
-- library, and of the RakNet adapter all that is not named above, which is
-- C++ over a submodule that the repository does not hold. Of reimpl/src/runtime_bridge.c what is not
-- named above: it reads and writes the memory of the running game, draws, and keeps further elements
-- of the same kind. reimpl/src/runtime_hook_bridge.c and reimpl/src/dllmain.c, which patch the running
-- game.
pub mod Common
pub mod Saa
pub mod ArchiveFs
pub mod Net
pub mod Bridge
