-- ===== src/Lib.antt =====
-- A model of the Dr.COM client in drcom/src, with the theorems that say what it does.
--
-- The client reads its configuration (configparse.c), then keeps a session with the campus server
-- over UDP (auth.c): a challenge gives a seed, a login packet built from seed and configuration
-- opens the session, and two keepalive exchanges (keepalive.c) run in a loop until they fail too
-- often or a signal stops the program, which then logs out (protocol.c). In mode `pppoe` each round
-- has its own challenge and login. A login over 802.1X (eapol.c) may come first. How long it waits,
-- which login template it tries, which extra packet it sends, is decided by retry_policy.c.
--
-- Files:
--   Base: names of the libraries passed on; tests and the conditional (Logic), byte strings
--     (Lists), C's int (Int), results with failure (Partial), arrays with checked writes (Buffer),
--     exclusive or (Xor).
--   Ctype: what the program uses of ctype.h and of strtol, strtoul; decimal notation.
--   RetryPolicy: drcom/src/retry_policy.c and retry_policy.h.
--   Ipv4: `drcom_parse_ipv4_address` of drcom/src/configparse.h.
--   Config: drcom/src/configparse.c. Text is the line format, Values the parsers of values, Reader
--     `read_d_config` and `read_p_config`, Parse the loop over the lines and the profile.
--   Packet: drcom/src/protocol.c and the part of `dhcp_login` in drcom/src/auth.c that builds the
--     packet (Login), with its size (Size), and the logout packet (Logout).
--   Udp: the sending and receiving functions of drcom/src/keepalive.c.
--   Keepalive: `gen_crc`, `keepalive_1` (First), `keepalive_2` and its builder (Second) of
--     drcom/src/keepalive.c.
--   Auth: drcom/src/auth.c. In mode `dhcp`: delays (Delay), challenge, login and logout (Exchange),
--     the keepalive loop (Session), the attempts of `dogcom` (Dogcom). In mode `pppoe`: challenge and
--     login (Pppoe), the loop (Pppoe.Loop). `dogcom` from the set-up of the socket on: Program.
--     Protocol is an abstract account of mode `dhcp`: phases, and the packets and replies that lead
--     from one to the next; Pppoe.Protocol is one of mode `pppoe`.
--   Interfaces: `getall_ifs` of drcom/src/libs/common.c.
--   Eapol: drcom/src/eapol.c and eapol.h. State and frames in the file itself, the loops that wait for
--     a frame in Filters, `eaplogin`, `eaplogoff` and the keepalive loop in Login,
--     the child process around it in Child.
--   Ethernet: the other helpers of drcom/src/libs/common.c; ByteOrder, and Files for `getexedir` and
--     `copy`.
--   Daemon: drcom/src/daemon.c.
--   Log: `print_packet` and `logging` of drcom/src/auth.c.
--   Main: drcom/src/main.c, which puts the parts together.
--   Tests: concrete runs.
--
-- State. The globals that `config_parse` writes are the record Config.Globals; a text field of
-- `struct config` is the list of its bytes before the NUL. The outside is the record Udp.World:
-- what `recvfrom` will give, whether `sendto` will succeed, what `rand` will give, when signals
-- come, and what was sent and slept so far. A function that changes state takes it and gives it
-- back. A C function that returns 0 or 1 gives `success` or `failure`, or an option of what it
-- writes.
--
-- Arrays. The builders of the login and logout packets go through `memcpy`, which refuses a write
-- past the end. The builders of the keepalive packets have fixed arrays and fixed offsets. A number
-- that is stored in a byte is taken modulo 256.
--
-- Bounds and rounds. The loops on strings and retries are structural. The loops of `keepalive_1`
-- are given one round, since the expectations on a reply drop the notice that would ask for
-- another. `keepalive_loop`, `dogcom_dhcp` and `pppoe_loop` are given a number of rounds and say
-- when it was not enough: they run for as long as the server answers. `eap_keep_alive` never ends;
-- it is modelled as its state after a number of turns. The loops of eapol.c wait by the clock and
-- are structural in what arrives; where nothing more does, `recvfrom` never returns, and the model
-- says so. Counters of type `int` are not bounded. `long` has 32 bits; every result of `strtol` is
-- compared with bounds far below.
--
-- The raw socket of eapol.c has a state of its own, Eapol.Eapol, with its buffers, its clock and
-- what arrives. What the two calls of `recvfrom` of mode `pppoe` leave of the old contents of their
-- arrays is a parameter.
--
-- Not modelled: the digests in drcom/src/libs (parameters, with the length of their results),
-- `format_time` of libs/common.c (a call of `strftime`) and its part under `ifdef LINUX`, `getopt_long`
-- and `realpath` (what they return is given), the calls of `printf` and `logging` with their messages,
-- the variants for WIN32, TEST and DEBUG, the waits of 0.2 seconds, and the bytes that `MD5` writes past the end of
-- `checksum1` in `dhcp_login`. These eight bytes are taken to hit nothing else that is used. `char` is signed, as on
-- x86 and MIPS. `strdup` succeeds. `fgets` is the one of the C library.
pub mod Base
pub mod RetryPolicy
pub mod Ctype
pub mod Ipv4
pub mod Config
pub mod Packet
pub mod Udp
pub mod Keepalive
pub mod Auth
pub mod Interfaces
pub mod Eapol
pub mod Ethernet
pub mod Daemon
pub mod Log
pub mod Main
pub mod Tests
