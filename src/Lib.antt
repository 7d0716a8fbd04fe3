-- ===== src/Lib.antt =====
-- ktcp_split: a Linux kernel module that splits the TCP connections of tenants. A SYN that enters the
-- host starts a connection of the proxy to its destination, while the SYN itself is accepted by the
-- tenant's server; the two sockets make a pair, and two kernel threads forward bytes between them.
--
-- The parts, and the files that model them:
--   Magazine    tcpsplit/magazine.c, tcpsplit/lib/magazine.h. The per-CPU pairs of magazines and the
--               depot. Memory is a partial map; an operation is one step, as interrupts are off.
--   MagStats    tcpsplit/lib/mag_stats.c: the entries and their dump. It is not built, and the struct
--               of an entry is declared nowhere in the repository: its counts are a parameter.
--   ThreadPool  tcpsplit/thread_pool.c. The pool of threads over the interface ThreadPool.Store, which
--               ThreadPool.MagazineStore fills with Magazine's operations; ThreadPool.Boot starts it, and
--               ThreadPool.Draws says which threads one task after another gets.
--   RbTree      The descent of the search trees; rb_insert_color and rb_erase are parameters with
--               the laws that they keep the entries, and RbTree.Plain shows that these can hold.
--   Listner     The tenants' servers: split_server, del_server_cb and their registry in
--               tcpsplit/split.c and tcpsplit/rb_data_tree.h; uint2void and void2uint. Listner.Stop
--               has the walk of stop_sockets, over rb_next_postorder as a parameter with laws.
--   Accept      The accept loop of split_server and the whole of that thread, from Listner's start to
--               its end, and prec_conn_listner_server of tcpsplit/conn_pool.c. Each loop gives its
--               connections to threads of ThreadPool.
--   Qp          The keys of pairs: their bytes, strncmp, add_rb_data, qp2cpu (tcpsplit/qp.c).
--   Pairing     The life of a pair: get_qp, put_qp, qp_exists, wait_qp_ready, and the two threads of
--               a pair as events. A thread stores its socket and takes its reference in one event,
--               since both threads run on the pair's CPU there and do not sleep in between.
--   Hooks       The netfilter hooks of tcpsplit/split.c and the probe of tcpsplit/conn_pool.c;
--               Hooks.Dispatch has them with the pool of threads that they give work to, and
--               Hooks.Tenants the ingress hook after starts and removals of servers.
--   Forward     half_duplex of tcpsplit/split.c.
--   Preconn     The pools of connections opened in advance: tcpsplit/preconn_rb_tree.h and
--               tcpsplit/conn_pool.c. Preconn.View has the pools as stacks, Preconn.Faults what follows
--               when there is no memory for the lists of a pool, Preconn.Race two threads that open one.
--   Lifecycle   The start and the end of the module: the entry points of tcpsplit/split.c, of
--               tcpsplit/conn_pool.c and tcpsplit/thread_pool.c, and the files of tcpsplit/proc.c, as
--               the list of their calls. Lifecycle.Monitor says which calls are in order.
--   Connect     The threads that set up the two halves: start_new_connection_syn,
--               start_new_connection and, for the pools, start_new_pre_connection_syn,
--               prealloc_connection, start_new_pending_connection, craete_prec_conn_probe. Connect.NextHop
--               has what a proxy tells the next one, as bytes, Connect.Advance a connection opened in
--               advance, from its opening to its use, with the pools and the tenants, and
--               Connect.Life a connection from its two threads over half_duplex to its end.
--   Logger      The stream logger: logger/dpb.h, logger/stats_cb_mgr.h, logger/logger.c. Logger.Requests
--               has sequences of requests, Logger.Log the log that they implement, and Logger.Module
--               the start and the end of the module.
--   Proc        The write handlers of tcpsplit/proc.c; Proc.Effects has what their commands do to the
--               registry and the pool of threads, Proc.Show the files that show the flag and version.
--   ServerList  The list of the servers in /proc: proc_read_string and cbn_proc_show.
--   Dump        The lines of the dump of pairs, and their offsets in the user's memory:
--               tcpsplit/debug.c.
--   Tracer      The hook of pkt_tracer/pkt_trace.c, and the texts of a packet that it and the splitter
--               print (tcpsplit/cbn_common.h and pkt_tracer/cbn_common.h), with hex_dump; Tracer.Module has the
--               hook table and the start and the end of that module.
--   Client      The traffic generator kernel_client/client.c: its receiving, sending and listening
--               threads and the files of its module.
--   Common      Numbers, words, bits, lists, texts, and tests that the parts share.
--
-- Magazine.Bag, ThreadPool.Lives, Listner.Runs, Preconn.Runs and Preconn.Refine are about sequences of
-- operations: what these do to a bag of free elements, to the tasks of each thread, to a map of tenants,
-- to the counts of the pools, and to the pools as stacks.
--
-- A hook gives work to ThreadPool; the work is a thread of Connect, which joins a pair (Pairing, Qp),
-- looks up its tenant (Listner), takes a connection from a pool (Preconn), and ends in Forward. A write
-- to a file of Proc starts a server (Listner) or fills a pool (Preconn).
--
-- Calls of the kernel are arguments: the result of each allocation and socket call, in the order of
-- the calls. Machine words keep their wrap-around; the machine is little-endian with a signed char. The
-- loops are recursive on lists or counts; the read of the log runs on fuel 2, which is enough since
-- its first turn empties the buffer.
--
-- Not modelled: the trace buffers, which nothing reads; the flags of the messages and the time-outs of the sockets;
-- scripts, plots and kernel patches. A printed number has at most twenty digits, which are enough for
-- 64 bits. stop_sockets has as many turns as the tree has servers.
-- Interleavings inside an operation are modelled only for pairs and for the opening of a pool; the
-- registry is taken to stay as it is while a server of Accept is in its loop.
pub mod Common
pub mod Magazine
pub mod MagStats
pub mod ThreadPool
pub mod RbTree
pub mod Listner
pub mod Accept
pub mod Qp
pub mod Pairing
pub mod Hooks
pub mod Lifecycle
pub mod Forward
pub mod Preconn
pub mod Connect
pub mod Logger
pub mod Proc
pub mod ServerList
pub mod Dump
pub mod Tracer
pub mod Client
