-- ===== src/Lib.antt =====
-- The C code of the Link Kit user guide: the signing of an MQTT connection and the porting layer.
--
-- Parts of the program and the files that model them
--
-- * user-guide/linkkit/Paho_MQTT_Guide/aiot_mqtt_sign.c computes the client id, the user name and the
--   password of a device. `aiotMqttSign` builds its texts in fixed buffers, calls
--   `utils_hmac_sha256`, which calls the SHA-256 functions, and prints the result with `_hex2str`.
--   Sha256/ models the hash: Word the macros SHR, ROTR, S0 to S3, F0, F1, GET_UINT32_BE and the
--   table K, Process `utils_sha256_process` with the macros R and P, Stream the context and
--   `utils_sha256_init`, `_starts`, `_update`, `_finish`, `_free` and `utils_sha256`. Spec is FIPS 180-4,
--   independent of the code; Absorb has the relation between a context and the message it stands
--   for. Macros, Rounds, Blocks, Update and Digest hold the proofs.
--   Sign/ models the rest: Hmac `utils_hmac_sha256`, Hex `_hex2str`, Mqtt `aiotMqttSign`, with the
--   proofs on its buffers in Buffers, Source and Contract.
-- * user-guide/linkkit/Vendors/ubuntu/wrapper.c is the porting layer. KvStore/ models its key-value
--   store: Row the items, `hash_gen` and the loops over the two items of a row; File
--   `read_kv_item`, `write_kv_item`, `create_hash_file`, `hash_table_put`, `hash_table_get` and
--   `hash_table_rm`; Handle `kv_open`, `__kv_get`, `__kv_set`, `__kv_del`, `kv_get`, `kv_set`, `kv_del` and
--   the `HAL_Kv_` functions; Session sequences of calls. Rows, Removal, Files, RoundTrip, Whole, Idle and
--   SetGet hold the proofs; Contents relates the table, and Served and Mapping the store behind
--   HAL calls, to a map from keys to values. Threads has the same functions in several threads as a step relation: the static
--   `file`, which nothing guards, the mutex of each handle, and the row file that is shared. Its children
--   hold the proofs: Settled and Moves what a step keeps, Serial the order of the calls, Progress the
--   mutex, Race the first calls, Solo the link to `hash_table_put`, `_get` and `_rm`.
--   Tcp/ models its TCP transport: Establish `HAL_TCP_Establish` and `HAL_TCP_Destroy`, with the proofs
--   in Outcome; Read `_linux_time_left` and `HAL_TCP_Read`, with the proofs in Delivery; Write
--   `HAL_TCP_Write`, with the proofs in Sending. A turn of a loop is a record of the answers of the
--   clock, `select`, and `recv` or `send`.
--   Wifi/ models the HAL_Awss functions: Commands the shell commands that they run, with the proofs in
--   Limits and AccessPoint; Sniffer `func_Sniffer` and the flag `s_enable_sniffer` that `stop_sniff`
--   clears, with the proofs in Frames.
--   Udp/ models the UDP functions: Socket `HAL_UDP_create_without_connect`,
--   `HAL_UDP_close_without_connect` and `HAL_UDP_joinmulticast`, with the proofs in Binding; Datagram
--   `HAL_UDP_recvfrom` and `HAL_UDP_sendto`, with the proofs in Reply.
--   Os/ models the rest: Handles the mutexes, semaphores and timers as blocks of the heap, with
--   the proofs in Balance; Timing the functions that count time and `HAL_SemaphoreWait`, with the proofs
--   in Deadlines; Identity the `HAL_Get` functions, with the proofs in Opening, up to the structure with
--   which the example opens the device; Network `HAL_Wifi_Get_Ap_Info`, `HAL_Wifi_Get_IP`,
--   `HAL_Wifi_Get_Mac` and `HAL_Sys_Net_Is_Ready`, with the proofs in Names; Threads the thread functions by
--   their pthread calls.
-- * user-guide/linkkit/Vendors/Jabsco/wrapper.c is another port. Jabsco/ models the functions that the
--   ubuntu port does not have, or has in another form: Client `HAL_UDP_create`, `_close`, `_connect`,
--   `_write`, `_read`, `_readTimeout`, `_recv` and `_send`, with the proofs in Addresses and Waiting; Device the
--   identity and the HAL_Awss functions, with the proofs in Provision; System timers, threads, the network
--   test and `HAL_UDP_create_without_connect`, with the proofs in Differences. Its other
--   functions are the same code as in the ubuntu port.
-- * user-guide/linkkit/Vendors/ubuntu/linkkit_example_solo.c is the example over the porting layer.
--   Example/ models it: Events the context and the callbacks, Service
--   `user_service_request_event_handler`, Main `main` with its loop and without its optional parts,
--   Startup all of `main`, with the registration of the callbacks. Connection, Response, Schedule,
--   Registration and Ready hold the proofs. A call of the cloud library is an entry in a list.
-- * Prelude/ has what the parts share: lists over native numbers, buffers with `memcpy` and `strlen`,
--   machine words, bit operations, the integers that the code returns, text literals.
--
-- How the code is modelled
--
-- A machine word is a native number, and every operation that can wrap is cut with `u32`. A buffer is
-- the list of its bytes, and `memcpy` drops what does not fit, so that a theorem on the whole
-- buffer also says that nothing ran over its end. A C string argument is the list of its characters before the zero; a
-- pointer that may be NULL is an Option. A C function that changes what a pointer names returns
-- the new value. What a stack variable held before its first assignment is an argument.
-- The answers of malloc, open, fstat, lseek, read, write and fsync are arguments (`Calls`); what an
-- incomplete write leaves in its row is arbitrary.
--
-- Loops: the 64 rounds and the 384 rows are structural recursion on the count that is left. The loop of
-- `utils_sha256_update` over whole blocks runs on fuel, and its caller gives the number of bytes,
-- which is enough since each turn takes 64 of them; the theorems on `update` have no hypothesis about
-- fuel. The loop over a row is recursion on the list of its items. The loops of `HAL_TCP_Read`,
-- `HAL_TCP_Write`, `HAL_SemaphoreWait` and `func_Sniffer` are recursion on the list of their turns, and give `none` while
-- they have not ended; their theorems say that they end once the clock has reached the deadline or the
-- flag is off. `main` runs on fuel, of which 3601 units are enough.
--
-- Threads: a step is one access to what is shared, and the steps of the threads come in any order. The
-- locks are those of pthread; what `malloc`, `read` and `write` answer is left open in every step. Each
-- thread makes one call, and the file exists.
--
-- Not modelled: printing and `kv_err`; the functions of wrapper.c that add nothing to one call of pthread
-- or libc (`HAL_MutexLock`, `HAL_MutexUnlock`, `HAL_SemaphorePost`, `HAL_Srandom`, `HAL_Printf`,
-- `HAL_Snprintf`, `HAL_Vsnprintf`); `HAL_Wifi_Get_Ap_Info` of the Jabsco port, which reads from a file that it
-- has closed, and its `HAL_Timer_Create`, which does not test for NULL; the ieee80211_radiotap.h of
-- another project, of which only one field is read; user-guide/linkkit/hal_tls_test.c, a test program
-- over an interface that is not in the repository.
pub mod Example
pub mod Jabsco
pub mod KvStore
pub mod Os
pub mod Prelude
pub mod Sha256
pub mod Sign
pub mod Tcp
pub mod Udp
pub mod Wifi
