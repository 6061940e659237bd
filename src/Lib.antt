-- ===== src/Lib.antt =====
-- Distributed systems labs (TDA596): a model of the MapReduce framework and the file server of Lab 3,
-- of the Chord ring of Lab 2, and of the HTTP server, proxy and client of Lab 1, with what makes them
-- correct.
--
-- The program. Lab3/src/mr is a MapReduce framework: a coordinator hands out map and reduce tasks to
-- workers over RPC, takes a task back after ten seconds, and counts the completed ones; a worker asks
-- for tasks in a loop. Lab2/Node is a node of a Chord ring: it looks up identifiers by calling other
-- nodes, stores files at the successor of their identifier, keeps copies of its predecessor's files,
-- and repairs its pointers in periodic tasks. Lab1/Server answers HTTP requests from files, for
-- at most ten connections at a time; Lab1/Proxy passes GET requests on to it, and Lab1/Client sends
-- requests to either. Lab3/FileServer keeps the files of MapReduce workers on several machines.
--
-- Prelude.antt: shared names, Boolean tests and lists over native numbers, Go's signed integers,
--   strings.Split, the order of Go's strings, and HasPrefix and HasSuffix (Prelude/Affixes).
--
-- MapReduce.antt (Lab3/src/mr, with Lab3/src/main and Lab3/src/mrapps)
--   Job.antt: the specification of the coordinator, a job whose tasks are pending, running or finished,
--     with the steps that it may take.
--   Coordinator.antt: coordinator.go and rpc.go. The state is the record `Coordinator`. selectTask is
--     `select_task`, waitForTask `wait_for_task`, CompleteTask `complete_task`, Done `done` and
--     MakeCoordinator `make_coordinator`. RequestTask takes the lock twice: `select_task` and then
--     `assign_task`; `request_task` is the two in a row. A slice access out of range is the outcome
--     `panic`.
--   Coordinator/Scan, Invariant, Handlers, Safety, Completion, Requests: the loop of selectTask, the
--     invariant `IsValid`, and what each handler does.
--   Coordinator/System.antt: handlers between their two critical sections and sleeping waitForTask
--     goroutines, as lists beside the coordinator. An event is one critical section, and a list of
--     events an interleaving. System/Watchers, Guarded, Events and Runs
--     count the handlers and goroutines that watch a task; System/Refinement and Contract take the
--     system to the abstract job.
--   Worker.antt: the loop of Worker in worker.go, over a record of services. Worker/Single.antt runs
--     it against the coordinator, where no time-out comes while the single worker is at its task (that
--     is, each task takes less than ten seconds); Worker/Preservation.antt is about conditions that
--     its tasks keep, Worker/Delivery.antt about what they leave on the files; Worker/Local.antt has
--     tasks that keep the outputs by their numbers, as Shuffle.antt splits them.
--   Shuffle.antt: ihash, writeMapOutput, doReduce and writeReduceOutput of worker.go on lists of pairs.
--     Shuffle/Grouping.antt is about one reduce task, Shuffle/Laws.antt about all map tasks together.
--   Sequential.antt: main/mrsequential.go. Sequential/Runs.antt is about runs of equal keys in a sorted
--     list, Sequential/Termination.antt about its loops, and Sequential/Agreement.antt sets the program
--     beside the distributed one.
--   Applications.antt: mrapps/wc.go, the word count. Indexer.antt: mrapps/indexer.go, the index of words.
--   CloudFiles.antt: getCloudFileList of coordinator.go, with the file server.
--   Cloud.antt: worker.go with `if_cloud` set, and the download in Done; a task is its requests to the
--     file server, whose files are the state. Cloud/Names.antt is about the names of the files,
--     Cloud/Uploads.antt about one map task, Cloud/Tasks.antt about map tasks in any order,
--     Cloud/Laws.antt about the reduce tasks after them, Cloud/Download.antt about Done.
--
-- Chord.antt (Lab2/Node)
--   Pointers.antt: what a step on the network keeps of the pointers of all nodes. The children of that
--     name under Storage, Notify and Stabilize show it of each operation.
--   Ring.antt: `between` and the finger arithmetic of tools.go, node.go and stabilizing.go on
--     identifiers below 2^6; Ring/Arcs.antt measures it along the circle.
--   Node.antt: the state of a node and NewNode, node.go. Node/Creation.antt: what a new node has.
--   Net.antt: ChordCall of tools.go; a network maps addresses to nodes.
--   Routing.antt: routing.go and clientLookUp. Routing/Lookup.antt: the lookup on a ring whose
--     successor pointers are right. Routing/Newcomer.antt: a node that the others do not know yet.
--   Storage.antt: the files of a node, from node.go and stabilizing.go. Storage/Laws.antt: round trips.
--   Notify.antt, Stabilize.antt, Fingers.antt: the periodic tasks of stabilizing.go on the network.
--     Their children hold what is proved of them: Notify/Moves.antt is about the files that move,
--     Notify/Acceptance.antt and Stabilize/Adoption.antt when a pointer is taken,
--     Stabilize/Stability.antt when it stays, Fingers/Anchors.antt what fixFingers leaves alone.
--   Client.antt: clientStoreFile, clientGetFile and CheckArgsValid of tools.go, joinChord of node.go.
--     Client/Updates.antt: a ring whose nodes store files. Client/Laws.antt: storing and fetching;
--     Client/Joining.antt: what joinChord finds.
--   Repair.antt: joinChord, and then stablize of the predecessor; Repair/Places.antt: where the new node
--     is on the circle.
--   Upkeep.antt: the periodic tasks that main.go starts, in any order at any nodes, each as a whole;
--     Upkeep/Health.antt: what keeps a node from a panic; Upkeep/Laws.antt: that every task keeps it.
--   Commands.antt: main.go, the start of a node and its commands. Commands/Laws.antt: what they say.
-- WebServer.antt (Lab1/Server/handler.go and tools.go): the handlers for GET, POST and other methods,
--   over the file store of Chord/Storage.antt, and GetAddr. WebServer/Laws.antt: what they answer;
--   WebServer/Endings.antt: CheckFileEnding on paths.
--   Connections.antt: main.go, the accept loop and the loop of each connection, as events on one state.
--     Connections/Laws.antt counts the connections, Connections/Requests.antt is about requests in a
--     row and about panics.
-- Proxy.antt (Lab1/Proxy): handleClientRequest as a list of rounds, TestConn and GetAddr. Proxy/Laws.antt:
--   what is passed on.
-- HttpClient.antt (Lab1/Client): the commands of the client over a transport. HttpClient/Laws.antt: two
--   clients and the server.
-- FileServer.antt (Lab3/FileServer/SimpleServer.go): homePage and getFile, with log.Fatal as an outcome.
--   FileServer/Laws.antt: what is kept, and what takes the server down; FileServer/Uploads.antt: what
--   its clients may expect.
--
-- Examples.antt in each part: small concrete runs.
--
-- Fuel. A lookup takes fuel for the depth of the calls from node to node; on a ring with the right
-- successor pointers 64, the size of the circle, is enough, since each call shortens the way. The
-- worker's loop takes fuel for its rounds; one more than there are tasks left is enough for a single
-- worker. The loop of the sequential program takes fuel for its runs of equal keys; the number of pairs
-- is enough. The inner loop of fixFingers takes six rounds, the size of the table, and never uses them
-- up.
--
-- Parameters. SHA-1 and FNV are functions from names to numbers; no property of them is used but
-- that they are functions. RSA is a pair of functions, and a theorem that needs it to undo what it did
-- says so. The files that can be created, written or removed, the folders that can be listed, the
-- addresses that answer, the address of the machine, and what a map or reduce task does to the files
-- are parameters too, and so is what fmt.Fprintf writes for a format from its first percent sign on.
-- The entries of a Go map are a list, whose order stands for the order in which Go happens to iterate;
-- for the map in mrapps/indexer.go that order is a parameter.
--
-- encoding/json and the printing of numbers are a record `Format`, and a theorem that needs JSON to
-- decode what it encoded says so.
-- golimit is a record of operations, and a theorem that needs it to be a semaphore says so. The Go sorts,
-- strings.FieldsFunc and strconv.Itoa are functions, of which theorems say what they need. What
-- net/http reads, builds and sends is given to the definitions as values.
--
-- Not modelled: creating folders and RSA keys, the terminal and the delays of Lab2/Node/main.go,
-- listening and dialling, all of them input and output; two periodic tasks of a node at once;
-- FirstRequestHandler of Lab1/Proxy/tools.go, which nothing calls; the applications of Lab3/src/mrapps
-- that only test timing and crashes; current_conn of Lab1/Server/main.go, which goroutines change without
-- a lock and which is only printed; and the course framework (labrpc, labgob, porcupine and the
-- unfilled raft, kvraft, shardctrler and shardkv skeletons).
pub mod Chord
pub mod FileServer
pub mod HttpClient
pub mod MapReduce
pub mod Prelude
pub mod Proxy
pub mod WebServer
