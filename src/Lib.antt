-- ===== src/Lib.antt =====
-- The download and update core of RebornLauncher, a Windows launcher that brings a game's files up
-- to date over HTTP and peer-to-peer before and while the game runs.
--
-- Which file models what (functions of the C++ code, with the definition's name where it differs):
--   Files.antt          the bytes of a file and what a write, or a torn write, leaves
--   Chunk.antt          RebornLauncher/ChunkState.h and ChunkState.cpp: ChunkRecord, ChunkState,
--                       Initialize, ComputeDownloadedBytes, AreAllChunksDone
--   Executor.antt       RebornLauncher/ChunkExecutor.cpp: the worker threads of a chunked download. A
--                       worker is a state machine (Phase), `worker_step` one move of it between two
--                       points where another thread can run, and `run_schedule` plays any
--                       interleaving of such moves with any answers of the remote and the disk. The
--                       stream of the temp file may fail at any block, and lose what it has buffered
--   SingleStream.antt   RebornLauncher/ChunkDownload.cpp: DownloadFileFromAbsoluteUrl (single_stream)
--   Chunked.antt        the same file: DownloadFileChunkedWithResume (download_chunked), with
--                       EnsureSizedTempFile of ChunkState.cpp; it runs the executor on the temp file,
--                       and falls back to the single stream
--   Deferred.antt       RebornLauncher/DownloadResume.cpp: EnqueueDeferredFileUpdate (enqueue) and
--                       ProcessDeferredFileUpdates (process_deferred), also as separate locked
--                       sections (Op), with the busy test and the retry delay
--   Paths.antt          TrimAscii of RebornLauncher/NetUtils.cpp, the path keys of Manifest.cpp and
--                       LauncherUpdateCoordinator.cpp, and the list of local-only files
--   Sync.antt           RebornLauncher/Manifest.cpp: BuildPrelaunchSyncList and what it calls
--   Clients.antt        RebornLauncher/ClientState.cpp: the list of started games, their process
--                       handles and download marks
--   Resume.antt         RebornLauncher/DownloadResume.cpp: the order in which
--                       DownloadWithResume tries its transports, and the check of size and MD5
--   Transport.antt      RebornLauncher/ResumeDownload.cpp: DownloadHttp, which goes on behind the bytes of
--                       a partial file. What a transport does is an input of Resume.antt
--   Urls.antt           RebornLauncher/NetUtils.cpp: paths in URLs, MergeUnique
--   Hex.antt            HexBodyToBytes of the same file, and BytesToHexLower of
--                       UpdateForge/UpdateForge.cpp
--   Archive.antt        RebornLauncher/Archive.cpp: the paths inside of archives; Archive/Extract.antt
--                       ScanArchive, ExtractFiles and VerifyArchiveReadable on what libarchive reads,
--                       Archive/Batches.antt the threads of Extract7z
--   Percent.antt        UrlEncode of RebornLauncher/P2PClient.cpp and of CryptoLoader/dllmain.cpp
--   P2p.antt            RebornLauncher/P2PClient.cpp: the candidate paths and the loop over them
--                       (try_candidates); P2p/Endpoint.antt TryDownload and ParseEndpoint
--   Lines.antt          the lines that std::getline reads, and trimming
--   Stun.antt           RebornLauncher/LauncherP2PConfig.cpp: the lists of STUN servers and the settings
--   Mapping.antt        RebornLauncher/Mapping.cpp: WriteVersionToMapping, which publishes the hashes in
--                       shared memory, and CryptoLoader/dllmain.cpp: RefreshVersionMapFromSharedMemory
--                       and ParseVersionMapPayload, which read them in the game's process
--   Hook.antt           CryptoLoader/dllmain.cpp: HandleHookedFileCheck with its cache and its cooldown,
--                       and HookedGetFileAttributesA. It asks the launcher's web service for downloads
--   Web.antt            RebornLauncher/WebService.cpp: what a request to /download does
--                       (execute_client_download); Web/Queue.antt its queue of asynchronous downloads
--                       and their worker, Web/Steps.antt the histories of both (Reaches)
--   Bootstrap.antt      applyBootstrapRoot of RebornLauncher/Manifest.cpp (Bootstrap/Apply.antt), and the
--                       URLs of NetUtils.cpp that it takes apart
--   Manifest.antt       the same file: the request of the version manifest and its formats
--   Update.antt         RebornLauncher/RuntimeUpdater.cpp: Execute (update_runtime_files), and
--                       DownloadBasePackage of LauncherUpdateCoordinator.cpp, which verifies an archive
--                       and unpacks it as in Archive.antt
--   Forge.antt          UpdateForge/UpdateForge.cpp: AreFilesBinaryEqual and CollectChangedFiles
--   Base.antt           shared names, Boolean tests and lemmas on lists
--   Tests.antt          concrete runs
--
-- What is not under the repository is an input or a parameter: httplib, jsoncpp, the file system and
-- the Windows calls answer by the fields of records such as Answers, ChunkedAnswers and Probe, and
-- std::filesystem's normalisation of paths is a function. A JSON state file stands for the state
-- that it encodes. Integers are natural numbers, with the wrap-around of the C++ type written out.
--
-- Two loops run on fuel. That of Initialize makes at most one round for each byte of the file when no
-- sum wraps, so the file size and one more is enough; that of AreFilesBinaryEqual takes at least one
-- byte in each round but the last, so one round more than the first file has bytes is enough. A
-- schedule of workers is a list of moves, so nothing here says that a fair scheduler lets the workers
-- of a chunked download finish; the worker of the web service is followed to its end.
--
-- Not modelled: windows, tray, splash and sprites, logging and status texts, WebRTC, hashes and
-- ciphers, the reading of the bootstrap file, the run coordinator and its polling, the
-- restarts of the web service's listener, the threads and dialogs of UpdateForge and its patch
-- packages, and of CryptoLoader the attachment of the hooks, WinHTTP and the thread that reads the published table again.
pub mod Base
pub mod Files
pub mod Chunk
pub mod Executor
pub mod SingleStream
pub mod Chunked
pub mod Deferred
pub mod Paths
pub mod Sync
pub mod Clients
pub mod Urls
pub mod Resume
pub mod Transport
pub mod Hex
pub mod Tests
pub mod Archive
pub mod Percent
pub mod P2p
pub mod Lines
pub mod Stun
pub mod Mapping
pub mod Hook
pub mod Web
pub mod Forge
pub mod Bootstrap
pub mod Update
pub mod Manifest
