-- ===== src/Tests/Block.antt =====
-- The block of `main` over a POSIX queue, the engine that prints and calls that succeed.
use banip.Queue.Posix.{posix_queue}
use banip.Daemon.Start.{Statics}
use banip.Daemon.Main.{statics_of}
use banip.Tests.Start.{calm_kernel, root_host, option_host}
use banip.Tests.Main.{dummy, chosen}

abbrev statics : Statics (posix_queue calm_kernel) dummy root_host
statics = statics_of (posix_queue calm_kernel) option_host root_host chosen
