-- ===== src/PortMap/Publish.antt =====
-- What parse_publish reads (crates/psroot-portmap/src/lib.rs).
use psroot.Text.{Text}
