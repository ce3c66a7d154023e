-- ===== src/Tun/Justified/Restore.antt =====
-- `cleanupTUNRoutingLocked` of mihomotui/tun_routing_linux.go.
use mihomo_loongnix.Prelude.{subst, subst, string_eq}
use mihomo_loongnix.Tun.{Tun}
use mihomo_loongnix.Tun.Justified.{Justified}
