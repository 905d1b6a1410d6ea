-- ===== src/Unicast/Connect.antt =====
-- `tcp_connect_timeout`: what becomes of the socket.
use io_t_collector.Base.{◌≡◌, arith, Bool, true, false, not, if◌then◌else◌, Option, none, some}
use io_t_collector.Status.{Status}
use io_t_collector.Unicast.{Attempt, Connection, finish_connect, tcp_connect_timeout}

abbrev pub is_none : Option Status → Bool
is_none none = true
is_none (some _) = false

-- An attempt that has returned closed its socket exactly if it got one and failed.
pub tcp_connect_timeout-closes :
    (a : Attempt) (c : Connection)
    → tcp_connect_timeout a ≡ some c
    → c.closed ≡ (if a.socket_ok then not (is_none c.rc) else false)
unfolding tcp_connect_timeout finish_connect
tcp_connect_timeout-closes a c e = ground arith
