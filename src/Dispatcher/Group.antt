-- ===== src/Dispatcher/Group.antt =====
-- egress/mcast_sender.c: `mcast_sender_init`, the socket that frames leave by to the group.
use io_t_collector.Base.{
  ℕ, ◌≡◌, refl, arith, Bool, true, false, not, List, [], ◌∷◌, ◌==◌, if◌then◌else◌, Option, none,
  some,
}
use io_t_collector.Status.{Status, Result, done, fail, err_generic, err_io}
use io_t_collector.Ingress.Udp.{close}

-- `g_mcast_dest` and `g_dest_ready`; the port is the number that `htons` takes.
pub record Dest : Type 0 where
  pub port : ℕ
  pub address : ℕ
  pub g_dest_ready : Bool

-- The options of the socket, in the order in which `setsockopt` is asked for them.
pub data SocketOption : Type 0 where
  multicast_if multicast_ttl multicast_loop : ℕ → SocketOption

-- What `inet_pton`, `socket`, `if_nametoindex` and the two calls of `setsockopt` that count answer.
pub record GroupAnswer : Type 0 where
  pub address : Option ℕ
  pub fd : Option ℕ
  pub ifindex : ℕ
  pub if_ok : Bool
  pub ttl_ok : Bool

-- The result, the statics, the open descriptors and the options that were asked for.
pub record Sender : Type 0 where
  pub result : Result ℕ
  pub dest : Dest
  pub fds : List ℕ
  pub asked : List SocketOption

-- `MCAST_TTL`.
abbrev mcast_ttl : ℕ
mcast_ttl = 16

abbrev ttl_of : ℕ → ℕ
ttl_of ttl = if ttl == 0 then mcast_ttl else ttl

-- The calls from IP_MULTICAST_TTL on, once `asked` has been asked for.
unfoldable pub set_ttl : Dest → List ℕ → ℕ → Bool → ℕ → List SocketOption → Sender
set_ttl dest fds fd ttl_ok ttl asked =
    if ttl_ok
    then record {
      result = done fd;
      dest = record dest { g_dest_ready = true };
      fds = fd ∷ fds;
      asked = multicast_loop 0 ∷ multicast_ttl (ttl_of ttl) ∷ asked;
    }
    else record {
      result = fail err_io;
      dest = dest;
      fds = close fd (fd ∷ fds);
      asked = multicast_ttl (ttl_of ttl) ∷ asked;
    }

-- The choice of the interface, if it is `named`.
unfoldable pub set_interface : Dest → List ℕ → ℕ → Bool → ℕ → GroupAnswer → Sender
set_interface dest fds fd named ttl a =
    if not named
    then set_ttl dest fds fd a.ttl_ok ttl []
    else if a.ifindex == 0
    then record { result = fail err_generic; dest = dest; fds = close fd (fd ∷ fds); asked = [] }
    else if a.if_ok
    then set_ttl dest fds fd a.ttl_ok ttl (multicast_if a.ifindex ∷ [])
    else record {
      result = fail err_io;
      dest = dest;
      fds = close fd (fd ∷ fds);
      asked = multicast_if a.ifindex ∷ [];
    }

abbrev refused_with : Status → Dest → List ℕ → Sender
refused_with rc dest fds = record { result = fail rc; dest = dest; fds = fds; asked = [] }

abbrev with_socket : Dest → List ℕ → Bool → ℕ → GroupAnswer → Option ℕ → Sender
with_socket dest fds named ttl a none = refused_with err_io dest fds
with_socket dest fds named ttl a (some fd) = set_interface dest fds fd named ttl a

abbrev with_address : Dest → List ℕ → ℕ → Bool → ℕ → GroupAnswer → Option ℕ → Sender
with_address dest fds port named ttl a none =
    refused_with err_generic (record dest { port = port; address = 0 }) fds
with_address dest fds port named ttl a (some address) =
    with_socket (record { port = port; address = address; g_dest_ready = false }) fds named ttl a
      a.fd

-- `group` and `named` are whether the pointers are given.
unfoldable pub mcast_sender_init : Dest → List ℕ → Bool → ℕ → Bool → ℕ → GroupAnswer → Sender
mcast_sender_init dest fds group port named ttl a =
    if not group
    then refused_with err_generic dest fds
    else if port == 0
    then refused_with err_generic dest fds
    else with_address dest fds port named ttl a a.address

-- Either an error with every descriptor closed again, or a ready socket: the address and the port
-- stand in `g_mcast_dest`, the time to live is set and not 0, and the loop is turned off.
pub data IsPrepared (fds : List ℕ) (port ttl : ℕ) : Sender → Type 0 where
  closed : {s : Sender} (rc : Status) → s.result ≡ fail rc → s.fds ≡ fds → IsPrepared fds port ttl s
  ready :
      {s : Sender} (fd address : ℕ) (before : List SocketOption)
      → s.result ≡ done fd
      → s.dest ≡ record { port = port; address = address; g_dest_ready = true }
      → s.fds ≡ fd ∷ fds
      → s.asked ≡ multicast_loop 0 ∷ multicast_ttl (ttl_of ttl) ∷ before
      → IsPrepared fds port ttl s

close_head : (fd : ℕ) (fds : List ℕ) → close fd (fd ∷ fds) ≡ fds
close_head fd fds = ground arith

abbrev dest_of : ℕ → ℕ → Dest
dest_of port address = record { port = port; address = address; g_dest_ready = false }

set_ttl-IsPrepared :
    (port address ttl : ℕ) (fds : List ℕ) (fd : ℕ) (ttl_ok : Bool) (asked : List SocketOption)
    → IsPrepared fds port ttl (set_ttl (dest_of port address) fds fd ttl_ok ttl asked)
unfolding set_ttl
set_ttl-IsPrepared port address ttl fds fd true asked = ready fd address asked refl refl refl refl
set_ttl-IsPrepared port address ttl fds fd false asked = closed err_io refl (close_head fd fds)

interface_refused :
    (port address ttl : ℕ) (fds : List ℕ) (fd : ℕ) (no_index if_ok ttl_ok : Bool) (ifindex : ℕ)
    → IsPrepared fds port ttl (
        if no_index
        then record {
          result = fail err_generic;
          dest = dest_of port address;
          fds = close fd (fd ∷ fds);
          asked = [];
        }
        else if if_ok
        then set_ttl (dest_of port address) fds fd ttl_ok ttl (multicast_if ifindex ∷ [])
        else record {
          result = fail err_io;
          dest = dest_of port address;
          fds = close fd (fd ∷ fds);
          asked = multicast_if ifindex ∷ [];
        })
interface_refused port address ttl fds fd true if_ok ttl_ok ifindex =
    closed err_generic refl (close_head fd fds)
interface_refused port address ttl fds fd false true ttl_ok ifindex =
    set_ttl-IsPrepared port address ttl fds fd ttl_ok (multicast_if ifindex ∷ [])
interface_refused port address ttl fds fd false false ttl_ok ifindex =
    closed err_io refl (close_head fd fds)

set_interface-IsPrepared :
    (port address ttl : ℕ) (fds : List ℕ) (fd : ℕ) (named : Bool) (a : GroupAnswer)
    → IsPrepared fds port ttl (set_interface (dest_of port address) fds fd named ttl a)
unfolding set_interface
set_interface-IsPrepared port address ttl fds fd false a =
    set_ttl-IsPrepared port address ttl fds fd a.ttl_ok []
set_interface-IsPrepared port address ttl fds fd true a =
    interface_refused port address ttl fds fd (a.ifindex == 0) a.if_ok a.ttl_ok a.ifindex

with_socket-IsPrepared :
    (port address ttl : ℕ) (fds : List ℕ) (named : Bool) (a : GroupAnswer) (fd : Option ℕ)
    → IsPrepared fds port ttl (with_socket (dest_of port address) fds named ttl a fd)
with_socket-IsPrepared port address ttl fds named a none = closed err_io refl refl
with_socket-IsPrepared port address ttl fds named a (some fd) =
    set_interface-IsPrepared port address ttl fds fd named a

with_address-IsPrepared :
    (port ttl : ℕ) (dest : Dest) (fds : List ℕ) (named : Bool) (a : GroupAnswer)
    (address : Option ℕ)
    → IsPrepared fds port ttl (with_address dest fds port named ttl a address)
with_address-IsPrepared port ttl dest fds named a none = closed err_generic refl refl
with_address-IsPrepared port ttl dest fds named a (some address) =
    with_socket-IsPrepared port address ttl fds named a a.fd

guarded :
    (given no_port : Bool) (port ttl : ℕ) (dest : Dest) (fds : List ℕ) {s : Sender}
    → IsPrepared fds port ttl s
    → IsPrepared fds port ttl (
        if not given
        then refused_with err_generic dest fds
        else if no_port
        then refused_with err_generic dest fds
        else s)
guarded false no_port port ttl dest fds p = closed err_generic refl refl
guarded true true port ttl dest fds p = closed err_generic refl refl
guarded true false port ttl dest fds p = p

-- `mcast_sender_init` either fails and leaves no descriptor open, or hands over a socket to the group
-- that is ready, with a time to live that is not 0 and without the loop back to this host.
pub mcast_sender_init-IsPrepared :
    (dest : Dest) (fds : List ℕ) (group : Bool) (port : ℕ) (named : Bool) (ttl : ℕ)
    (a : GroupAnswer)
    → IsPrepared fds port ttl (mcast_sender_init dest fds group port named ttl a)
unfolding mcast_sender_init
mcast_sender_init-IsPrepared dest fds group port named ttl a =
    guarded group (port == 0) port ttl dest fds
      (with_address-IsPrepared port ttl dest fds named a a.address)
