-- ===== src/Udp/References.antt =====
-- The references across udp_create of udp.c.
use swnet_win.Base.{ℕ, ℤ, Bool, Option, List}
use swnet_win.World.{Env, World}
use swnet_win.Ledger.{KnowsHandles, KeepsRefs}
use swnet_win.Ledger.Held.{Allocates, Holds-KeepsRefs}
use swnet_win.Udp.Object.{udp_create}
use swnet_win.Udp.Object.Balance.{udp_create-Holds}
use swnet_win.Udp.Group.{Item, udp_initialize_grp, udp_raise_grp, udp_detach_grp, udp_write_grp}
use swnet_win.Udp.Group.Balance.{
  udp_initialize_grp-Holds, udp_raise_grp-Holds, udp_detach_grp-Holds, udp_write_grp-Holds,
}

-- udp_create gives back the references of every link as often as it takes them, whether the
-- address, the socket, the flags, the attachment or the packets for received data fail or not. The
-- object manager gives an object for a handle that it has just allocated, and control blocks know
-- their handles.
pub udp_create-KeepsRefs :
    (env : Env) (w : World) (h : ℤ)
    → Allocates env
    → KnowsHandles w
    → (ntohs htons : ℕ → ℕ) (inited has_callback has_address : Bool) (l_port flag : ℕ)
    → KeepsRefs h w (udp_create ntohs htons inited has_callback has_address l_port flag env w).1
udp_create-KeepsRefs env w h allocates known ntohs htons inited callback address l_port flag =
    Holds-KeepsRefs w h (udp_create-Holds allocates ntohs htons inited callback address l_port flag)
      known

-- The calls on groups of packets, udp_initialize_grp, udp_raise_grp, udp_detach_grp and
-- udp_write_grp, each give back the references of every link as often as they take them, on every
-- branch. Control blocks know their handles.
pub udp_grp-KeepsRefs :
    (env : Env) (w : World) (h : ℤ)
    → KnowsHandles w
    → (lnk : ℤ) (grp : Option (List Item)) (htons htonl : ℕ → ℕ) (r_port : ℕ) (found : Bool)
    → KeepsRefs h w (udp_initialize_grp lnk grp env w).1
      × KeepsRefs h w (udp_raise_grp htons htonl lnk r_port env w).1
      × KeepsRefs h w (udp_detach_grp lnk env w).1
      × KeepsRefs h w (udp_write_grp found lnk grp env w).1
udp_grp-KeepsRefs env w h known lnk grp htons htonl r_port found = (
  Holds-KeepsRefs w h (udp_initialize_grp-Holds lnk grp) known,
  Holds-KeepsRefs w h (udp_raise_grp-Holds htons htonl lnk r_port) known,
  Holds-KeepsRefs w h (udp_detach_grp-Holds lnk) known,
  Holds-KeepsRefs w h (udp_write_grp-Holds found lnk grp) known,
)
