-- ===== src/Arp/References.antt =====
-- The references across arp_create and arp_nrequest of arp.c.
use swnet_win.Base.{ℕ, ℤ, is_neg, Bool, refl, List, if◌then◌else◌, arith}
use swnet_win.World.{Env, World, ◌>>=◌, ◌>>◌, when◌then◌else◌}
use swnet_win.Ledger.{KnowsHandles, KeepsRefs}
use swnet_win.Ledger.Held.{
  Allocates, Holds, with_ref, Holds-bind, Holds-then, Holds-give, Holds-when, Holds-branch,
  Holds-get, Holds-put, Holds-syscall, Holds-objdefr, Holds-objallo, Holds-notified,
  Holds-KeepsRefs,
}
use swnet_win.Arp.{Adapter, arprefr, arp_entry, arp_create, reply, arp_nrequest}

module _ {env : Env} {p : ℤ → ℕ} where
  Holds-arprefr : (k : ℤ) → Holds env p (arprefr k) (λ r. if is_neg r then p else with_ref k p)
  unfolding arprefr ◌>>=◌ ◌>>◌ when◌then◌else◌
  Holds-arprefr k = record {
    run = λ w known. (λ h. ground (arith, known h), λ h. ground (arith, known k));
  }

  arp_nrequest-Holds :
      (ntohl ntohs : ℕ → ℕ) (makeerror : ℤ → ℤ) (mac : List ℕ) (link : ℤ) (target : ℕ)
      → Holds env p (arp_nrequest ntohl ntohs makeerror mac link target) (λ r. p)
  unfolding arp_nrequest reply
  arp_nrequest-Holds ntohl ntohs makeerror mac link target =
      Holds-bind (Holds-arprefr link) (λ found. Holds-branch (is_neg found) (Holds-give _) (
        Holds-get (λ n e. Holds-bind (Holds-syscall _) (λ retval.
          Holds-bind
            (Holds-when
              (λ c.
                Holds-when (λ d. Holds-then (Holds-notified _ _) (Holds-give _))
                  (λ d. Holds-give _))
              (λ c. Holds-give _))
            (λ called. Holds-then (Holds-objdefr link refl) (Holds-give _))))))

  arp_create-Holds :
      (allocates : Allocates env) (callback : Bool) (source : ℕ) (adapters : List Adapter)
      → Holds env p (arp_create callback source adapters) (λ r. p)
  unfolding arp_create arp_entry when◌then◌else◌ ◌>>◌
  arp_create-Holds allocates callback source adapters = Holds-bind (Holds-syscall _) (λ fd.
      Holds-objallo allocates _ (Holds-then (Holds-syscall _) (Holds-give _))
        (λ h. Holds-then (Holds-put refl) (Holds-then (Holds-objdefr h refl) (Holds-give _))))

-- arp_create and arp_nrequest give back the references of every link as often as they take them, on
-- every branch. The object manager gives an object for a handle that it has just allocated, and
-- control blocks know their handles.
pub arp-KeepsRefs :
    (env : Env) (w : World) (h : ℤ)
    → Allocates env
    → KnowsHandles w
    → (callback : Bool) (source : ℕ) (adapters : List Adapter) (ntohl ntohs : ℕ → ℕ)
      (makeerror : ℤ → ℤ) (mac : List ℕ) (link : ℤ) (target : ℕ)
    → KeepsRefs h w (arp_create callback source adapters env w).1
      × KeepsRefs h w (arp_nrequest ntohl ntohs makeerror mac link target env w).1
arp-KeepsRefs env w h allocates known callback source adapters ntohl ntohs makeerror mac link
      target =
    (
      Holds-KeepsRefs w h (arp_create-Holds allocates callback source adapters) known,
      Holds-KeepsRefs w h (arp_nrequest-Holds ntohl ntohs makeerror mac link target) known,
    )
