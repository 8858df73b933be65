-- ===== src/Logic/Spreading.antt =====
-- What a node sends when a route request reaches it.
pub mod Preparing
pub mod Answering
pub mod Requests
use meshias.Base.{ℕ, ◌==◌, ◌≡◌, refl, ◌∙◌, Bool, true, false, List, [], ◌∷◌, if◌then◌else◌}
use meshias.State.{
  MshData, Event, set_verdict, rtnl_route_add, rtnl_route_del, rtnl_route_set_gateway, sendto, send,
}
use meshias.Act.{Act}
use meshias.Act.Keeps.{Keeps}

-- The AODV messages of a trace.
abbrev pub messages : List Event → List Event
messages [] = []
messages (sendto ttl address payload ∷ rest) = sendto ttl address payload ∷ messages rest
messages (set_verdict n v ∷ rest) = messages rest
messages (rtnl_route_add n r ∷ rest) = messages rest
messages (rtnl_route_del n ∷ rest) = messages rest
messages (rtnl_route_set_gateway n ip len ∷ rest) = messages rest
messages (send buf offset length ∷ rest) = messages rest

-- The same messages have been sent, and this node's addresses and its sequence number are the same.
pub record Silent (start s : MshData) : Type 0 where
  pub sent : messages s.trace ≡ messages start.trace
  pub ip_addr : s.ip_addr ≡ start.ip_addr
  pub broadcast_addr : s.broadcast_addr ≡ start.broadcast_addr
  pub seq_num : s.seq_num ≡ start.seq_num

pub Silent-refl : (s : MshData) → Silent s s
Silent-refl s = record { sent = refl; ip_addr = refl; broadcast_addr = refl; seq_num = refl }

module _ (start : MshData) where
  pub silent :
      {A : Type 0} (m : Act MshData A) → ((s : MshData) → Silent s (m s).1) → Keeps (Silent start) m
  silent m same = record {
    at = λ s h. record {
      sent = (same s).sent ∙ h.sent;
      ip_addr = (same s).ip_addr ∙ h.ip_addr;
      broadcast_addr = (same s).broadcast_addr ∙ h.broadcast_addr;
      seq_num = (same s).seq_num ∙ h.seq_num;
    };
  }
