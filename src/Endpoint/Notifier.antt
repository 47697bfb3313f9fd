-- ===== src/Endpoint/Notifier.antt =====
-- crates/transport/src/endpoint.rs: the subscribers of the notifications. A sender of a channel is the
-- messages that wait in it, and whether its receiver is still there: `send` fails exactly if not.
use mcp_lock.Prelude.{
  ℕ, String, ◌≡◌, ◌↔◌, sym, subst, Bool, true, List, [], ◌∷◌, ◌++◌, map, retain, Option, none, some,
  Memᴰ,
}
use mathlib.Core.List.Memᴰ as MemD
use mcp_lock.Prelude.Search.{mem-retain, mem-retain_of}
use mcp_lock.Prelude.Sync.{Mutex, new_mutex, lock, store}

pub record Sender : Type 0 where
  pub id : ℕ
  pub connected : Bool
  pub sent : List String

pub record Notifier : Type 0 where
  pub subscribers : Mutex (List Sender)

abbrev pub is_connected : Sender → Bool
is_connected s = s.connected

abbrev pub send : String → Sender → Sender
send message s = record s { sent = s.sent ++ message ∷ [] }

abbrev subscribed : Sender → Mutex (List Sender) → Option (List Sender) → Notifier
subscribed tx m none = record { subscribers = m }
subscribed tx m (some subs) = record { subscribers = store m (subs ++ tx ∷ []) }

-- `id` names the new channel.
unfoldable pub subscribe : Notifier → ℕ → Notifier
subscribe n id =
    subscribed (record { id = id; connected = true; sent = [] }) n.subscribers (lock n.subscribers)

abbrev notified : String → Mutex (List Sender) → Option (List Sender) → Notifier
notified message m none = record { subscribers = m }
notified message m (some subs) = record {
  subscribers = store m (map (send message) (retain is_connected subs));
}

-- `message` is the text of the notification.
unfoldable pub notify : Notifier → String → Notifier
notify n message = notified message n.subscribers (lock n.subscribers)

-- After a broadcast the subscribers are those that were connected, each with the message last: no
-- connected subscriber misses it, and those that have gone are dropped.
pub mem-notify :
    (subs : List Sender) (message : String) (s : Sender)
    → Memᴰ s (notify (record { subscribers = new_mutex subs }) message).subscribers.value
      ↔ ((t : Sender) × Memᴰ t subs × (t.connected ≡ true) × (s ≡ send message t))
unfolding notify
mem-notify subs message s = (
  λ m.
      let (t, at, e) = MemD.of_map (send message) (retain is_connected subs) m in
      let (there, up) = mem-retain is_connected subs t at in (t, there, up, sym e),
  λ (t, there, up, e).
      subst (λ x. Memᴰ x (map (send message) (retain is_connected subs))) (sym e)
        (MemD.map (send message) (mem-retain_of is_connected subs t there up)),
)
