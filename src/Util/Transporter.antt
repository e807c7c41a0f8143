-- ===== src/Util/Transporter.antt =====
-- src/pkg/transport/message.go: who waits for which message. Channels are numbers in a heap, and hold one
-- message. `Do` is parted where it waits. Messages are texts; whether the sender takes one is an argument.
pub mod Lanes
mod Examples
use frpcv.Prelude.{
  if◌then◌else◌, Text, text_eq, nat_eq, ◌==◌, Map, is_some, no_entries, put, del, ℕ, ◌+◌, Bool,
  true, false, Option, none, some,
}

pub record Channel : Type 0 where
  pub buffer : Option Text
  pub closed : Bool

pub record Transporter : Type 0 where
  pub registry : Map Text (Map Text ℕ)
  pub channels : ℕ → Channel
  pub next : ℕ

pub data DispatchResult : Type 0 where
  missed delivered blocked : DispatchResult

abbrev empty_channel : Channel
empty_channel = record { buffer = none; closed = false }

abbrev pub new_message_transporter : Transporter
new_message_transporter = record { registry = no_entries; channels = λ ch. empty_channel; next = 0 }

abbrev pub lanes_in : Option (Map Text ℕ) → Map Text ℕ
lanes_in none lane = none
lanes_in (some lanes) lane = lanes lane

-- The lanes of a message type, none at first
abbrev pub lanes_of : Transporter → Text → Map Text ℕ
lanes_of t ty = lanes_in (t.registry ty)

abbrev pub set_channel : ℕ → Channel → (ℕ → Channel) → ℕ → Channel
set_channel ch x channels i = if ch == i then x else channels i

-- With the new channel of `Do`
unfoldable pub register_msg_chan : Transporter → Text → Text → Transporter × ℕ
register_msg_chan t lane ty = (
  record {
    registry = put ty (put lane t.next (lanes_of t ty)) t.registry;
    channels = set_channel t.next empty_channel t.channels;
    next = t.next + 1;
  },
  t.next,
)

unfoldable pub unregister : Transporter → Text → Text → Transporter
unregister t lane ty = record t { registry = put ty (del lane (lanes_of t ty)) t.registry }

-- What happens at the channel that is found. A message for a full one blocks until it is closed or read.
unfoldable pub dispatch_to : Transporter → Text → Option ℕ → Transporter × DispatchResult
dispatch_to t m none = (t, missed)
dispatch_to t m (some ch) =
    if (t.channels ch).closed
    then (t, missed)
    else if is_some (t.channels ch).buffer
    then (t, blocked)
    else (
      record t {
        channels = set_channel ch (record { buffer = some m; closed = false }) t.channels;
      },
      delivered,
    )

unfoldable pub dispatch_with_type : Transporter → Text → Text → Text → Transporter × DispatchResult
unfolding dispatch_to
dispatch_with_type t m ty lane = dispatch_to t m (lanes_of t ty lane)

-- The deferred calls of `Do`: the lane is removed, then the channel is closed.
unfoldable pub leave : Transporter → ℕ → Text → Text → Transporter
unfolding unregister
leave t ch lane ty =
    let t' = unregister t lane ty in
    record t' { channels = set_channel ch (record (t'.channels ch) { closed = true }) t'.channels }

-- `Do` up to its wait; no channel when the message is not sent.
unfoldable pub begin_do : Transporter → Bool → Text → Text → Transporter × Option ℕ
unfolding register_msg_chan leave
begin_do t sends lane ty =
    let (t', ch) = register_msg_chan t lane ty in
    if sends then (t', some ch) else (leave t' ch lane ty, none)

-- The end of `Do`: nothing when the context ended, else what the channel has.
unfoldable pub end_do : Transporter → Bool → ℕ → Text → Text → Transporter × Option Text
unfolding leave
end_do t is_over ch lane ty =
    (leave t ch lane ty, (if is_over then none else (t.channels ch).buffer))
