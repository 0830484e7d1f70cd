-- ===== src/Daemon/Fanout.antt =====
-- src/daemon.rs: `SessionNotificationFanout`, the history of the notifications of an MCP session. Each
-- subscriber keeps a cursor and asks for what came since.
pub mod Since
use uxc.Base.{
  ℕ, String, Option, none, some, List, [], ◌∷◌, ◌++◌, map, ltb, or_else, keep, saturating_add,
}
use uxc.Base.Window.{pop_to}

-- `MCP_NOTIFICATION_HISTORY_LIMIT`
abbrev pub history_limit : ℕ
history_limit = 256

-- `FanoutNotification`
pub record FanoutNotification (N : Type 0) : Type 0 where
  pub seq : ℕ
  pub notification : N

-- `SessionNotificationFanout`
pub record Fanout (N : Type 0) : Type 0 where
  pub next_seq : ℕ
  pub notifications : List (FanoutNotification N)
  pub stream_error : Option String

abbrev pub empty_fanout : {N : Type 0} → Fanout N
empty_fanout = record { next_seq = 0; notifications = []; stream_error = none }

module _ {N : Type 0} where
  -- One turn of the loop of `extend`.
  unfoldable pub push : N → Fanout N → Fanout N
  push n f =
      let seq = saturating_add f.next_seq 1 in
      record f {
        next_seq = seq;
        notifications =
            pop_to history_limit (f.notifications ++ record { seq = seq; notification = n } ∷ []);
      }

  unfoldable pub extend : List N → Fanout N → Fanout N
  extend [] f = f
  extend (n ∷ ns) f = extend ns (push n f)

  unfoldable pub since : ℕ → Fanout N → List N × ℕ
  since cursor f =
      (map (λ e. e.notification) (keep (λ e. ltb cursor e.seq) f.notifications), f.next_seq)

  unfoldable pub set_stream_error : String → Fanout N → Fanout N
  set_stream_error e f = record f { stream_error = or_else f.stream_error (some e) }

  unfoldable pub clear_stream_error : Fanout N → Fanout N
  clear_stream_error f = record f { stream_error = none }
