-- ===== src/Logs.antt =====
-- pkg/logs/requester.go: the requester of function logs, which runs journalctl and streams what it
-- prints. A time is its number of nanoseconds since 1970.
pub mod Parsing
pub mod Streaming
pub mod Asking
use ukfaas.Prelude.{
  ℕ, zero, suc, ◌*◌, ◌+◌, Bool, true, false, ◌&&◌, Option, none, some, List, [], ◌∷◌, ◌++◌,
}
use ukfaas.Prelude.Lists.{eqb, if◌then◌else◌, length}
use ukfaas.Prelude.Text.{Text, text, ◌==◌, text_eq}
use ukfaas.Prelude.Map.{Map, load}
use ukfaas.Prelude.Exec.{
  Outcome, ok, err, panic, blocked, Exec, pure, fail, gets, lift, modify, wrap, ◌>>=◌, ◌>>◌,
}
use ukfaas.Prelude.Integer.{ℤ, pos, negsuc, ltz, minus, scaled, as_i64, parse_int, decimal}

-- `logs.Request`
pub record Request : Type 0 where
  pub name : Text
  pub namespace : Text
  pub instance_name : Text
  pub since : Option ℤ
  pub tail : ℤ
  pub follow : Bool

-- `logs.Message`; the zero `time.Time`, which is not one of these times, is `none`.
pub record Message : Type 0 where
  pub name : Text
  pub namespace : Text
  pub instance_name : Text
  pub timestamp : Option ℤ
  pub body : Text

-- 5 * time.Minute
abbrev pub five_minutes : ℕ
five_minutes = 300 * 1000000000

-- The time from which to read; `now` and `later` are two readings of the clock.
unfoldable pub since_time : ℤ → ℤ → Option ℤ → ℤ
since_time now later none = minus now five_minutes
since_time now later (some t) = if ltz t later then t else minus now five_minutes

-- `faasd.DefaultFunctionNamespace` if there is none.
unfoldable pub effective_namespace : Request → Text
effective_namespace req = if req.namespace == [] then text "openfaas-fn" else req.namespace

unfoldable pub identifier : Request → Text
unfolding effective_namespace
identifier req = effective_namespace req ++ (text ":" ++ req.name)

lines_arg : ℤ → List Text
lines_arg (pos zero) = []
lines_arg (pos (suc n)) = (text "--lines=" ++ decimal (suc n)) ∷ []
lines_arg (negsuc n) = []

-- The arguments of journalctl; `format` is `t.UTC().Format("2006-01-02 15:04:05")`.
unfoldable pub build_cmd : (ℤ → Text) → ℤ → ℤ → Request → List Text
unfolding since_time identifier lines_arg
build_cmd format now later req =
    text "--utc"
    ∷ text "--no-pager"
    ∷ text "--output=json"
    ∷ (text "--identifier=" ++ identifier req)
    ∷ (text "--since=" ++ format (since_time now later req.since))
    ∷ ((if req.follow then text "--follow" ∷ [] else []) ++ lines_arg req.tail)

in_front : ℕ → List Text → List Text
in_front c [] = (c ∷ []) ∷ []
in_front c (p ∷ ps) = (c ∷ p) ∷ ps

-- `strings.Split(s, sep)` for a separator of one byte.
unfoldable pub split : ℕ → Text → List Text
unfolding in_front
split sep [] = [] ∷ []
split sep (c ∷ s) = let rest = split sep s in if eqb c sep then [] ∷ rest else in_front c rest

-- `entry[key]`
abbrev pub field : Text → Map Text Text → Text
field key entry = elim (load key entry) [ none ↦ [] | some v ↦ v ]

-- A message with the fields that are set before the timestamp is read.
abbrev pub untimed : Map Text Text → Text → Text → Message
untimed entry namespace name = record {
  name = name;
  namespace = namespace;
  instance_name = field (text "_PID") entry;
  timestamp = none;
  body = field (text "MESSAGE") entry;
}

timed : Message → Outcome ℤ → Message × Option Text
timed msg (ok ms) = (record msg { timestamp = some (as_i64 (scaled 1000 ms)) }, none)
timed msg (err e) = (msg, some (text "invalid timestamp: " ++ e))
timed msg panic = (msg, none)
timed msg blocked = (msg, none)

stamped : (Text → Text) → Message → Option Text → Message × Option Text
unfolding timed
stamped quote msg none = (msg, some (text "missing required field __REALTIME_TIMESTAMP"))
stamped quote msg (some ts) = timed msg (parse_int quote ts)

named : (Text → Text) → Map Text Text → List Text → Message × Option Text
unfolding stamped
named quote entry (namespace ∷ name ∷ []) =
    stamped quote (untimed entry namespace name) (load (text "__REALTIME_TIMESTAMP") entry)
named quote entry _ = (untimed entry [] [], some (text "invalid SYSLOG_IDENTIFIER"))

-- The message, and the error if there is one; `quote` is `strconv.Quote`.
unfoldable pub parse_entry : (Text → Text) → Map Text Text → Message × Option Text
unfolding named split
parse_entry quote entry = named quote entry (split b':' (field (text "SYSLOG_IDENTIFIER") entry))

-- What the next call of `Decode` gives.
pub data Decoded : Type 0 where
  entry : Map Text Text → Decoded
  malformed : Decoded

-- What the loop sees of its surroundings by the number of messages sent: whether the context has
-- been cancelled, and whether the receiver takes a message more.
pub record Reader : Type 0 where
  pub cancelled : ℕ → Bool
  pub receives : ℕ → Bool

-- The channel: what has been received from it, and whether it is closed.
pub record Channel : Type 0 where
  pub sent : List Message
  pub closed : Bool

-- `msgs <- msg`, which waits for the receiver.
send : Reader → Message → Exec Channel (Unit {0})
send reader msg ch =
    if reader.receives (length ch.sent)
    then (ok tt, record ch { sent = ch.sent ++ msg ∷ [] })
    else (blocked, ch)

deliver : Reader → Message × Option Text → Exec Channel (Unit {0}) → Exec Channel (Unit {0})
unfolding send
deliver reader (msg, some e) again = pure tt
deliver reader (msg, none) again = do send reader msg; again

decoded : (Text → Text) → Reader → Decoded → Exec Channel (Unit {0}) → Exec Channel (Unit {0})
unfolding deliver parse_entry
decoded quote reader malformed again = pure tt
decoded quote reader (entry e) again = deliver reader (parse_entry quote e) again

-- The loop, over what the decoder gives; the list ends where `More` says so.
stream_loop : (Text → Text) → Reader → List Decoded → Exec Channel (Unit {0})
unfolding decoded
stream_loop quote reader [] ch = (ok tt, ch)
stream_loop quote reader (d ∷ ds) ch =
    let next = decoded quote reader d (stream_loop quote reader ds) ch in
    if reader.cancelled (length ch.sent) then (ok tt, ch) else next

-- The deferred call closes the channel when the loop returns.
unfoldable pub stream_logs : (Text → Text) → Reader → List Decoded → Exec Channel (Unit {0})
unfolding stream_loop
stream_logs quote reader ds = do
  stream_loop quote reader ds
  modify λ ch. record ch { closed = true }

-- What the requester asks of its surroundings: the operating system's calls, the clock, the formats,
-- and what journalctl prints for some arguments.
pub record Journal : Type 0 where
  pub look_path : Outcome (Unit {0})
  pub stdout_pipe : Outcome (Unit {0})
  pub stderr_pipe : Outcome (Unit {0})
  pub start : List Text → Outcome (Unit {0})
  pub now : ℤ
  pub later : ℤ
  pub format : ℤ → Text
  pub quote : Text → Text
  pub prints : List Text → List Decoded

-- The calls of `Query` up to the start of the goroutine that streams.
started : Journal → List Text → Exec Channel (Unit {0})
started j args = do
  lift (wrap (text "can not find journalctl: ") j.look_path)
  lift (wrap (text "failed to create journalctl pipe: ") j.stdout_pipe)
  lift (wrap (text "failed to create journalctl err pipe: ") j.stderr_pipe)
  lift (wrap (text "failed to create journalctl: ") (j.start args))

-- With what the goroutine sends on the channel until it ends or waits for ever.
unfoldable pub query : Journal → Reader → Request → Exec Channel (Unit {0})
unfolding build_cmd started stream_logs
query j reader req = do
  let args = build_cmd j.format j.now j.later req
  started j args
  stream_logs j.quote reader (j.prints args)
