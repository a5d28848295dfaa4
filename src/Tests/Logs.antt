-- ===== src/Tests/Logs.antt =====
-- The log requester on an entry of a function, and on a stream that breaks off.
use ukfaas.Prelude.{◌≡◌, ◌↔◌, ◌^◌, refl, true, false, none, some, List, [], ◌∷◌, ◌++◌, arith}
use ukfaas.Prelude.Lists.{All, if◌then◌else◌}
use ukfaas.Prelude.Text.{Text, text, ◌==◌, text_eq}
use ukfaas.Prelude.Map.{Map, load}
use ukfaas.Prelude.Exec.{ok, blocked}
use ukfaas.Prelude.Integer.{pos, neg, parse_int, decimal}
use ukfaas.Logs.{
  Request, Message, Decoded, field, entry, malformed, Reader, Journal, build_cmd, parse_entry,
  stream_logs, query, effective_namespace, identifier,
}
use ukfaas.Logs.Parsing.{Parses, parse_entry_lem}
use ukfaas.Logs.Streaming.{Streamed, opened, stream_logs_lem}
use ukfaas.Logs.Asking.{IsOf, Named, Filters, identifiers, query-IsOf}

abbrev of_f : Map Text Text
of_f =
    (text "MESSAGE", text "hello")
    ∷ (text "_PID", text "42")
    ∷ (text "SYSLOG_IDENTIFIER", text "openfaas-fn:f")
    ∷ (text "__REALTIME_TIMESTAMP", text "1700000000000000")
    ∷ []

abbrev hello : Message
hello = record {
  name = text "f";
  namespace = text "openfaas-fn";
  instance_name = text "42";
  timestamp = some (pos 1700000000000000000);
  body = text "hello";
}

abbrev quote : Text → Text
quote s = text "\"" ++ (s ++ text "\"")

parse_entry_lem_example : (parse_entry quote of_f ≡ (hello, none)) ↔ Parses of_f hello
parse_entry_lem_example = parse_entry_lem quote of_f hello

parsed : parse_entry quote of_f ≡ (hello, none)
unfolding parse_entry load text_eq parse_int
parsed = refl

-- Two colons are too many.
not_parsed :
    (parse_entry quote ((text "SYSLOG_IDENTIFIER", text "a:b:c") ∷ [])).1
    ≡ some (text "invalid SYSLOG_IDENTIFIER")
unfolding parse_entry load text_eq
not_parsed = refl

smallest : parse_int quote (text "-9223372036854775808") ≡ ok (neg (2 ^ 63))
unfolding parse_int
smallest = refl

printed : decimal 8080 ≡ text "8080"
unfolding decimal
printed = refl

abbrev reader : Reader
reader = record { cancelled = λ n. false; receives = λ n. true }

stream_logs_lem_example :
    Streamed reader
      (entry of_f ∷ malformed ∷ entry of_f ∷ [])
      (stream_logs quote reader (entry of_f ∷ malformed ∷ entry of_f ∷ []) opened)
stream_logs_lem_example = stream_logs_lem quote reader (entry of_f ∷ malformed ∷ entry of_f ∷ [])

-- What cannot be decoded ends the stream.
broken_off :
    stream_logs quote reader (entry of_f ∷ malformed ∷ entry of_f ∷ []) opened
    ≡ (ok tt, record { sent = hello ∷ []; closed = true })
unfolding stream_logs load text_eq parse_int
broken_off = refl

-- A receiver that has gone leaves the goroutine waiting, also when the context is cancelled later.
left_waiting :
    stream_logs quote
      (record { cancelled = λ n. false; receives = λ n. false })
      (entry of_f ∷ [])
      opened
    ≡ (blocked, opened)
unfolding stream_logs load text_eq parse_int
left_waiting = refl

abbrev req : Request
req = record {
  name = text "f";
  namespace = [];
  instance_name = [];
  since = none;
  tail = pos 20;
  follow = true;
}

abbrev journal : Journal
journal = record {
  look_path = ok tt;
  stdout_pipe = ok tt;
  stderr_pipe = ok tt;
  start = λ args. ok tt;
  now = pos 1700000300000000000;
  later = pos 1700000300000000001;
  format = λ t. text "2023-11-14 22:13:20";
  quote = quote;
  prints = λ args. entry of_f ∷ [];
}

arguments :
    build_cmd journal.format journal.now journal.later req
    ≡ text "--utc"
      ∷ text "--no-pager"
      ∷ text "--output=json"
      ∷ text "--identifier=openfaas-fn:f"
      ∷ text "--since=2023-11-14 22:13:20"
      ∷ text "--follow"
      ∷ text "--lines=20"
      ∷ []
unfolding build_cmd text_eq decimal
arguments = refl

abbrev of_g : Map Text Text
of_g = (text "MESSAGE", text "other") ∷ (text "SYSLOG_IDENTIFIER", text "openfaas-fn:g") ∷ []

-- The entries of an identifier.
only : Text → List Decoded → List Decoded
only x [] = []
only x (malformed ∷ ds) = malformed ∷ only x ds
only x (entry e ∷ ds) =
    let rest = only x ds in if field (text "SYSLOG_IDENTIFIER") e == x then entry e ∷ rest else rest

chosen : List Text → List Decoded → List Decoded
chosen (x ∷ []) ds = only x ds
chosen _ ds = ds

only-Named : (x : Text) (ds : List Decoded) → All (Named x) (only x ds)
unfolding only
only-Named x [] = tt
only-Named x (malformed ∷ ds) = (tt, only-Named x ds)
only-Named x (entry e ∷ ds) = ground (arith, only-Named x ds)

-- A journal of two functions.
abbrev both : Journal
both = record journal { prints = λ args. chosen (identifiers args) (entry of_f ∷ entry of_g ∷ []) }

both-Filters : Filters both
unfolding chosen
both-Filters = record { named = λ args x e. rw e (only-Named x (entry of_f ∷ entry of_g ∷ [])) }

query-IsOf_example : All (IsOf req) (query both reader req opened).1.sent
unfolding effective_namespace text_eq
query-IsOf_example = query-IsOf both reader req (omega arith) (omega arith) both-Filters

-- The message of the other function is not sent.
sent_of_f : (query both reader req opened).1.sent ≡ hello ∷ []
unfolding query build_cmd identifier effective_namespace identifiers chosen only decimal stream_logs
    load text_eq parse_int
sent_of_f = refl
