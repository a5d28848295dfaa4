-- ===== src/Logs/Streaming.antt =====
-- `streamLogs`: what is sent on the channel, and when the stream ends.
use mathlib.Core.List.{append-nil, append_assoc}
use ukfaas.Prelude.{
  ℕ, ◌≡◌, ◌≢◌, ◌⊎◌, refl, sym, subst, ◌∙◌, Bool, true, false, Option, none, some, List, [], ◌∷◌,
  ◌++◌, inl, inr,
}
use ukfaas.Prelude.Lists.{length, Bool-cases}
use ukfaas.Prelude.Text.{Text, text_eq}
use ukfaas.Prelude.Map.{Map}
use ukfaas.Prelude.Exec.{Outcome, ok, err, panic, blocked, after}
use ukfaas.Logs.{
  Message, Decoded, entry, malformed, Reader, Channel, parse_entry, send, deliver, decoded,
  stream_loop, stream_logs,
}
use ukfaas.Logs.Parsing.{Parses, parse_entry_lem}

-- `ds` begins with entries that stand for the messages `ms`, in order, and goes on with `rest`.
abbrev pub Delivered : List Decoded → List Message → List Decoded → Type 0
Delivered ds [] rest = ds ≡ rest
Delivered [] (m ∷ ms) rest = ⊥
Delivered (malformed ∷ ds) (m ∷ ms) rest = ⊥
Delivered (entry e ∷ ds) (m ∷ ms) rest = Parses e m × Delivered ds ms rest

-- What comes next is not an entry that stands for a message.
abbrev pub Refused : List Decoded → Type 0
Refused [] = ⊥
Refused (malformed ∷ ds) = Unit
Refused (entry e ∷ ds) = (m : Message) → ¬ Parses e m

-- Why a loop that has sent `n` messages stopped before `rest`.
abbrev pub Ended : Reader → Outcome (Unit {0}) → ℕ → List Decoded → Type 0
Ended reader o n rest =
    ((o ≡ ok tt) × ((rest ≡ []) ⊎ (reader.cancelled n ≡ true) ⊎ Refused rest))
    ⊎ ((o ≡ blocked) × (rest ≢ []) × (reader.receives n ≡ false))

record Looped (reader : Reader) (ds : List Decoded) (ch : Channel)
    (r : Outcome (Unit {0}) × Channel) : Type 0 where
  ms : List Message
  rest : List Decoded
  delivered : Delivered ds ms rest
  sent : r.1.sent ≡ ch.sent ++ ms
  kept : r.1.closed ≡ ch.closed
  ended : Ended reader r.0 (length r.1.sent) rest

module _ (quote : Text → Text) (reader : Reader) where
  stopped :
      (ds : List Decoded) (ch : Channel) (o : Outcome (Unit {0}))
      → Ended reader o (length ch.sent) ds
      → Looped reader ds ch (o, ch)
  stopped ds ch o h = record {
    ms = [];
    rest = ds;
    delivered = refl;
    sent = sym (append-nil ch.sent);
    kept = refl;
    ended = h;
  }

  deliver-Looped :
      (e : Map Text Text) (ds : List Decoded) (ch : Channel) (m : Message) (o : Option Text)
      → parse_entry quote e ≡ (m, o)
      → ((ch' : Channel) → Looped reader ds ch' (stream_loop quote reader ds ch'))
      → Looped reader (entry e ∷ ds) ch (deliver reader (m, o) (stream_loop quote reader ds) ch)
  unfolding deliver send
  deliver-Looped e ds ch m (some x) at ih =
      stopped (entry e ∷ ds) ch (ok tt) (inl (refl, inr (inr refused)))
    where
      refused : (m' : Message) → ¬ Parses e m'
      refused m' v = cc (at, (parse_entry_lem quote e m').1 v)
  deliver-Looped e ds ch m none at ih = elim (Bool-cases (reader.receives (length ch.sent))) [
    | inl takes ↦ rw takes (sent_one (ih (record ch { sent = ch.sent ++ m ∷ [] })))
    | inr gone ↦ rw gone (stopped (entry e ∷ ds) ch blocked (inr (refl, (λ f. cc), gone)))
  ]
    where
      sent_one :
          Looped reader ds
            (record ch { sent = ch.sent ++ m ∷ [] })
            (stream_loop quote reader ds (record ch { sent = ch.sent ++ m ∷ [] }))
          → Looped reader
              (entry e ∷ ds)
              ch
              (stream_loop quote reader ds (record ch { sent = ch.sent ++ m ∷ [] }))
      sent_one r = record {
        ms = m ∷ r.ms;
        rest = r.rest;
        delivered = ((parse_entry_lem quote e m).0 at, r.delivered);
        sent = r.sent ∙ append_assoc ch.sent (m ∷ []) r.ms;
        kept = r.kept;
        ended = r.ended;
      }

  decoded-Looped :
      (d : Decoded) (ds : List Decoded) (ch : Channel)
      → ((ch' : Channel) → Looped reader ds ch' (stream_loop quote reader ds ch'))
      → Looped reader (d ∷ ds) ch (decoded quote reader d (stream_loop quote reader ds) ch)
  unfolding decoded
  decoded-Looped malformed ds ch ih = stopped (malformed ∷ ds) ch (ok tt) (inl (refl, inr (inr tt)))
  decoded-Looped (entry e) ds ch ih =
      deliver-Looped e ds ch (parse_entry quote e).0 (parse_entry quote e).1 refl ih

  stream_loop-Looped :
      (ds : List Decoded) (ch : Channel) → Looped reader ds ch (stream_loop quote reader ds ch)
  unfolding stream_loop
  stream_loop-Looped [] ch = stopped [] ch (ok tt) (inl (refl, inl refl))
  stream_loop-Looped (d ∷ ds) ch = elim (Bool-cases (reader.cancelled (length ch.sent))) [
    | inl over ↦ rw over (stopped (d ∷ ds) ch (ok tt) (inl (refl, inr (inl over))))
    | inr going ↦ rw going (decoded-Looped d ds ch (stream_loop-Looped ds))
  ]

-- A channel that has just been made.
abbrev pub opened : Channel
opened = record { sent = []; closed = false }

-- The channel is closed when the loop has returned, and stays open when it waits for ever.
abbrev pub Closes : Outcome (Unit {0}) → Bool → Type 0
Closes o closed = ((o ≡ ok tt) × (closed ≡ true)) ⊎ ((o ≡ blocked) × (closed ≡ false))

-- What a run of the stream on a new channel comes to.
abbrev pub Streamed : Reader → List Decoded → Outcome (Unit {0}) × Channel → Type 0
Streamed reader ds r =
    (ms : List Message) × (rest : List Decoded) × Delivered ds ms rest
    × (r.1.sent ≡ ms)
    × Ended reader r.0 (length ms) rest
    × Closes r.0 r.1.closed

Looped-Streamed :
    (reader : Reader) (ds : List Decoded) (o : Outcome (Unit {0})) (ch : Channel)
    → Looped reader ds opened (o, ch)
    → Streamed reader ds (after o (λ _ s. (ok tt, record s { closed = true })) ch)
Looped-Streamed reader ds (ok u) ch l = (
  l.ms,
  l.rest,
  l.delivered,
  l.sent,
  subst (λ ms. Ended reader (ok u) (length ms) l.rest) l.sent l.ended,
  inl (refl, refl),
)
Looped-Streamed reader ds (err e) ch l = elim (l.ended) [ inl h ↦ cc | inr h ↦ cc ]
Looped-Streamed reader ds panic ch l = elim (l.ended) [ inl h ↦ cc | inr h ↦ cc ]
Looped-Streamed reader ds blocked ch l = (
  l.ms,
  l.rest,
  l.delivered,
  l.sent,
  subst (λ ms. Ended reader blocked (length ms) l.rest) l.sent l.ended,
  inr (refl, l.kept),
)

-- Of what the decoder gives, the stream sends the messages of the entries at the front, in order,
-- up to the first thing that is not an entry of a message, or the end, or a cancelled context, and
-- then closes the channel; or it waits for ever, with the channel open, for a receiver that has
-- gone. There is no other outcome.
pub stream_logs_lem :
    (quote : Text → Text) (reader : Reader) (ds : List Decoded)
    → Streamed reader ds (stream_logs quote reader ds opened)
unfolding stream_logs
stream_logs_lem quote reader ds =
    let r = stream_loop quote reader ds opened in
    Looped-Streamed reader ds r.0 r.1 (stream_loop-Looped quote reader ds opened)
