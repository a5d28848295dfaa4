-- ===== src/Logs/Parsing.antt =====
-- `parseEntry`: which entries it accepts, and what it makes of them.
use ukfaas.Prelude.{
  ℕ, ◌≡◌, ◌≢◌, ◌↔◌, refl, ap, Option, none, some, List, [], ◌∷◌, ◌++◌, arith, inl, inr,
}
use ukfaas.Prelude.Lists.{All, eqb, Bool-cases, pair_eq}
use ukfaas.Prelude.Text.{Text, text, text_eq}
use ukfaas.Prelude.Map.{Map, load}
use ukfaas.Prelude.Exec.{Outcome, ok, err, panic, blocked}
use ukfaas.Prelude.Integer.{ℤ, scaled, as_i64, parse_int}
use ukfaas.Prelude.Integer.Laws.{Denotes, Returns, parse_int_lem, parse_int-Returns}
use ukfaas.Logs.{Message, split, in_front, field, untimed, timed, stamped, named, parse_entry}

-- No byte of the text is `sep`.
abbrev pub Without : ℕ → Text → Type 0
Without sep = All (λ c. c ≢ sep)

-- The entries of the journal that stand for a message of a function.
pub record Parses (entry : Map Text Text) (msg : Message) : Type 0 where
  pub from : field (text "SYSLOG_IDENTIFIER") entry ≡ msg.namespace ++ b':' ∷ msg.name
  pub plain_namespace : Without b':' msg.namespace
  pub plain_name : Without b':' msg.name
  pub stamp : Text
  pub stamped : load (text "__REALTIME_TIMESTAMP") entry ≡ some stamp
  pub micros : ℤ
  pub denotes : Denotes stamp micros
  pub timestamp : msg.timestamp ≡ some (as_i64 (scaled 1000 micros))
  pub instance_name : msg.instance_name ≡ field (text "_PID") entry
  pub body : msg.body ≡ field (text "MESSAGE") entry

in_front-cons :
    (c : ℕ) (ps qs : List Text) (q : Text)
    → ps ≢ []
    → in_front c ps ≡ q ∷ qs
    → (p : Text) × (ps ≡ p ∷ qs) × (q ≡ c ∷ p)
unfolding in_front
in_front-cons c [] qs q h e = absurd (h refl)
in_front-cons c (p ∷ ps) qs q h e = (p, cc, cc)

in_front-ne-nil : (c : ℕ) (ps : List Text) → in_front c ps ≢ []
unfolding in_front
in_front-ne-nil c [] e = cc
in_front-ne-nil c (p ∷ ps) e = cc

split-ne-nil : (sep : ℕ) (s : Text) → split sep s ≢ []
unfolding split
split-ne-nil sep [] = λ e. cc
split-ne-nil sep (c ∷ s) = ground (arith, in_front-ne-nil c (split sep s))

split_one : (sep : ℕ) (s q : Text) → split sep s ≡ q ∷ [] → (s ≡ q) × Without sep q
unfolding split
split_one sep [] q e = ground arith
split_one sep (c ∷ s) q e = elim (Bool-cases (eqb c sep)) [
  | inl cut ↦ absurd (split-ne-nil sep s (ground (arith, cut)))
  | inr kept ↦
      let (p, rest, is) = in_front-cons c (split sep s) [] q (split-ne-nil sep s) (rw kept at e) in
      let (same, clean) = split_one sep s p rest in (cc, ground arith)
]

split_two :
    (sep : ℕ) (s p q : Text)
    → split sep s ≡ p ∷ q ∷ []
    → (s ≡ p ++ sep ∷ q) × Without sep p × Without sep q
unfolding split
split_two sep [] p q e = ground arith
split_two sep (c ∷ s) p q e = elim (Bool-cases (eqb c sep)) [
  | inl cut ↦
      let (same, clean) = split_one sep s q (ground (arith, cut)) in
      (ground arith, ground arith, clean)
  | inr kept ↦
      let (p', rest, is) =
        in_front-cons c (split sep s) (q ∷ []) p (split-ne-nil sep s) (rw kept at e) in
      let (same, clean, tail_clean) = split_two sep s p' q rest in
      (rw is (ap (λ t. c ∷ t) same), rw is (ground arith), tail_clean)
]

one-split : (sep : ℕ) (q : Text) → Without sep q → split sep q ≡ q ∷ []
unfolding split in_front
one-split sep [] h = refl
one-split sep (c ∷ q) h = ground (arith, one-split sep q h.1, h.0)

pub two-split :
    (sep : ℕ) (p q : Text) → Without sep p → Without sep q → split sep (p ++ sep ∷ q) ≡ p ∷ q ∷ []
unfolding split in_front
two-split sep [] q h k = ground (arith, one-split sep q k)
two-split sep (c ∷ p) q h k = ground (arith, two-split sep p q h.1 k, h.0)

timed-none :
    (m msg : Message) (r : Outcome ℤ)
    → timed m r ≡ (msg, none)
    → Returns r
    → (z : ℤ) × (r ≡ ok z) × (msg ≡ record m { timestamp = some (as_i64 (scaled 1000 z)) })
unfolding timed
timed-none m msg (ok z) e o = (z, refl, cc)
timed-none m msg (err x) e o = cc
timed-none m msg panic e o = elim o [ ]
timed-none m msg blocked e o = elim o [ ]

module _ (quote : Text → Text) (entry : Map Text Text) (msg : Message) where
  -- The fields that the last step leaves alone.
  stamped-Parses :
      (namespace name : Text)
      → field (text "SYSLOG_IDENTIFIER") entry ≡ namespace ++ b':' ∷ name
      → Without b':' namespace
      → Without b':' name
      → (o : Option Text) → load (text "__REALTIME_TIMESTAMP") entry ≡ o
      → stamped quote (untimed entry namespace name) o ≡ (msg, none)
      → Parses entry msg
  unfolding stamped
  stamped-Parses namespace name from hn hm none at e = cc
  stamped-Parses namespace name from hn hm (some ts) at e =
      let (z, read, is) =
        timed-none (untimed entry namespace name) msg (parse_int quote ts) e
          (parse_int-Returns quote ts) in
      rw is (record {
        from = from;
        plain_namespace = hn;
        plain_name = hm;
        stamp = ts;
        stamped = at;
        micros = z;
        denotes = (parse_int_lem quote ts z).0 read;
        timestamp = refl;
        instance_name = refl;
        body = refl;
      })

  named-Parses :
      (ps : List Text)
      → split b':' (field (text "SYSLOG_IDENTIFIER") entry) ≡ ps
      → named quote entry ps ≡ (msg, none)
      → Parses entry msg
  unfolding named
  named-Parses [] at e = cc
  named-Parses (p ∷ []) at e = cc
  named-Parses (p ∷ q ∷ []) at e =
      let (from, hn, hm) = split_two b':' (field (text "SYSLOG_IDENTIFIER") entry) p q at in
      stamped-Parses p q from hn hm (load (text "__REALTIME_TIMESTAMP") entry) refl e
  named-Parses (p ∷ q ∷ r ∷ ps) at e = cc

  Parses-parse_entry : Parses entry msg → parse_entry quote entry ≡ (msg, none)
  unfolding parse_entry named stamped timed
  Parses-parse_entry v =
      rw
        (
          v.from,
          two-split b':' msg.namespace msg.name v.plain_namespace v.plain_name,
          v.stamped,
          (parse_int_lem quote v.stamp v.micros).1 v.denotes,
        )
        (pair_eq (rw (← v.instance_name, ← v.timestamp, ← v.body)) refl)

-- An entry is read without an error exactly when its identifier is a namespace and a name with one
-- colon between them, and its timestamp is the decimal text of an int64. The message has that
-- namespace and name, the entry's text and process id, and the timestamp times 1000, as an int64.
pub parse_entry_lem :
    (quote : Text → Text) (entry : Map Text Text) (msg : Message)
    → (parse_entry quote entry ≡ (msg, none)) ↔ Parses entry msg
unfolding parse_entry
parse_entry_lem quote entry msg = (
  named-Parses quote entry msg (split b':' (field (text "SYSLOG_IDENTIFIER") entry)) refl,
  Parses-parse_entry quote entry msg,
)
