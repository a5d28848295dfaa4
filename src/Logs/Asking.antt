-- ===== src/Logs/Asking.antt =====
-- `Query`: the messages are of the function that is asked for.
use ukfaas.Prelude.{
  ◌≡◌, refl, ap, zero, suc, ◌++◌, Bool, true, false, Option, none, some, List, [], ◌∷◌, arith,
}
use ukfaas.Prelude.Lists.{All, eqb, if◌then◌else◌}
use ukfaas.Prelude.Text.{Text, text, text_eq}
use ukfaas.Prelude.Map.{Map}
use ukfaas.Prelude.Exec.{Outcome, ok, err, panic, blocked, after}
use ukfaas.Prelude.Integer.{ℤ, pos, negsuc}
use ukfaas.Logs.{
  lines_arg, Request, Message, Decoded, entry, malformed, Reader, Channel, stream_logs, field,
  identifier, effective_namespace, Journal, started, query, build_cmd,
}
use ukfaas.Logs.Parsing.{Parses, Without, two-split}
use ukfaas.Logs.Streaming.{Delivered, opened, stream_logs_lem}

-- What stands behind a prefix.
after_prefix : Text → Text → Option Text
after_prefix [] s = some s
after_prefix (c ∷ p) [] = none
after_prefix (c ∷ p) (d ∷ s) = let rest = after_prefix p s in if eqb c d then rest else none

in_front_of : Option Text → List Text → List Text
in_front_of none xs = xs
in_front_of (some x) xs = x ∷ xs

-- The identifiers that the arguments of journalctl ask for.
unfoldable pub identifiers : List Text → List Text
unfolding after_prefix in_front_of
identifiers [] = []
identifiers (arg ∷ args) = in_front_of (after_prefix (text "--identifier=") arg) (identifiers args)

-- An entry of the identifier `x`, if it is one.
abbrev pub Named : Text → Decoded → Type 0
Named x malformed = Unit
Named x (entry e) = field (text "SYSLOG_IDENTIFIER") e ≡ x

-- journalctl prints for arguments with one `--identifier=` only entries of that identifier.
pub record Filters (j : Journal) : Type 0 where
  pub named :
      (args : List Text) (x : Text) → identifiers args ≡ x ∷ [] → All (Named x) (j.prints args)

no_identifiers :
    (follow : Bool) (tail : ℤ)
    → identifiers ((if follow then text "--follow" ∷ [] else []) ++ lines_arg tail) ≡ []
unfolding identifiers lines_arg
no_identifiers true (pos zero) = refl
no_identifiers true (pos (suc n)) = refl
no_identifiers true (negsuc n) = refl
no_identifiers false (pos zero) = refl
no_identifiers false (pos (suc n)) = refl
no_identifiers false (negsuc n) = refl

-- `buildCmd` asks for one identifier, that of the request.
identifiers-build_cmd :
    (format : ℤ → Text) (now later : ℤ) (req : Request)
    → identifiers (build_cmd format now later req) ≡ identifier req ∷ []
unfolding identifiers build_cmd
identifiers-build_cmd format now later req =
    ap (λ xs. identifier req ∷ xs) (no_identifiers req.follow req.tail)

abbrev pub IsOf : Request → Message → Type 0
IsOf req m = (m.namespace ≡ effective_namespace req) × (m.name ≡ req.name)

module _ (req : Request) (hn : Without b':' (effective_namespace req))
    (hm : Without b':' req.name) where
  Parses-IsOf :
      (e : Map Text Text) (m : Message)
      → field (text "SYSLOG_IDENTIFIER") e ≡ identifier req
      → Parses e m
      → IsOf req m
  unfolding identifier
  Parses-IsOf e m asked v = ground (
    arith,
    two-split b':' m.namespace m.name v.plain_namespace v.plain_name,
    two-split b':' (effective_namespace req) req.name hn hm,
  )

  Delivered-IsOf :
      (ds : List Decoded) (ms : List Message) (rest : List Decoded)
      → All (Named (identifier req)) ds
      → Delivered ds ms rest
      → All (IsOf req) ms
  Delivered-IsOf ds [] rest all d = tt
  Delivered-IsOf [] (m ∷ ms) rest all d = elim d [ ]
  Delivered-IsOf (malformed ∷ ds) (m ∷ ms) rest all d = elim d [ ]
  Delivered-IsOf (entry e ∷ ds) (m ∷ ms) rest all d =
      (Parses-IsOf e m all.0 d.0, Delivered-IsOf ds ms rest all.1 d.1)

  started-IsOf :
      (j : Journal) (reader : Reader) (args : List Text) (o : Outcome (Unit {0}))
      → All (Named (identifier req)) (j.prints args)
      → All (IsOf req) (after o (λ _. stream_logs j.quote reader (j.prints args)) opened).1.sent
  started-IsOf j reader args (ok u) all =
      let (ms, rest, delivered, sent, ended, closes) =
        stream_logs_lem j.quote reader (j.prints args) in
      rw sent (Delivered-IsOf (j.prints args) ms rest all delivered)
  started-IsOf j reader args (err e) all = tt
  started-IsOf j reader args panic all = tt
  started-IsOf j reader args blocked all = tt

started_kept : (j : Journal) (args : List Text) (ch : Channel) → (started j args ch).1 ≡ ch
unfolding started
started_kept j args ch = ground arith

-- If journalctl, asked for one identifier, prints only entries of it, and neither the namespace nor
-- the name of the request has a colon, every message that a query sends is of the function and the
-- namespace of the request, the default one if it names none.
pub query-IsOf :
    (j : Journal) (reader : Reader) (req : Request)
    → Without b':' (effective_namespace req)
    → Without b':' req.name
    → Filters j
    → All (IsOf req) (query j reader req opened).1.sent
unfolding query
query-IsOf j reader req hn hm h =
    let args = build_cmd j.format j.now j.later req in
    let all = h.named args (identifier req) (identifiers-build_cmd j.format j.now j.later req) in
    rw (started_kept j args opened)
      (started-IsOf req hn hm j reader args (started j args opened).0 all)
