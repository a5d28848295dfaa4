-- ===== src/Network/Balancer/Laws.antt =====
-- The random load balancer on every branch, and its invariant: `size` counts the addresses.
use mathlib.Core.List.{append_assoc, append-nil}
use native.Mathlib.Nat.{mod-eq_of_lt}
use ukfaas.Prelude.{
  ℕ, zero, suc, ◌+◌, ◌-◌, ◌%◌, ◌≤◌, ◌<◌, ◌≡◌, refl, ap, ◌≢◌, some, List, [], ◌∷◌, ◌++◌, arith,
}
use ukfaas.Prelude.Lists.{
  eqb, if◌then◌else◌, length, get_elem?, set, replicate, length-append, length-replicate,
  get_elem?-some,
}
use ukfaas.Prelude.Text.{Text, ◌==◌, text_eq}
use ukfaas.Prelude.Exec.{ok, panic}
use ukfaas.Network.Balancer.{
  Balancer, int_limit, add_instance, copy_others, delete_instance, next_instance,
}

pub record IsSized (lb : Balancer) : Type 0 where
  pub counted : lb.size ≡ length lb.ips
  pub small : lb.size < int_limit

-- The addresses other than `ip`, in order, and how often `ip` occurs.
abbrev pub others : Text → List Text → List Text
others ip [] = []
others ip (x ∷ xs) = if ip == x then others ip xs else x ∷ others ip xs

abbrev pub occurrences : Text → List Text → ℕ
occurrences ip [] = 0
occurrences ip (x ∷ xs) = if ip == x then suc (occurrences ip xs) else occurrences ip xs

pub length-others :
    (ip : Text) (xs : List Text) → length (others ip xs) + occurrences ip xs ≡ length xs
length-others ip [] = omega arith
length-others ip (x ∷ xs) = ground (arith, length-others ip xs)

-- Writing at the end of the written part moves the end by one.
set-append :
    (done : List Text) (x : Text) (n : ℕ)
    → set (done ++ replicate (suc n) []) (length done) x ≡ (done ++ x ∷ []) ++ replicate n []
set-append [] x n = refl
set-append (d ∷ done) x n = ap (◌∷◌ d) (set-append done x n)

-- The first write of the loop lands, and what follows is the loop with one more written.
first_write :
    (ip x : Text) (xs done : List Text) (room index : ℕ)
    → index ≡ length done
    → ip ≢ x
    → copy_others ip (x ∷ xs) (done ++ replicate (suc room) []) index
      ≡ copy_others ip xs ((done ++ x ∷ []) ++ replicate room []) (index + 1)
unfolding copy_others
first_write ip x xs done room index e differ = ground (
  arith,
  set-append done x room,
  length-append done (replicate (suc room) []),
  ap (λ (i : ℕ). set (done ++ replicate (suc room) []) i x) e,
)

module _ (ip : Text) where
  -- The loop, with `done` written and `room` places left, where the other addresses fit.
  copy_others-ok :
      (xs done : List Text) (room index : ℕ)
      → index ≡ length done
      → length (others ip xs) ≤ room
      → copy_others ip xs (done ++ replicate room []) index
        ≡ ok (done ++ (others ip xs ++ replicate (room - length (others ip xs)) []))
  unfolding copy_others
  copy_others-ok [] done room index e h = ground arith
  copy_others-ok (x ∷ xs) done zero index e h = ground (arith, copy_others-ok xs done zero index e)
  copy_others-ok (x ∷ xs) done (suc room) index e h = ground (
    arith,
    first_write ip x xs done room index e,
    append_assoc done (x ∷ []) (others ip xs ++ replicate (room - length (others ip xs)) []),
    copy_others-ok xs done (suc room) index e,
    copy_others-ok xs (done ++ x ∷ []) room (index + 1),
    length-append done (x ∷ []),
  )

  -- Where they do not, the write past the end panics.
  copy_others-panic :
      (xs done : List Text) (room index : ℕ)
      → index ≡ length done
      → room < length (others ip xs)
      → copy_others ip xs (done ++ replicate room []) index ≡ panic
  unfolding copy_others
  copy_others-panic [] done room index e h = absurd (omega arith)
  copy_others-panic (x ∷ xs) done zero index e h =
      ground (arith, copy_others-panic xs done zero index e, length-append done [])
  copy_others-panic (x ∷ xs) done (suc room) index e h = ground (
    arith,
    first_write ip x xs done room index e,
    copy_others-panic xs done (suc room) index e,
    copy_others-panic xs (done ++ x ∷ []) room (index + 1),
    length-append done (x ∷ []),
  )

-- Deleting an address from a balancer that holds addresses: it panics when the address is not
-- there; otherwise the other addresses stay, in order, and each further occurrence of the address
-- leaves an empty address at the end.
pub delete_instance_lem :
    (lb : Balancer) (ip : Text)
    → IsSized lb
    → delete_instance lb ip ≡ (
        if eqb lb.size 0
        then ok lb
        else if eqb (occurrences ip lb.ips) 0
        then panic
        else ok (record {
          size = lb.size - 1;
          ips = others ip lb.ips ++ replicate (occurrences ip lb.ips - 1) [];
        }))
unfolding delete_instance
delete_instance_lem lb ip v = ground (
  arith,
  length-others ip lb.ips,
  copy_others-ok ip lb.ips [] (lb.size - 1) 0 refl,
  copy_others-panic ip lb.ips [] (lb.size - 1) 0 refl,
)

pub new_random_load_balancer-IsSized : IsSized (record { size = 0; ips = [] })
new_random_load_balancer-IsSized = record { counted = omega arith; small = omega arith }

-- Adding appends the address, and counts it while the count stays below the limit of `int`.
pub add_instance_lem :
    (lb : Balancer) (ip : Text)
    → IsSized lb
    → lb.size + 1 < int_limit
    → let lb' : Balancer = record { size = lb.size + 1; ips = lb.ips ++ ip ∷ [] } in
      (add_instance lb ip ≡ ok lb') × IsSized lb'
unfolding add_instance
add_instance_lem lb ip v h = (
  ground arith,
  record { counted = omega (arith, v.counted, length-append lb.ips (ip ∷ [])); small = h },
)

pub delete_instance-IsSized :
    {lb lb' : Balancer} (ip : Text) → IsSized lb → delete_instance lb ip ≡ ok lb' → IsSized lb'
delete_instance-IsSized {lb} ip v e = ground (
  arith,
  delete_instance_lem lb ip v,
  length-others ip lb.ips,
  length-append (others ip lb.ips) (replicate (occurrences ip lb.ips - 1) []),
  length-replicate {A = Text} (occurrences ip lb.ips - 1) [],
)

others-append :
    (ip : Text) (xs ys : List Text) → others ip (xs ++ ys) ≡ others ip xs ++ others ip ys
others-append ip [] ys = refl
others-append ip (x ∷ xs) ys = ground (arith, others-append ip xs ys)

pub occurrences-append :
    (ip : Text) (xs ys : List Text)
    → occurrences ip (xs ++ ys) ≡ occurrences ip xs + occurrences ip ys
occurrences-append ip [] ys = omega arith
occurrences-append ip (x ∷ xs) ys = ground (arith, occurrences-append ip xs ys)

others_absent : (ip : Text) (xs : List Text) → occurrences ip xs ≡ 0 → others ip xs ≡ xs
others_absent ip [] h = refl
others_absent ip (x ∷ xs) h = ground (arith, others_absent ip xs)

-- Deleting an address just added gives the balancer back, when it was not there before.
pub delete_instance-add_instance :
    (lb lb' : Balancer) (ip : Text)
    → IsSized lb
    → lb.size + 1 < int_limit
    → occurrences ip lb.ips ≡ 0
    → add_instance lb ip ≡ ok lb'
    → delete_instance lb' ip ≡ ok lb
delete_instance-add_instance lb lb' ip v h absent e = ground (
  arith,
  add_instance_lem lb ip v h,
  delete_instance_lem lb' ip,
  others-append ip lb.ips (ip ∷ []),
  occurrences-append ip lb.ips (ip ∷ []),
  others_absent ip lb.ips absent,
  append-nil lb.ips,
)

-- A balancer with addresses returns one of them, whatever number is drawn.
pub next_instance-ok :
    (lb : Balancer) (draw : ℕ)
    → IsSized lb
    → lb.size ≢ 0
    → (ip : Text) × (next_instance lb draw ≡ ok ip) × (get_elem? lb.ips (draw % lb.size) ≡ some ip)
unfolding next_instance
next_instance-ok lb draw v h =
    let (ip, e) = get_elem?-some lb.ips (draw % lb.size) (omega arith) in (ip, ground (arith, e), e)

-- Every address is returned for some number drawn.
pub next_instance_every :
    (lb : Balancer) (i : ℕ) {ip : Text}
    → IsSized lb
    → i < lb.size
    → get_elem? lb.ips i ≡ some ip
    → next_instance lb i ≡ ok ip
unfolding next_instance
next_instance_every lb i v h e = ground (arith, mod-eq_of_lt {n = i} {m = lb.size})
