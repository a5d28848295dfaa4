-- ===== src/Network/Directory.antt =====
-- What a network controller promises (pkg/api/network/controller.go): for each service, the bag of
-- the addresses of its machines. A bag forgets the order in which a controller keeps them.
use mathlib.Core.Quot
use mathlib.Core.Quot.{Quot, Quot-set}
use native.Mathlib.Nat.{ℕ_set}
use ukfaas.Prelude.{ℕ, ◌≡◌, refl, Bool, true, false, List, [], ◌∷◌, ◌++◌, arith}
use ukfaas.Prelude.Lists.{if◌then◌else◌}
use ukfaas.Prelude.Text.{Text, ◌==◌, text_eq}
use ukfaas.Network.Balancer.Laws.{occurrences, others, occurrences-append}

-- The two lists hold the same addresses, each as often.
abbrev pub SameItems : List Text → List Text → Type 0
SameItems xs ys = (a : Text) → occurrences a xs ≡ occurrences a ys

abbrev pub Bag : Type 0
Bag = Quot SameItems

abbrev pub bag : List Text → Bag
bag xs = Quot.mk xs

-- How often an address is in a bag.
unfoldable pub holds : Text → Bag → ℕ
holds a = Quot.lift ℕ_set (occurrences a) (λ xs ys h. h a)

pub SameItems-cons : (x : Text) (xs ys : List Text) → SameItems xs ys → SameItems (x ∷ xs) (x ∷ ys)
SameItems-cons x xs ys h a = ground (arith, h a)

occurrences-others :
    (a x : Text) (xs : List Text)
    → occurrences a (others x xs) ≡ (if x == a then 0 else occurrences a xs)
occurrences-others a x [] = ground arith
occurrences-others a x (y ∷ xs) = ground (arith, occurrences-others a x xs)

pub SameItems-others :
    (x : Text) (xs ys : List Text) → SameItems xs ys → SameItems (others x xs) (others x ys)
SameItems-others x xs ys h a =
    ground (arith, occurrences-others a x xs, occurrences-others a x ys, h a)

unfoldable pub put : Text → Bag → Bag
put x = Quot.lift Quot-set (λ xs. bag (x ∷ xs)) (λ xs ys h. Quot.sound (SameItems-cons x xs ys h))

-- The bag with every copy of an address taken out.
unfoldable pub without : Text → Bag → Bag
without x =
    Quot.lift Quot-set (λ xs. bag (others x xs))
      (λ xs ys h. Quot.sound (SameItems-others x xs ys h))

abbrev pub Directory : Type 0
Directory = Text → Bag

-- A call of a controller that changes its addresses.
pub data Call : Type 0 where
  adds_ip deletes_ip : Text → Text → Call
  deletes_service : Text → Call

abbrev pub change : Text → Bag → Directory → Directory
change service b d other = if service == other then b else d other

abbrev pub apply : Directory → Call → Directory
apply d (adds_ip service addr) = change service (put addr (d service)) d
apply d (deletes_ip service addr) = change service (without addr (d service)) d
apply d (deletes_service service) = change service (bag []) d

unfoldable pub run : Directory → List Call → Directory
run d [] = d
run d (call ∷ calls) = run (apply d call) calls

-- Each call deletes an address only where its service has it once.
abbrev pub DeletesPresent : Directory → Call → Type 0
DeletesPresent d (adds_ip service addr) = Unit
DeletesPresent d (deletes_ip service addr) = holds addr (d service) ≡ 1
DeletesPresent d (deletes_service service) = Unit

abbrev pub AllPresent : Directory → List Call → Type 0
AllPresent d [] = Unit
AllPresent d (call ∷ calls) = DeletesPresent d call × AllPresent (apply d call) calls

-- A bag does not see at which end an address is added.
pub put_last : (x : Text) (xs : List Text) → bag (xs ++ x ∷ []) ≡ put x (bag xs)
unfolding put
put_last x xs = Quot.sound (λ a. ground (arith, occurrences-append a xs (x ∷ [])))

bag_if :
    (b : Bool) (xs ys : List Text) → bag (if b then xs else ys) ≡ (if b then bag xs else bag ys)
bag_if true xs ys = refl
bag_if false xs ys = refl

-- The bags of the lists that a controller keeps for each service.
abbrev pub bags : (Text → List Text) → Directory
bags f service = bag (f service)

-- Lists that differ from the old ones at one service have the bags of the directory changed there.
pub bags-change :
    (f g : Text → List Text) (service : Text) (xs : List Text)
    → ((other : Text) → g other ≡ (if service == other then xs else f other))
    → bags g ≡ change service (bag xs) (bags f)
bags-change f g service xs h = λ i other. pointwise other i
  where
    pointwise : (other : Text) → bags g other ≡ change service (bag xs) (bags f) other
    pointwise other = rw (h other) (bag_if (service == other) xs (f other))
