-- ===== src/Relay/Latest.antt =====
-- pkg/relay/relay_bid_trace.go: which bid a slot and a relay have in what is collected.
use eth_cl_state_analyzer.Common.{
  ℕ, ◌≡◌, refl, sym, ◌∙◌, ap, Bool, true, false, ◌&&◌, List, [], ◌∷◌, ◌++◌, Option, none, some, map,
  ◌==◌, arith, filterb, Bool-cases, inl, inr, if◌then◌else◌,
}
use eth_cl_state_analyzer.Client.{BidTrace}
use eth_cl_state_analyzer.Relay.Bids.{
  RelayBidsPerSlot, put_bid, add_bid, get_bids_at_slot, in_range, add_bids, RelayClient, ask_relays,
  get_delivered_bids_per_slot_range,
}
use eth_cl_state_analyzer.Analyzer.AgnosticMap.{lookup}

-- The last element of a list, or another value for the empty one.
abbrev pub last_or {ℓ} : {A : Type ℓ} → Option A → List A → Option A
last_or d [] = d
last_or d (x ∷ xs) = last_or (some x) xs

-- A relay's bids, each with its address.
abbrev pub from_relay : ℕ → List BidTrace → List (ℕ × BidTrace)
from_relay address bids = map (λ bid. (address, bid)) bids

abbrev pub answered : Option (List BidTrace) → List BidTrace
answered none = []
answered (some bids) = bids

-- All bids that the relays deliver, in the order of the relays.
abbrev pub all_delivered : ℕ → ℕ → List RelayClient → List (ℕ × BidTrace)
all_delivered slot limit [] = []
all_delivered slot limit (c ∷ cs) =
    from_relay c.address (answered (c.delivered slot limit)) ++ all_delivered slot limit cs

-- Whether a bid is in range, for a slot and from a relay.
abbrev pub is_wanted : ℕ → ℕ → ℕ → ℕ → ℕ × BidTrace → Bool
is_wanted slot limit at address (a, bid) = in_range slot limit bid && bid.slot == at && a == address

abbrev pub bid_of : RelayBidsPerSlot → ℕ → ℕ → Option BidTrace
bid_of r at address = lookup address (get_bids_at_slot r at)

lookup-put_bid :
    (address a : ℕ) (bid : BidTrace) (m : List (ℕ × BidTrace))
    → lookup address (put_bid a bid m) ≡ (if a == address then some bid else lookup address m)
unfolding lookup put_bid
lookup-put_bid address a bid [] = ground arith
lookup-put_bid address a bid ((b, c) ∷ m) = ground (arith, lookup-put_bid address a bid m)

bid_of-add_bid :
    (at address a : ℕ) (bid : BidTrace) (r : RelayBidsPerSlot)
    → bid_of (add_bid r a bid) at address
      ≡ (if bid.slot == at && a == address then some bid else bid_of r at address)
unfolding add_bid get_bids_at_slot lookup put_bid
bid_of-add_bid at address a bid [] = ground arith
bid_of-add_bid at address a bid ((s, m) ∷ r) =
    ground (arith, lookup-put_bid address a bid m, bid_of-add_bid at address a bid r)

last_or-append :
    {A : Type 0} (d : Option A) (xs ys : List A) → last_or d (xs ++ ys) ≡ last_or (last_or d xs) ys
last_or-append d [] ys = refl
last_or-append d (x ∷ xs) ys = last_or-append (some x) xs ys

last_or-if :
    (b : Bool) (bid : BidTrace) (d : Option BidTrace) (a : ℕ) (es : List (ℕ × BidTrace))
    → last_or (if b then some bid else d) (map (λ e. e.1) es)
      ≡ last_or d (map (λ e. e.1) (if b then (a, bid) ∷ es else es))
last_or-if true bid d a es = refl
last_or-if false bid d a es = refl

module _ (slot limit at address : ℕ) where
  abbrev wanted : List (ℕ × BidTrace) → List BidTrace
  wanted es = map (λ e. e.1) (filterb (is_wanted slot limit at address) es)

  bid_of-add_bids :
      (a : ℕ) (bids : List BidTrace) (r : RelayBidsPerSlot)
      → bid_of (add_bids slot limit a bids r) at address
        ≡ last_or (bid_of r at address) (wanted (from_relay a bids))
  unfolding add_bids
  bid_of-add_bids a [] r = refl
  bid_of-add_bids a (bid ∷ bids) r =
      let ys = wanted (from_relay a bids) in
      elim (Bool-cases (in_range slot limit bid)) [
        | inr out ↦ rw (out) (bid_of-add_bids a bids r)
        | inl within ↦ rw (within) (
            bid_of-add_bids a bids (add_bid r a bid)
            ∙ ap (λ (d : Option BidTrace). last_or d ys) (bid_of-add_bid at address a bid r)
            ∙ last_or-if (bid.slot == at && a == address) bid (bid_of r at address) a
                (filterb (is_wanted slot limit at address) (from_relay a bids)))
      ]

  relay_asked :
      (a : ℕ) (answer : Option (List BidTrace)) (r : RelayBidsPerSlot)
      → bid_of (elim answer [ none ↦ r | some bids ↦ add_bids slot limit a bids r ]) at address
        ≡ last_or (bid_of r at address) (wanted (from_relay a (answered answer)))
  relay_asked a none r = refl
  relay_asked a (some bids) r = bid_of-add_bids a bids r

  wanted-append : (xs ys : List (ℕ × BidTrace)) → wanted (xs ++ ys) ≡ wanted xs ++ wanted ys
  wanted-append [] ys = refl
  wanted-append (x ∷ xs) ys = elim (Bool-cases (is_wanted slot limit at address x)) [
    | inl e ↦ rw (e) (ap (λ l. x.1 ∷ l) (wanted-append xs ys))
    | inr e ↦ rw (e) (wanted-append xs ys)
  ]

  bid_of-ask_relays :
      (cs : List RelayClient) (r : RelayBidsPerSlot)
      → bid_of (ask_relays slot limit cs r) at address
        ≡ last_or (bid_of r at address) (wanted (all_delivered slot limit cs))
  unfolding ask_relays
  bid_of-ask_relays [] r = refl
  bid_of-ask_relays (c ∷ cs) r =
      let asked : RelayBidsPerSlot = elim (c.delivered slot limit) [
        | none ↦ r
        | some bids ↦ add_bids slot limit c.address bids r
      ] in
      let first = wanted (from_relay c.address (answered (c.delivered slot limit))) in
      let rest = wanted (all_delivered slot limit cs) in
      bid_of-ask_relays cs asked
      ∙ ap (λ (d : Option BidTrace). last_or d rest)
          (relay_asked c.address (c.delivered slot limit) r)
      ∙ sym (last_or-append (bid_of r at address) first rest)
      ∙ ap (last_or (bid_of r at address)) (
          sym (
            wanted-append (from_relay c.address (answered (c.delivered slot limit)))
              (all_delivered slot limit cs)))

  -- What GetDeliveredBidsPerSlotRange has for a slot and the address of a relay is the last of the
  -- bids that this address delivered for the slot, if it is in the range: after `slot - limit`,
  -- which wraps around, and not after `slot`; and it has nothing where there is no such bid, as of a
  -- relay that answered with an error.
  pub get_delivered_bids_lem :
      (relays : List RelayClient)
      → bid_of (get_delivered_bids_per_slot_range relays slot limit) at address
        ≡ last_or none (wanted (all_delivered slot limit relays))
  unfolding get_delivered_bids_per_slot_range get_bids_at_slot lookup
  get_delivered_bids_lem relays = bid_of-ask_relays relays []
