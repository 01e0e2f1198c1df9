-- ===== src/Relay/Bids.antt =====
-- pkg/relay/relay_bid_trace.go: the bids that the relays delivered, by slot and relay. A map is an
-- association list, in the order in which its keys were first written. Addresses are numbers.
use eth_cl_state_analyzer.Common.{
  ℕ, Bool, List, [], ◌∷◌, Option, none, some, ltb, leb, ◌==◌, ◌&&◌, sub64, if◌then◌else◌,
}
use eth_cl_state_analyzer.Client.{BidTrace}

-- `RelayBidsPerSlot`
abbrev pub RelayBidsPerSlot : Type 0
RelayBidsPerSlot = List (ℕ × List (ℕ × BidTrace))

-- `slotBidList[address] = bid`
unfoldable pub put_bid : ℕ → BidTrace → List (ℕ × BidTrace) → List (ℕ × BidTrace)
put_bid address bid [] = (address, bid) ∷ []
put_bid address bid ((a, b) ∷ m) =
    if a == address then (address, bid) ∷ m else (a, b) ∷ put_bid address bid m

unfoldable pub add_bid : RelayBidsPerSlot → ℕ → BidTrace → RelayBidsPerSlot
unfolding put_bid
add_bid [] address bid = (bid.slot, put_bid address bid []) ∷ []
add_bid ((slot, m) ∷ r) address bid =
    if slot == bid.slot
    then (slot, put_bid address bid m) ∷ r
    else (slot, m) ∷ add_bid r address bid

unfoldable pub get_bids_at_slot : RelayBidsPerSlot → ℕ → List (ℕ × BidTrace)
get_bids_at_slot [] slot = []
get_bids_at_slot ((s, m) ∷ r) slot = if s == slot then m else get_bids_at_slot r slot

-- The test of a bid's slot: after `slot - limit`, and not after `slot`.
unfoldable pub in_range : ℕ → ℕ → BidTrace → Bool
in_range slot limit bid = ltb (sub64 slot limit) bid.slot && leb bid.slot slot

-- The bids of one relay.
unfoldable pub add_bids : ℕ → ℕ → ℕ → List BidTrace → RelayBidsPerSlot → RelayBidsPerSlot
unfolding in_range
add_bids slot limit address [] r = r
add_bids slot limit address (bid ∷ bids) r =
    add_bids slot limit address bids (if in_range slot limit bid then add_bid r address bid else r)

-- A relay's client: its address, and what its request for the bids from a slot back returns, `none`
-- for an error or no list.
pub record RelayClient : Type 0 where
  pub address : ℕ
  pub delivered : ℕ → ℕ → Option (List BidTrace)

-- The loop over the relays.
unfoldable pub ask_relays : ℕ → ℕ → List RelayClient → RelayBidsPerSlot → RelayBidsPerSlot
ask_relays slot limit [] r = r
ask_relays slot limit (c ∷ cs) r =
    ask_relays slot limit cs (elim (c.delivered slot limit) [
      | none ↦ r
      | some bids ↦ add_bids slot limit c.address bids r
    ])

-- `RelaysMonitor.GetDeliveredBidsPerSlotRange`
unfoldable pub get_delivered_bids_per_slot_range : List RelayClient → ℕ → ℕ → RelayBidsPerSlot
unfolding ask_relays
get_delivered_bids_per_slot_range relays slot limit = ask_relays slot limit relays []
