-- ===== src/Mint/Attempt/Laws.antt =====
-- What one attempt leaves behind (crates/aggregator-logic/src/mint_settlement.rs).
use gridtokenx_aggregator_br.Base.{
  ◌≡◌, ◌↔◌, refl, true, false, List, [], ◌∷◌, nat_eq, list_eq, arith, Bool-cases, inl, inr,
  if◌then◌else◌,
}
use gridtokenx_aggregator_br.Billing.Bin.{Text}
use gridtokenx_aggregator_br.Mint.Field.{PendingMint, field}
use gridtokenx_aggregator_br.Mint.Bridge.{
  Result, ok, err, MintOutcome, MintGateway, nats, disabled, wallet_is_valid,
}
use gridtokenx_aggregator_br.Mint.Attempt.{
  claimed, release, Books, Marked, Outside, Lookup, found, absent, failed, mint_input, attempt_mint,
}
use gridtokenx_aggregator_br.Mint.Outbox.Laws.{same_text}

pub release-unclaimed : (k : Text) (set : List Text) → claimed k set ≡ false → release k set ≡ set
release-unclaimed k [] h = refl
release-unclaimed k (j ∷ set) h = ground (arith, release-unclaimed k set)

pub release-claimed_once :
    (k : Text) (set : List Text) → claimed k set ≡ false → release k (k ∷ set) ≡ set
release-claimed_once k set h = ground (arith, same_text k, release-unclaimed k set h)

-- An attempt gives back exactly the claims it took, on every path: the set of keys in flight is what
-- it was before.
pub attempt_mint-in_flight :
    (o : Outside) (p : PendingMint) (s : Books) → (attempt_mint o p s).1.in_flight ≡ s.in_flight
unfolding attempt_mint
attempt_mint-in_flight o p s = elim (Bool-cases (claimed (field p) s.in_flight)) [
  | inl taken ↦ rw (attempt_mint, taken) refl
  | inr free ↦ ground (arith, release-claimed_once (field p) s.in_flight free)
]

-- What makes an attempt succeed.
abbrev pub CanMint : Outside → PendingMint → Books → Type 0
CanMint o p s =
    (claimed (field p) s.in_flight ≡ false)
    × ((wallet : Text) × (o.resolve_wallet p.meter_serial ≡ found wallet)
        × (wallet_is_valid o.decode wallet ≡ true)
        × (o.gateway ≡ nats)
        × ((out : MintOutcome) × (o.mint (mint_input wallet p) ≡ ok out)))

-- The row that a confirmed attempt marks.
abbrev pub mark_of : PendingMint → MintOutcome → Marked
mark_of p out = record {
  serial = p.meter_serial;
  window_start_ms = p.window_start_ms;
  signature = out.signature;
  slot = out.slot;
}

-- What an attempt does that mints: the key is free, the wallet that the registry gives has 32 bytes, the gateway is
-- enabled and the bridge answers with success, and the books have the one input more that is published, and the rows
-- of the window marked if there is a database.
abbrev pub MintedBy : Outside → PendingMint → Books → Books → Type 0
MintedBy o p s s' =
    (claimed (field p) s.in_flight ≡ false)
    × ((wallet : Text) × (out : MintOutcome) × (o.resolve_wallet p.meter_serial ≡ found wallet)
        × (wallet_is_valid o.decode wallet ≡ true)
        × (o.gateway ≡ nats)
        × (o.mint (mint_input wallet p) ≡ ok out)
        × (s'.published ≡ mint_input wallet p ∷ s.published)
        × (s'.marked ≡ (if o.writeback then mark_of p out ∷ s.marked else s.marked)))

reply_of :
    (o : Outside) (p : PendingMint) (s : Books) (w : Text) (g : MintGateway)
    (r : Result MintOutcome)
    → o.resolve_wallet p.meter_serial ≡ found w
    → o.gateway ≡ g
    → o.mint (mint_input w p) ≡ r
    → (attempt_mint o p s).0 ≡ true
    → (wallet_is_valid o.decode w ≡ true)
      × (o.gateway ≡ nats)
      × ((out : MintOutcome) × (o.mint (mint_input w p) ≡ ok out))
unfolding attempt_mint
reply_of o p s w nats (ok out) e eg er h = (ground arith, eg, (out, er))
reply_of o p s w nats (err x) e eg er h = absurd (ground arith)
reply_of o p s w disabled r e eg er h = absurd (ground arith)

wallet_of :
    (o : Outside) (p : PendingMint) (s : Books) (l : Lookup Text)
    → o.resolve_wallet p.meter_serial ≡ l
    → (attempt_mint o p s).0 ≡ true
    → (wallet : Text) × (o.resolve_wallet p.meter_serial ≡ found wallet)
      × (wallet_is_valid o.decode wallet ≡ true)
      × (o.gateway ≡ nats)
      × ((out : MintOutcome) × (o.mint (mint_input wallet p) ≡ ok out))
unfolding attempt_mint
wallet_of o p s (found w) e h =
    let (valid, g, m) = reply_of o p s w o.gateway (o.mint (mint_input w p)) e refl refl h in
    (w, e, valid, g, m)
wallet_of o p s absent e h = absurd (ground arith)
wallet_of o p s failed e h = absurd (ground arith)

-- An attempt is confirmed exactly when its key was not in flight, the registry gave a wallet of 32
-- bytes, the gateway is enabled, and the bridge answered with a successful outcome.
pub attempt_mint_iff :
    (o : Outside) (p : PendingMint) (s : Books) → ((attempt_mint o p s).0 ≡ true) ↔ CanMint o p s
unfolding attempt_mint
attempt_mint_iff o p s = (
  λ h. (ground arith, wallet_of o p s (o.resolve_wallet p.meter_serial) refl h),
  λ (free, (wallet, e, valid, g, (out, m))). ground (arith, e, valid, g, m, free),
)

pub attempt_mint-MintedBy :
    (o : Outside) (p : PendingMint) (s : Books)
    → (attempt_mint o p s).0 ≡ true
    → MintedBy o p s (attempt_mint o p s).1
unfolding attempt_mint
attempt_mint-MintedBy o p s h =
    let (free, (wallet, e, valid, g, (out, m))) = (attempt_mint_iff o p s).0 h in
    (
      free,
      (
        wallet,
        out,
        e,
        valid,
        g,
        m,
        ground (arith, e, valid, g, m, free),
        ground (arith, e, valid, g, m, free),
      ),
    )
