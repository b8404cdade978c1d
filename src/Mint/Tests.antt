-- ===== src/Mint/Tests.antt =====
-- Runs of the minting modules at concrete entries, answers and fates.
use gridtokenx_aggregator_br.Base.{
  ℕ, ◌*◌, ◌^◌, ◌≡◌, ◌≢◌, ◌↔◌, ◌⊎◌, refl, true, Option, none, some, List, [], ◌∷◌, ◌++◌, map, All,
  In, inl, inr, arith, list_eq, nat_eq, subst, ap,
}
use gridtokenx_aggregator_br.Base.Text.{codes}
use gridtokenx_aggregator_br.Base.Int.{pos, pos_part, ◌-ℤ◌}
use gridtokenx_aggregator_br.Base.Dict.{lookup}
use gridtokenx_aggregator_br.Base.Print.{to_string}
use gridtokenx_aggregator_br.Billing.Bin.{BillingBin, Decimal, F64, Text, key, net_surplus_kwh}
use gridtokenx_aggregator_br.Billing.BinStore.{bin_field}
use gridtokenx_aggregator_br.Billing.Sink.{surplus, plan_mint}
use gridtokenx_aggregator_br.Redis.{applied, refused, reply_lost}
use gridtokenx_aggregator_br.Mint.Field.{
  PendingMint, field, serial_window, mint_idempotency_key, parse_mint_field,
  parse_mint_field-mint_idempotency_key,
}
use gridtokenx_aggregator_br.Mint.Outbox.{Hashes, is_expired, park, remove_field}
use gridtokenx_aggregator_br.Mint.Outbox.Race.{
  run_all, park_commands, remove_commands, done, left, right, LeftBy, park_remove_race,
}
use gridtokenx_aggregator_br.Mint.Outbox.Laws.{Stored, same_text}
use gridtokenx_aggregator_br.Mint.Outbox.Expiry.{is_expired_wraps}
use gridtokenx_aggregator_br.Mint.Bridge.{
  Result, MintGateway, MintOutcome, MintBatchItemResult, BatchMintInput, is_enabled,
}
use gridtokenx_aggregator_br.Mint.Attempt.{Books, Outside, Lookup, attempt_mint}
use gridtokenx_aggregator_br.Mint.Attempt.Batch.{attempt_mint_batch}
use gridtokenx_aggregator_br.Mint.Attempt.Laws.{CanMint, MintedBy, attempt_mint_iff}
use gridtokenx_aggregator_br.Mint.Attempt.Confirmed.{
  AnswersInputs, input_key, confirmed_fields_known,
}
use gridtokenx_aggregator_br.Mint.Settlement.{Services, Fates, World, pending_mint, settle_bin}
use gridtokenx_aggregator_br.Mint.Settlement.Laws.{settle_bin_keeps_surplus}
use gridtokenx_aggregator_br.Mint.Drain.{Tick, drain_tick}
use gridtokenx_aggregator_br.Mint.Loops.{stop, step, settles, drains, Run-no_loss}

abbrev entry : PendingMint
entry = record {
  meter_serial = codes "mtr:7";
  meter_id = 7;
  window_start_ms = pos 900000;
  energy_kwh = 300;
  enqueued_at_ms = pos 5000;
}

abbrev other_entry : PendingMint
other_entry = record entry { meter_serial = codes "mtr-8"; meter_id = 8 }

abbrev json_of : PendingMint → Option Text
json_of p = some (codes "entry")

abbrev of_json : Text → Option PendingMint
of_json json = some entry

abbrev hashes : Hashes
hashes = record { outbox = (field entry, codes "entry") ∷ []; parked = [] }

-- Base58 is not run: each wallet decodes to 32 bytes.
abbrev thirty_two : List ℕ
thirty_two = codes "0123456789abcdef0123456789abcdef"

abbrev signed : MintOutcome
signed = record { signature = codes "sig"; slot = 12 }

abbrev outside : Outside
outside = record {
  resolve_wallet = λ serial. Lookup.found (codes "wallet");
  decode = λ w. some thirty_two;
  gateway = MintGateway.nats;
  mint = λ input. Result.ok signed;
  writeback = true;
}

abbrev confirm_item : BatchMintInput → MintBatchItemResult
confirm_item i = record {
  index = 0;
  idempotency_key = input_key i;
  success = true;
  signature = some (codes "sig");
  slot = 12;
  error = none;
}

-- A bridge that confirms every item.
abbrev confirm_batch : List BatchMintInput → Result (List MintBatchItemResult)
confirm_batch inputs = Result.ok (map confirm_item inputs)

abbrev books : Books
books = record { in_flight = []; outcomes = []; published = []; marked = [] }

parse_mint_field_example :
    parse_mint_field (mint_idempotency_key (codes "mtr:7") (pos 900000))
    ≡ some (codes "mtr:7", pos 900000)
parse_mint_field_example =
    parse_mint_field-mint_idempotency_key (codes "mtr:7") (pos 900000) (omega arith)

race_example :
    let f = field entry in
    let cs = remove_commands f ++ park_commands f (codes "entry") in
    ((park json_of applied applied entry hashes).0
      ≡ run_all (park_commands f (codes "entry")) hashes)
    × ((remove_field applied applied f hashes).0 ≡ run_all (remove_commands f) hashes)
    × LeftBy f (codes "entry") cs (run_all cs hashes)
race_example =
    park_remove_race json_of entry (codes "entry") hashes hashes
      (remove_commands (field entry) ++ park_commands (field entry) (codes "entry")) refl
      (right (right (left (left done))))

wraps_example : is_expired entry (pos 5000) (2 ^ 63) ≡ true
wraps_example =
    is_expired_wraps entry 5000 5000 (2 ^ 63) refl (omega arith) (omega arith) (omega arith)
      (omega arith)

attempt_example : ((attempt_mint outside entry books).0 ≡ true) ↔ CanMint outside entry books
attempt_example = attempt_mint_iff outside entry books

-- The bridge above answers with the keys it was sent.
own_keys :
    (sent inputs : List BatchMintInput)
    → ((k : Text) → In k (map input_key inputs) → In k (map input_key sent))
    → All (λ r. In r.idempotency_key (map input_key sent)) (map confirm_item inputs)
own_keys sent [] h = tt
own_keys sent (i ∷ inputs) h =
    (h (input_key i) (inl refl), own_keys sent inputs (λ k j. h k (inr j)))

results_of : List MintBatchItemResult → Result (List MintBatchItemResult) → List MintBatchItemResult
results_of d (Result.ok rs) = rs
results_of d (Result.err e) = d

confirm_batch-AnswersInputs : AnswersInputs confirm_batch
unfolding results_of
confirm_batch-AnswersInputs inputs results e =
    subst (λ rs. All (λ r. In r.idempotency_key (map input_key inputs)) rs) (ap (results_of []) e)
      (own_keys inputs inputs (λ k j. j))

confirmed_example :
    All
      (λ f. In f (map field (entry ∷ other_entry ∷ [])))
      (attempt_mint_batch outside confirm_batch (entry ∷ other_entry ∷ []) books).0
confirmed_example =
    confirmed_fields_known outside confirm_batch (entry ∷ other_entry ∷ []) books
      confirm_batch-AnswersInputs

-- A settlement whose first enqueue is refused.
abbrev bin : BillingBin
bin = record {
  meter_id = 7;
  user_id = 1;
  meter_serial = codes "mtr-7";
  start_time = 900 * 10 ^ 9;
  end_time = 1800 * 10 ^ 9;
  energy_generated = pos 500;
  energy_consumed = pos 200;
  reading_count = 1;
  energy_generated_peak = pos 500;
  energy_generated_offpeak = pos 0;
  energy_consumed_peak = pos 200;
  energy_consumed_offpeak = pos 0;
  max_demand_kw = pos 3;
  zone_code = some 4;
}

abbrev whole_units : Decimal → Option F64
whole_units d = some (pos_part d)

abbrev pub services : Services
services = record {
  outside = outside;
  resolve_user_id = λ serial. Lookup.absent;
  owner_in_source_of_truth = λ serial. Lookup.found 1;
  to_json = json_of;
  to_f64 = whole_units;
  count_to_f64 = λ n. n;
  uuid_to_string = λ u. u ∷ [];
  influx = true;
  outbox = true;
  bin_store = true;
  now_ms = pos 6000;
}

abbrev fates : Fates
fates = record { enqueue_first = refused; enqueue_again = reply_lost; evict = applied }

abbrev pub world : World
world = record {
  books = books;
  hashes = hashes;
  store = (bin_field (λ u. u ∷ []) (key bin), codes "bin") ∷ [];
  spawned = [];
  points = [];
  marked_no_surplus = [];
}

surplus_planned : plan_mint services.to_f64 bin (is_enabled services.outside.gateway) ≡ surplus 300
unfolding plan_mint net_surplus_kwh ◌-ℤ◌
surplus_planned = refl

abbrev stored_bin : Text
stored_bin = bin_field services.uuid_to_string (key bin)

in_store : lookup stored_bin world.store ≡ some (codes "bin")
unfolding lookup serial_window to_string
in_store = refl

settle_example :
    let w' = settle_bin services fates bin world in
    let p = pending_mint services bin 300 in
    (lookup (field p) w'.hashes.outbox ≢ none)
    ⊎ MintedBy outside p books w'.books
    ⊎ (lookup stored_bin w'.store ≡ some (codes "bin"))
    ⊎ ((services.resolve_user_id (codes "mtr-7") ≡ Lookup.absent)
        × (services.owner_in_source_of_truth (codes "mtr-7") ≡ Lookup.absent))
settle_example =
    settle_bin_keeps_surplus services fates bin 300 (codes "bin") world refl in_store
      surplus_planned

abbrev tick : Tick
tick = record {
  outside = outside;
  to_json = json_of;
  of_json = of_json;
  now_ms = pos 7000;
  max_age_secs = 604800;
  load_fate = applied;
  fate = λ f. (applied, refused);
  permit = λ batch. true;
  mint_batch = confirm_batch;
}

entry-Stored : Stored (field entry) hashes
unfolding lookup
entry-Stored = ground (arith, same_text (field entry))

abbrev settled_world : World
settled_world = settle_bin services fates bin world

run_example :
    Stored (field entry) (drain_tick tick (some 2) settled_world).1.hashes
    ⊎ In (field entry) ([] ++ ((drain_tick tick (some 2) settled_world).0 ++ []))
run_example =
    Run-no_loss services world (drain_tick tick (some 2) settled_world).1
      ([] ++ ((drain_tick tick (some 2) settled_world).0 ++ [])) (field entry)
      (step (settles fates bin) (step (drains tick (some 2)) stop)) entry-Stored
