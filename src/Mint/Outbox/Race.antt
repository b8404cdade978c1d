-- ===== src/Mint/Outbox/Race.antt =====
-- A confirming `remove` that races the drain loop's `park` of the same entry
-- (crates/aggregator-logic/src/mint_outbox.rs): Redis runs the four commands in some interleaving.
use gridtokenx_aggregator_br.Base.{
  ◌≡◌, refl, Option, none, some, List, [], ◌∷◌, arith, ◌⊎◌, inl, inr, ◌++◌, list_eq, nat_eq,
}
use gridtokenx_aggregator_br.Base.Dict.{lookup, insert, remove, lookup-insert, lookup-remove}
use gridtokenx_aggregator_br.Billing.Bin.{Text}
use gridtokenx_aggregator_br.Mint.Field.{PendingMint, field}
use gridtokenx_aggregator_br.Mint.Outbox.{
  Hashes, Command, hset_parked, hdel_outbox, hdel_parked, execute, applied, park, remove_field,
}
use gridtokenx_aggregator_br.Mint.Outbox.Laws.{same_text}

abbrev pub run_all : List Command → Hashes → Hashes
run_all [] h = h
run_all (c ∷ cs) h = run_all cs (execute c h)

abbrev pub park_commands : Text → Text → List Command
park_commands f json = hset_parked f json ∷ hdel_outbox f ∷ []

abbrev pub remove_commands : Text → List Command
remove_commands f = hdel_outbox f ∷ hdel_parked f ∷ []

pub data Merge : List Command → List Command → List Command → Type 0 where
  done : Merge [] [] []
  left : {c : Command} {xs ys zs : List Command} → Merge xs ys zs → Merge (c ∷ xs) ys (c ∷ zs)
  right : {c : Command} {xs ys zs : List Command} → Merge xs ys zs → Merge xs (c ∷ ys) (c ∷ zs)

module _ (f json : Text) (h : Hashes) where
  gone_twice : lookup f (remove f (remove f h.outbox)) ≡ none
  gone_twice = ground (arith, same_text f, lookup-remove f f (remove f h.outbox))

  unparked : lookup f (remove f (insert f json h.parked)) ≡ none
  unparked = ground (arith, same_text f, lookup-remove f f (insert f json h.parked))

  parked_again : lookup f (insert f json (remove f h.parked)) ≡ some json
  parked_again = ground (arith, same_text f, lookup-insert f f json (remove f h.parked))

-- What is left of the entry: nothing, or its copy in the parked hash if the whole removal came before the park.
abbrev pub LeftBy : Text → Text → List Command → Hashes → Type 0
LeftBy f json cs h =
    (lookup f h.outbox ≡ none)
    × ((lookup f h.parked ≡ none)
        ⊎ ((lookup f h.parked ≡ some json) × (cs ≡ remove_commands f ++ park_commands f json)))

interleaved-LeftBy :
    (f json : Text) (h : Hashes) (cs : List Command)
    → Merge (park_commands f json) (remove_commands f) cs
    → LeftBy f json cs (run_all cs h)
interleaved-LeftBy f json h _ (left (left (right (right done)))) =
    (gone_twice f json h, inl (unparked f json h))
interleaved-LeftBy f json h _ (left (right (left (right done)))) =
    (gone_twice f json h, inl (unparked f json h))
interleaved-LeftBy f json h _ (left (right (right (left done)))) =
    (gone_twice f json h, inl (unparked f json h))
interleaved-LeftBy f json h _ (right (left (left (right done)))) =
    (gone_twice f json h, inl (unparked f json h))
interleaved-LeftBy f json h _ (right (left (right (left done)))) =
    (gone_twice f json h, inl (unparked f json h))
interleaved-LeftBy f json h _ (right (right (left (left done)))) =
    (gone_twice f json h, inr (parked_again f json h, refl))

park_applied :
    (to_json : PendingMint → Option Text) (p : PendingMint) (json : Text) (h : Hashes)
    → to_json p ≡ some json
    → (park to_json applied applied p h).0 ≡ run_all (park_commands (field p) json) h
unfolding park
park_applied to_json p json h e = rw (park, e) refl

remove_field_applied :
    (f : Text) (h : Hashes) → (remove_field applied applied f h).0 ≡ run_all (remove_commands f) h
unfolding remove_field
remove_field_applied f h = refl

pub park_remove_race :
    (to_json : PendingMint → Option Text) (p : PendingMint) (json : Text) (h i : Hashes)
    (cs : List Command)
    → to_json p ≡ some json
    → Merge (park_commands (field p) json) (remove_commands (field p)) cs
    → ((park to_json applied applied p i).0 ≡ run_all (park_commands (field p) json) i)
      × ((remove_field applied applied (field p) i).0 ≡ run_all (remove_commands (field p)) i)
      × LeftBy (field p) json cs (run_all cs h)
park_remove_race to_json p json h i cs e merged = (
  park_applied to_json p json i e,
  remove_field_applied (field p) i,
  interleaved-LeftBy (field p) json h cs merged,
)
