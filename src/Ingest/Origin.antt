-- ===== src/Ingest/Origin.antt =====
-- Where the readings of the bulk path (crates/aggregator-api/src/grpc/service.rs) come from.
pub mod Verified
use gridtokenx_aggregator_br.Base.{
  ℕ, ◌≡◌, ◌⊎◌, refl, sym, ap, ◌∙◌, Bool, true, false, not, ◌&&◌, Option, none, some, List, [], ◌∷◌,
  map, In, All, All-mono, inl, inr, Option-cases, Bool-cases, if◌then◌else◌, subst, arith,
}
use gridtokenx_aggregator_br.Billing.Bin.{Text}
use gridtokenx_aggregator_br.Frame as Frame
use gridtokenx_aggregator_br.Frame.{Decoded, DlmsHeader, parse_header, parse}
use gridtokenx_aggregator_br.Frame.Tlv.{DlmsBinaryFrame}
use gridtokenx_aggregator_br.Frame.Sound.{device-parse}
use gridtokenx_aggregator_br.Keys.Cache.{Result, ok, err, PrunedCache, Ttl, Faults, Store}
use gridtokenx_aggregator_br.Keys.Verifier as Verifier
use gridtokenx_aggregator_br.Keys.Verifier.{Call}
use gridtokenx_aggregator_br.Keys.Registry.{Key, get_device_aes_key}
use gridtokenx_aggregator_br.Keys.Latency.Enckeys.{
  RecentKey, AllDatedKeys, OkRecentKey, key_call, get_device_aes_key-Recent,
}
use gridtokenx_aggregator_br.Ingest.{
  Env, Secured, decoded, skipped, panicked, of_parse, plaintext_dlms_allowed, apply_dlms_key_policy,
  decode_with, decode_after, decode_secure_frame, Pending, with_first, unpack_one, unpack_frames,
}
use gridtokenx_aggregator_br.Ingest.Split.{Entry}

-- With no key the settings must allow plaintext.
abbrev pub Permitted : Env → Option Key → Type 0
Permitted env (some key) = Unit
Permitted env none =
    (env.production ≡ false) × (env.allow_plaintext_dlms ≡ true) × (env.require_secure ≡ false)

module _ {V : Type 0} (codec : Frame.Crates) (o : Verifier.Crates V) (enckeys : Ttl) (env : Env)
    (past : ℕ → Store) where
  -- How a frame was opened: under what Redis recently held as the key of the device that its header names.
  abbrev pub Opened : ℕ → List ℕ → DlmsBinaryFrame → Type 0
  Opened now bytes f =
      (h : DlmsHeader) × (key : Option Key) × (parse_header codec bytes ≡ Decoded.ok h)
      × RecentKey o enckeys past now h.logical_device_name key
      × Permitted env key
      × (parse codec bytes key ≡ Decoded.ok f)
      × (f.logical_device_name ≡ h.logical_device_name)

  abbrev pub OpenedIf : ℕ → List ℕ → Secured → Type 0
  OpenedIf now bytes (decoded f) = Opened now bytes f
  OpenedIf now bytes skipped = Unit
  OpenedIf now bytes panicked = Unit

  of_parse-Opened :
      (now : ℕ) (bytes : List ℕ) (h : DlmsHeader) (key : Option Key) (r : Decoded DlmsBinaryFrame)
      → parse codec bytes key ≡ r
      → parse_header codec bytes ≡ Decoded.ok h
      → RecentKey o enckeys past now h.logical_device_name key
      → Permitted env key
      → OpenedIf now bytes (of_parse r)
  of_parse-Opened now bytes h key (Decoded.ok f) e p r allowed =
      (h, key, p, r, allowed, e, device-parse codec bytes key h f p e)
  of_parse-Opened now bytes h key (Decoded.bail why) e p r allowed = tt
  of_parse-Opened now bytes h key Decoded.panic e p r allowed = tt

  plaintext-Opened :
      (now : ℕ) (bytes : List ℕ) (h : DlmsHeader) (production allowed : Bool)
      → env.production ≡ production
      → plaintext_dlms_allowed env.allow_plaintext_dlms env.require_secure ≡ allowed
      → parse_header codec bytes ≡ Decoded.ok h
      → RecentKey o enckeys past now h.logical_device_name none
      → OpenedIf now bytes (apply_dlms_key_policy codec production allowed bytes none)
  unfolding apply_dlms_key_policy
  plaintext-Opened now bytes h true allowed d e p r = tt
  plaintext-Opened now bytes h false false d e p r = tt
  plaintext-Opened now bytes h false true d e p r =
      of_parse-Opened now bytes h none (parse codec bytes none) refl p r
        (d, ground arith, ground arith)

  decode_with-Opened :
      (now : ℕ) (bytes : List ℕ) (h : DlmsHeader) (answer : Result (Option Key))
      → parse_header codec bytes ≡ Decoded.ok h
      → OkRecentKey o enckeys past now h.logical_device_name answer
      → OpenedIf now bytes (decode_with codec o enckeys env bytes answer)
  unfolding decode_with apply_dlms_key_policy
  decode_with-Opened now bytes h err p r = tt
  decode_with-Opened now bytes h (ok (some key)) p r =
      of_parse-Opened now bytes h (some key) (parse codec bytes (some key)) refl p r tt
  decode_with-Opened now bytes h (ok none) p r =
      plaintext-Opened now bytes h env.production _ refl refl p r

  decode_after-Opened :
      (now : ℕ) (faults : Faults) (bytes : List ℕ) (r : Decoded DlmsHeader) (c : PrunedCache Key)
      → parse_header codec bytes ≡ r
      → AllDatedKeys o enckeys past now c
      → AllDatedKeys o enckeys past now
          (decode_after codec o enckeys env (key_call o enckeys past now faults) bytes r c).1
        × OpenedIf now bytes
            (decode_after codec o enckeys env (key_call o enckeys past now faults) bytes r c).0
  unfolding decode_after
  decode_after-Opened now faults bytes (Decoded.bail why) c e h = (h, tt)
  decode_after-Opened now faults bytes Decoded.panic c e h = (h, tt)
  decode_after-Opened now faults bytes (Decoded.ok header) c e h =
      let (left, answer) =
        get_device_aes_key-Recent o enckeys past now faults header.logical_device_name c h in
      (left, decode_with-Opened now bytes header _ e answer)

  -- A frame that waits for its signature stands in the payload, and was opened as it should be.
  abbrev pub Origin : ℕ → List Entry → Pending → Type 0
  Origin now entries p =
      In (p.payload, p.signature) entries
      × Opened now p.payload p.frame
      × (p.meter_id ≡ p.frame.logical_device_name)

  abbrev pub Origins : ℕ → List Entry → Option (List Pending) → Type 0
  Origins now entries none = Unit
  Origins now entries (some pendings) = All (Origin now entries) pendings

  Origins-there :
      (now : ℕ) (e : Entry) (entries : List Entry) (ps : Option (List Pending))
      → Origins now entries ps
      → Origins now (e ∷ entries) ps
  Origins-there now e entries none h = tt
  Origins-there now e entries (some ps) h = All-mono ps (λ p o. (inr o.0, o.1, o.2)) h

  Origins-first :
      (now : ℕ) (entries : List Entry) (p : Pending) (ps : Option (List Pending))
      → Origin now entries p
      → Origins now entries ps
      → Origins now entries (with_first codec o enckeys env p ps)
  Origins-first now entries p none o h = tt
  Origins-first now entries p (some ps) o h = (o, h)

  unpack_one-Origins :
      (now : ℕ) (bytes sig : List ℕ) (entries : List Entry) (s : Secured) (c : PrunedCache Key)
      (later : Option (List Pending) × PrunedCache Key)
      → AllDatedKeys o enckeys past now c
      → OpenedIf now bytes s
      → AllDatedKeys o enckeys past now later.1
      → Origins now entries later.0
      → let r = unpack_one codec o enckeys env bytes sig s c later in
        AllDatedKeys o enckeys past now r.1 × Origins now ((bytes, sig) ∷ entries) r.0
  unpack_one-Origins now bytes sig entries panicked c later h opened hl ol = (h, tt)
  unpack_one-Origins now bytes sig entries skipped c later h opened hl ol =
      (hl, Origins-there now (bytes, sig) entries later.0 ol)
  unpack_one-Origins now bytes sig entries (decoded f) c later h opened hl ol = (
    hl,
    Origins-first now ((bytes, sig) ∷ entries) _ later.0 (inl refl, opened, refl)
        (Origins-there now (bytes, sig) entries later.0 ol),
  )

  pub unpack_frames-Origins :
      (now : ℕ) (faults : Faults) (entries : List Entry) (c : PrunedCache Key)
      → AllDatedKeys o enckeys past now c
      → let r = unpack_frames codec o enckeys env (key_call o enckeys past now faults) entries c in
        AllDatedKeys o enckeys past now r.1 × Origins now entries r.0
  unfolding unpack_frames decode_secure_frame
  unpack_frames-Origins now faults [] c h = (h, tt)
  unpack_frames-Origins now faults ((bytes, sig) ∷ entries) c h =
      let call = key_call o enckeys past now faults in
      let (left, opened) =
        decode_after-Opened now faults bytes (parse_header codec bytes) c refl h in
      let c' = (decode_secure_frame codec o enckeys env call bytes c).1 in
      let (hl, ol) = unpack_frames-Origins now faults entries c' left in
      unpack_one-Origins now bytes sig entries
        (decode_secure_frame codec o enckeys env call bytes c).0 c'
        (unpack_frames codec o enckeys env call entries c') left opened hl ol
