-- ===== src/Dedupe/Spacing.antt =====
-- Which events of a key are accepted, one after another.
use market_sentinel.Base.{
  String, ◌≡◌, refl, sym, subst, ◌∙◌, inl, inr, Bool, true, false, not, ◌||◌, ◌&&◌, Option, none,
  some, List, [], ◌∷◌, arith, ltb, if◌then◌else◌, Option-cases,
}
use market_sentinel.Base.Eq.{string_eq}
use market_sentinel.Base.Dict.{get, get-set}
use market_sentinel.Base.Float.{Float, lt, sub, num}
use market_sentinel.Domain.{MarketEvent}
use market_sentinel.Gate.{Gate, open_gate, passed, Chain, of_key, passed-Chain}
use market_sentinel.Dedupe.{DedupeRecord, EventDeduper, record_of, store, accept, accept_all}

module _ {F : Type 0} ⦃f : Float F⦄ where
  -- an event that a record lets through: not before it, and past its time to live or more severe
  abbrev pub renews : Option (DedupeRecord F) → MarketEvent F → Bool
  renews none e = true
  renews (some r) e =
      let elapsed = sub e.market_timestamp r.market_timestamp in
      not (lt elapsed (num 0)) && (not (lt elapsed r.ttl_s) || ltb r.severity e.severity)

  abbrev pub gate : Gate String (DedupeRecord F) (MarketEvent F)
  gate = record { key = λ e. e.dedupe_key; record_of = record_of; renews = renews }

  accept-eq-open_gate :
      (e : MarketEvent F) (d : EventDeduper F)
      → accept e d
        ≡ (if renews (get e.dedupe_key d.records) e then (some e, store e d) else (none, d))
  unfolding accept
  accept-eq-open_gate e d = elim (Option-cases (get e.dedupe_key d.records)) [
    | inl q ↦ rw (q, accept)
    | inr (r, q) ↦ rw (q, accept) (ground arith)
  ]

  accept_all-eq-passed :
      (es : List (MarketEvent F)) (d : EventDeduper F)
      → (accept_all es d).0 ≡ passed gate es d.records
  unfolding accept_all passed open_gate
  accept_all-eq-passed [] d = refl
  accept_all-eq-passed (e ∷ es) d =
      ground (arith, accept_all-eq-passed es d, accept_all-eq-passed es (store e d))

  -- Of the events that are accepted with one key, in whatever order they come, each is not earlier
  -- than the one accepted before it, and comes after its time to live unless it is more severe; the
  -- first is so against the record that the deduper holds at the start.
  pub accept_all-Chain :
      (key : String) (es : List (MarketEvent F)) (d : EventDeduper F)
      → Chain gate (get key d.records) (of_key gate key (accept_all es d).0)
  accept_all-Chain key es d =
      subst (λ xs. Chain gate (get key d.records) (of_key gate key xs))
        (sym (accept_all-eq-passed es d)) (passed-Chain gate key es d.records)

  -- Within the time to live of an accepted event, an event of its key that is not more severe is
  -- suppressed, and changes nothing.
  pub accept_suppresses :
      (first second : MarketEvent F) (d : EventDeduper F)
      → (accept first d).0 ≡ some first
      → first.dedupe_key ≡ second.dedupe_key
      → lt (sub second.market_timestamp first.market_timestamp) first.ttl_s ≡ true
      → ltb first.severity second.severity ≡ false
      → accept second (accept first d).1 ≡ (none, (accept first d).1)
  accept_suppresses first second d through same young weak =
      let stored : (accept first d).1 ≡ store first d =
        ground (arith, accept-eq-open_gate first d) in
      subst (λ x. accept second x ≡ (none, x)) (sym stored)
        (accept-eq-open_gate second (store first d)
          ∙ (unfold store in
              ground (
                arith,
                get-set first.dedupe_key second.dedupe_key (record_of first) d.records,
                string_eq.beq_iff first.dedupe_key second.dedupe_key,
              )))
