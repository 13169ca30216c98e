-- ===== src/Dashboard/Journal/Eviction.antt =====
-- The eviction loop of `append_with_precommit` (src/dashboard/event_log.rs).
use devicelane.Shared.{
  ℕ, suc, ◌-◌, ◌≤◌, ◌<◌, ◌≡◌, refl, Bool-cases, inl, inr, ◌||◌, none, some, List, [], ◌∷◌, String,
  Bytes, string_eq, length, drop, ltb, leb, arith,
}
use devicelane.Map.{Map, get, remove, get-remove}
use devicelane.Dashboard.Journal.State.{StoredEvent, Codec}
use devicelane.Dashboard.Journal.Append.{Retained, evict}
use devicelane.Dashboard.Journal.Invariant.{IsLog, IsLog-tail}

-- What the loop leaves of a log: room for one more, the newest entries, and no new key.
pub record Evicts (c : Codec) (stop most room : ℕ) (es : List StoredEvent) (keys : Map String Bytes)
    (r : Retained) : Type 0 where
  pub log : IsLog c stop r.events r.serialized_bytes r.idempotency
  pub fewer : length r.events < most
  pub fits : r.serialized_bytes ≤ room
  pub removed : ℕ
  pub suffix : r.events ≡ drop removed es
  pub forgets : (key : String) → get key keys ≡ none → get key r.idempotency ≡ none

module _ (c : Codec) (stop most room : ℕ) (pos : 0 < most) where
  pub evict_lem :
      (es : List StoredEvent) (bytes : ℕ) (keys : Map String Bytes)
      → IsLog c stop es bytes keys
      → (r : Retained) × (evict most room es bytes keys ≡ some r)
        × Evicts c stop most room es keys r
  unfolding evict
  evict_lem [] bytes keys v = (
    record { events = []; serialized_bytes = bytes; idempotency = keys },
    ground (arith, v.measured),
    record {
      log = v;
      fewer = pos;
      fits = ground (arith, v.measured);
      removed = 0;
      suffix = refl;
      forgets = λ key h. h;
    },
  )
  evict_lem (e ∷ es) bytes keys v =
      elim (Bool-cases (leb most (length (e ∷ es)) || ltb room bytes)) [
        | inl over ↦
            let tail = IsLog-tail c stop e es bytes keys v in
            let (r, computed, kept) =
              evict_lem es (bytes - e.serialized_bytes) (remove e.idempotency_key keys) tail in
            (
              r,
              ground (arith, v.measured, over, computed),
              record {
                log = kept.log;
                fewer = kept.fewer;
                fits = kept.fits;
                removed = suc kept.removed;
                suffix = kept.suffix;
                forgets = λ key h.
                    kept.forgets key (ground (arith, get-remove e.idempotency_key key keys));
              },
            )
        | inr fits ↦ (
          record { events = e ∷ es; serialized_bytes = bytes; idempotency = keys },
          ground (arith, fits),
          record {
            log = v;
            fewer = ground (arith, fits);
            fits = ground (arith, fits);
            removed = 0;
            suffix = refl;
            forgets = λ key h. h;
          },
        )
      ]
