-- ===== src/Prediction/Curve/Stored.antt =====
-- What `persist_candidate_prediction` of backend/services/capacityPredictionGovernanceService.py stores.
use disk_pulse.Prelude.{
  ℕ, ◌+◌, ◌≡◌, ◌≢◌, refl, inl, inr, true, false, none, some, List, [], ◌∷◌, ◌++◌, arith, Bool-cases,
  Option-cases, is_some, find, find-append_one, All, ==_refl, ap, sym, ◌∙◌,
}
use disk_pulse.Prelude.Exec.{integrity_error, ok, err}
use disk_pulse.Prediction.Db.{
  Stamp, AssetType, same_type, plan_asset_type, is_forecast, CapacityPredictionCandidateForecast,
  Store, get_candidate, get_candidate_forecast, add_candidate_forecast,
}
use disk_pulse.Prediction.Curve.{
  Prediction, forecast_row, prediction_audits, audit_stored, store_prediction,
  persist_candidate_prediction,
}

same_type_refl : (t : AssetType) → same_type t t ≡ true
same_type_refl AssetType.storage_cluster = refl
same_type_refl AssetType.project = refl
same_type_refl AssetType.group = refl
same_type_refl AssetType.storage_usage = refl

-- The row that was added is found.
found_again :
    (f : CapacityPredictionCandidateForecast) (rows : List CapacityPredictionCandidateForecast)
    → get_candidate_forecast f.candidate_id f.asset_type f.asset_id f.forecast_start rows ≡ none
    → get_candidate_forecast f.candidate_id f.asset_type f.asset_id f.forecast_start
        (rows ++ f ∷ [])
      ≡ some f
unfolding get_candidate_forecast
found_again f rows h =
    rw
      (
        find-append_one (is_forecast f.candidate_id f.asset_type f.asset_id f.forecast_start) rows
            f,
        h,
        same_type_refl f.asset_type,
        ==_refl f.candidate_id,
        ==_refl f.asset_id,
        ==_refl f.forecast_start,
      )
      refl

persist-existing :
    (p : Prediction) (t : ℕ) (s : Store) (row : CapacityPredictionCandidateForecast)
    → is_some (get_candidate p.candidate_id s.candidates) ≡ true
    → get_candidate_forecast p.candidate_id p.asset_type p.asset_id t s.candidate_forecasts
      ≡ some row
    → persist_candidate_prediction p (some t) s ≡ (ok row, s)
unfolding persist_candidate_prediction
persist-existing p t s row h k = rw (h, k, persist_candidate_prediction) refl

persist-new :
    (p : Prediction) (t : ℕ) (s : Store)
    → is_some (get_candidate p.candidate_id s.candidates) ≡ true
    → get_candidate_forecast p.candidate_id p.asset_type p.asset_id t s.candidate_forecasts ≡ none
    → persist_candidate_prediction p (some t) s ≡ store_prediction p t s
unfolding persist_candidate_prediction
persist-new p t s h k = rw (h, k, persist_candidate_prediction) refl

-- The row of a new forecast, and the store that holds it.
new_row : Prediction → ℕ → Store → CapacityPredictionCandidateForecast
new_row p t s = record (forecast_row p t) { id = s.next_forecast_id }

with_forecast : Prediction → ℕ → Store → Store
with_forecast p t s = record s {
  candidate_forecasts = s.candidate_forecasts ++ new_row p t s ∷ [];
  next_forecast_id = s.next_forecast_id + 1;
}

add-stored :
    (p : Prediction) (t : ℕ) (s : Store)
    → plan_asset_type p.asset_type ≡ true
    → get_candidate_forecast p.candidate_id p.asset_type p.asset_id t s.candidate_forecasts ≡ none
    → add_candidate_forecast (forecast_row p t) s ≡ (ok (new_row p t s), with_forecast p t s)
unfolding add_candidate_forecast new_row with_forecast
add-stored p t s h k = rw (h, k, add_candidate_forecast) refl

add-refused :
    (p : Prediction) (t : ℕ) (s : Store)
    → plan_asset_type p.asset_type ≡ false
    → add_candidate_forecast (forecast_row p t) s ≡ (err integrity_error, s)
unfolding add_candidate_forecast
add-refused p t s h = rw (h, add_candidate_forecast) refl

unstored :
    (p : Prediction) (t : ℕ) (s : Store)
    → plan_asset_type p.asset_type ≡ false
    → store_prediction p t s ≡ (err integrity_error, s)
unfolding store_prediction audit_stored
unstored p t s h = ap (audit_stored p.result.source) (add-refused p t s h)

stored :
    (p : Prediction) (t : ℕ) (s : Store)
    → plan_asset_type p.asset_type ≡ true
    → get_candidate_forecast p.candidate_id p.asset_type p.asset_id t s.candidate_forecasts ≡ none
    → store_prediction p t s ≡ (
      ok (new_row p t s),
      record (with_forecast p t s) {
        audits = s.audits ++ prediction_audits (new_row p t s) p.result.source;
      },
    )
unfolding store_prediction audit_stored with_forecast
stored p t s h k = ap (audit_stored p.result.source) (add-stored p t s h k)

-- What a successful insert leaves.
store_prediction-found :
    (p : Prediction) (t : ℕ) (s : Store) (row : CapacityPredictionCandidateForecast)
    → get_candidate_forecast p.candidate_id p.asset_type p.asset_id t s.candidate_forecasts ≡ none
    → (store_prediction p t s).0 ≡ ok row
    → let s' = (store_prediction p t s).1 in
      (s'.candidates ≡ s.candidates)
      × (get_candidate_forecast p.candidate_id p.asset_type p.asset_id t s'.candidate_forecasts
          ≡ some row)
unfolding with_forecast new_row
store_prediction-found p t s row k h = elim (Bool-cases (plan_asset_type p.asset_type)) [
  | inr e ↦ absurd (cc (rw (unstored p t s e) at h))
  | inl e ↦
      let same : new_row p t s ≡ row = cc (rw (stored p t s e k) at h) in
      rw (stored p t s e k)
        (refl, found_again (new_row p t s) s.candidate_forecasts k ∙ ap some same)
]

persist_naive :
    (p : Prediction) (s : Store) (row : CapacityPredictionCandidateForecast)
    → (persist_candidate_prediction p none s).0 ≢ ok row
unfolding persist_candidate_prediction
persist_naive p s row h = ground arith

persist_unknown :
    (p : Prediction) (t : ℕ) (s : Store) (row : CapacityPredictionCandidateForecast)
    → is_some (get_candidate p.candidate_id s.candidates) ≡ false
    → (persist_candidate_prediction p (some t) s).0 ≢ ok row
unfolding persist_candidate_prediction
persist_unknown p t s row e h = ground arith

-- A prediction that was stored once is not stored again: the same call returns the same row and changes
-- nothing, no audit row either.
pub persist_candidate_prediction_again :
    (p : Prediction) (start : Stamp) (s : Store) (row : CapacityPredictionCandidateForecast)
    → (persist_candidate_prediction p start s).0 ≡ ok row
    → let s' = (persist_candidate_prediction p start s).1 in
      persist_candidate_prediction p start s' ≡ (ok row, s')
persist_candidate_prediction_again p none s row h = absurd (persist_naive p s row h)
persist_candidate_prediction_again p (some t) s row h =
    elim (Bool-cases (is_some (get_candidate p.candidate_id s.candidates))) [
      | inr e ↦ absurd (persist_unknown p t s row e h)
      | inl e ↦
          elim (Option-cases (
            get_candidate_forecast p.candidate_id p.asset_type p.asset_id t
              s.candidate_forecasts)) [
                | inr (old, f) ↦
                    let first : persist_candidate_prediction p (some t) s ≡ (ok old, s) =
                      persist-existing p t s old e f in
                    let same : old ≡ row = cc (rw first at h) in
                    rw (first) (persist-existing p t s row e (f ∙ ap some same))
                | inl f ↦
                    let first : persist_candidate_prediction p (some t) s ≡ store_prediction p t s =
                      persist-new p t s e f in
                    let (kept, found) = store_prediction-found p t s row f (rw first at h) in
                    rw first (persist-existing p t (store_prediction p t s).1 row (rw kept e) found)
              ]
    ]

same_type-plan :
    (a b : AssetType) → same_type a b ≡ true → plan_asset_type a ≡ true → plan_asset_type b ≡ true
same_type-plan AssetType.storage_cluster b h k = cc k
same_type-plan AssetType.project b h k = cc k
same_type-plan AssetType.group b h k = ground arith
same_type-plan AssetType.storage_usage b h k = ground arith

none_stored :
    (p : Prediction) (t : ℕ) (rows : List CapacityPredictionCandidateForecast)
    → plan_asset_type p.asset_type ≡ false
    → All (λ (f : CapacityPredictionCandidateForecast). plan_asset_type f.asset_type ≡ true) rows
    → get_candidate_forecast p.candidate_id p.asset_type p.asset_id t rows ≡ none
unfolding get_candidate_forecast find
none_stored p t [] h a = refl
none_stored p t (f ∷ rows) h a =
    elim (Bool-cases (is_forecast p.candidate_id p.asset_type p.asset_id t f)) [
      | inl e ↦
          let bad : plan_asset_type p.asset_type ≡ true =
            same_type-plan f.asset_type p.asset_type (ground arith) a.0 in
          absurd (cc (sym bad ∙ h))
      | inr e ↦ rw e (none_stored p t rows h a.1)
    ]
