-- ===== src/Prediction/View/Agree.antt =====
-- The list of final predictions and the prediction of one resource show the same, in
-- backend/services/capacityPredictionGovernanceService.py.
use mathlib.Core.List.{append_assoc}
use mathlib.Core.Path.{fun_ext}
use disk_pulse.Prelude.{
  ℕ, ◌≤◌, String, ◌≡◌, ◌≢◌, refl, sym, ap, ◌∙◌, inl, inr, Bool, true, false, Option, none, some,
  List, [], ◌∷◌, ◌++◌, map, arith, ◌==◌, Bool-cases, Option-cases, any, find, select, All, subst,
  ==_iff,
}
use disk_pulse.Prelude.Exec.{ok, Result-cases}
use disk_pulse.Access.Db.{User}
use disk_pulse.Prediction.Db.{
  AssetType, CapacityPredictionCandidate, CapacityForecast, CapacityPredictionCandidateForecast,
  Store, get_candidate, active_candidate, enabled_id, is_forecast, latest_active_candidate_forecast,
}
use disk_pulse.Prediction.Governance.Single.{IsGoverned, Unlike, Pairwise, key, keys, enabled_count}
use disk_pulse.Prediction.View.Listed.{Other, IsShown, listed-IsShown}
use disk_pulse.Access.Service.{accessible_project_ids}
use disk_pulse.Prediction.Resource.{require_prediction_visibility}
use disk_pulse.Prediction.View.{
  FinalPrediction, prediction_view, final_view, forecasts_for_baselines, by_asset, final_rows,
  list_final_predictions, list_latest_forecasts,
}

active_none :
    (rows : List CapacityPredictionCandidate) (n : ℕ)
    → active_candidate rows ≡ none
    → enabled_id rows n ≡ false
unfolding active_candidate any
active_none [] n h = refl
active_none (c ∷ rows) n h = ground (arith, active_none rows n)

active_counts :
    (rows : List CapacityPredictionCandidate) (c : CapacityPredictionCandidate)
    → active_candidate rows ≡ some c
    → 1 ≤ enabled_count rows
unfolding active_candidate enabled_count
active_counts [] c h = cc h
active_counts (d ∷ rows) c h = elim (Option-cases (active_candidate rows)) [
  | inl e ↦ ground arith
  | inr (later, e) ↦ omega (arith, active_counts rows later e)
]

active_some :
    (rows : List CapacityPredictionCandidate) (c : CapacityPredictionCandidate) (n : ℕ)
    → active_candidate rows ≡ some c
    → enabled_count rows ≤ 1
    → enabled_id rows n ≡ (c.id == n)
unfolding active_candidate enabled_count any
active_some [] c n h k = cc h
active_some (d ∷ rows) c n h k = elim (Option-cases (active_candidate rows)) [
  | inl e ↦ ground (arith, active_none rows n e)
  | inr (later, e) ↦ ground (arith, e, active_some rows later n e, active_counts rows later e)
]

active-Unlike :
    (k : ℕ × String) (rows : List CapacityPredictionCandidate) (c : CapacityPredictionCandidate)
    → active_candidate rows ≡ some c
    → All (Unlike k) (keys rows)
    → k.0 ≢ c.id
unfolding active_candidate
active-Unlike k [] c h a = cc h
active-Unlike k (d ∷ rows) c h a = elim (Option-cases (active_candidate rows)) [
  | inl e ↦ ground (arith, e, a.0.0)
  | inr (later, e) ↦ ground (arith, e, active-Unlike k rows later e a.1)
]

active_found :
    (rows : List CapacityPredictionCandidate) (c : CapacityPredictionCandidate)
    → active_candidate rows ≡ some c
    → Pairwise Unlike (keys rows)
    → get_candidate c.id rows ≡ some c
unfolding active_candidate get_candidate find
active_found [] c h a = cc h
active_found (d ∷ rows) c h a = elim (Option-cases (active_candidate rows)) [
  | inl e ↦ ground (arith, e)
  | inr (later, e) ↦
      ground (arith, e, active_found rows later e a.1, active-Unlike (key d) rows later e a.0)
]

-- The forecast of a candidate is for the row.
abbrev fits : CapacityForecast → CapacityPredictionCandidateForecast → Bool
fits f r = is_forecast r.candidate_id f.asset_type f.asset_id f.training_end r

-- The forecasts of the enabled candidate, by either query.
by_asset-latest :
    (candidates : List CapacityPredictionCandidate) (c : CapacityPredictionCandidate)
    (f : CapacityForecast) (baselines : List CapacityForecast)
    (rows : List CapacityPredictionCandidateForecast)
    → ((n : ℕ) → enabled_id candidates n ≡ (c.id == n))
    → ((r : CapacityPredictionCandidateForecast)
        → fits f r ≡ true
        → any (λ (g : CapacityForecast). fits g r) baselines ≡ true)
    → by_asset f (forecasts_for_baselines c.id baselines rows)
      ≡ latest_active_candidate_forecast candidates f.asset_type f.asset_id f.training_end rows
unfolding by_asset forecasts_for_baselines latest_active_candidate_forecast select
by_asset-latest candidates c f baselines [] only listed = refl
by_asset-latest candidates c f baselines (r ∷ rows) only listed =
    let ih = by_asset-latest candidates c f baselines rows only listed in
    elim (Bool-cases (fits f r)) [
      | inl e ↦ ground (arith, e, ih, listed r e, only r.candidate_id)
      | inr e ↦ ground (arith, e, ih)
    ]

latest_none :
    (candidates : List CapacityPredictionCandidate) (t : AssetType) (n start : ℕ)
    (rows : List CapacityPredictionCandidateForecast)
    → ((m : ℕ) → enabled_id candidates m ≡ false)
    → latest_active_candidate_forecast candidates t n start rows ≡ none
unfolding latest_active_candidate_forecast
latest_none candidates t n start [] off = refl
latest_none candidates t n start (r ∷ rows) off =
    ground (arith, off r.candidate_id, latest_none candidates t n start rows off)

latest_enabled :
    (candidates : List CapacityPredictionCandidate) (t : AssetType) (n start : ℕ)
    (rows : List CapacityPredictionCandidateForecast) (r : CapacityPredictionCandidateForecast)
    → latest_active_candidate_forecast candidates t n start rows ≡ some r
    → enabled_id candidates r.candidate_id ≡ true
unfolding latest_active_candidate_forecast
latest_enabled candidates t n start [] r h = cc h
latest_enabled candidates t n start (q ∷ rows) r h =
    elim (Option-cases (latest_active_candidate_forecast candidates t n start rows)) [
      | inl e ↦ ground (arith, e)
      | inr (last, e) ↦
          let same : last ≡ r = ground (arith, e) in
          latest_enabled candidates t n start rows r (e ∙ ap some same)
    ]

module _ (s : Store) (g : IsGoverned s) where
  row-none :
      (f : CapacityForecast)
      → active_candidate s.candidates ≡ none
      → prediction_view f none none ≡ final_view s f
  unfolding final_view prediction_view
  row-none f h =
      rw
        (latest_none s.candidates f.asset_type f.asset_id f.training_end s.candidate_forecasts
          (λ n. active_none s.candidates n h))
        refl

  row-some :
      (c : CapacityPredictionCandidate) (f : CapacityForecast) (baselines : List CapacityForecast)
      → active_candidate s.candidates ≡ some c
      → ((r : CapacityPredictionCandidateForecast)
          → fits f r ≡ true
          → any (λ (g : CapacityForecast). fits g r) baselines ≡ true)
      → prediction_view f
          (by_asset f (forecasts_for_baselines c.id baselines s.candidate_forecasts))
          (some c)
        ≡ final_view s f
  unfolding final_view prediction_view
  row-some c f baselines h listed =
      let only = λ (n : ℕ). active_some s.candidates c n h g.single in
      rw (by_asset-latest s.candidates c f baselines s.candidate_forecasts only listed)
        (elim (Option-cases (
          latest_active_candidate_forecast s.candidates f.asset_type f.asset_id f.training_end
            s.candidate_forecasts)) [
              | inl e ↦ rw e refl
              | inr (r, e) ↦
                  let on : enabled_id s.candidates r.candidate_id ≡ true =
                    latest_enabled s.candidates f.asset_type f.asset_id f.training_end
                      s.candidate_forecasts r e in
                  let same : c.id ≡ r.candidate_id =
                    (==_iff c.id r.candidate_id).0 (sym (only r.candidate_id) ∙ on) in
                  let found : get_candidate r.candidate_id s.candidates ≡ some c =
                    subst (λ n. get_candidate n s.candidates ≡ some c) same
                      (active_found s.candidates c h g.unlike) in
                  rw (e, found) refl
            ])

any-append_right :
    (p : CapacityForecast → Bool) (xs : List CapacityForecast) (y : CapacityForecast)
    (ys : List CapacityForecast)
    → p y ≡ true
    → any p (xs ++ y ∷ ys) ≡ true
unfolding any
any-append_right p [] y ys h = rw h refl
any-append_right p (x ∷ xs) y ys h = ground (arith, any-append_right p xs y ys h)

rows-some :
    (s : Store)
    → IsGoverned s
    → (c : CapacityPredictionCandidate) (before rest : List CapacityForecast)
    → active_candidate s.candidates ≡ some c
    → map
        (λ (f : CapacityForecast).
          prediction_view f
            (by_asset f (forecasts_for_baselines c.id (before ++ rest) s.candidate_forecasts))
            (some c))
        rest
      ≡ map (final_view s) rest
rows-some s g c before [] h = refl
rows-some s g c before (f ∷ rest) h =
    let one =
      row-some s g c f (before ++ f ∷ rest) h
        (λ r fit. any-append_right (λ (q : CapacityForecast). fits q r) before f rest fit) in
    let same : (before ++ f ∷ []) ++ rest ≡ before ++ f ∷ rest =
      append_assoc before (f ∷ []) rest in
    rw one
      (ap (λ tail. final_view s f ∷ tail) (rw same at (rows-some s g c (before ++ f ∷ []) rest h)))

final_rows_lem :
    (s : Store)
    → IsGoverned s
    → (forecasts : List CapacityForecast) → final_rows s forecasts ≡ map (final_view s) forecasts
unfolding final_rows
final_rows_lem s g forecasts = elim (Option-cases (active_candidate s.candidates)) [
  | inl e ↦ rw (e, final_rows) (ap (λ f. map f forecasts) (fun_ext (λ f. row-none s g f e)))
  | inr (c, e) ↦ rw (e, final_rows) (rows-some s g c [] forecasts e)
]

-- With the tables as the operations keep them, and no two forecasts with one id, each row of the list of
-- final predictions is what the query for its resource shows, if the user may read it: the rows are the
-- listed forecasts by the view that this query uses, and each of them is the latest one of a group or of a
-- directory of a group, which is there and in a project of the user.
pub list_final_predictions-agrees :
    (s : Store) (user : Option User) (page size : ℕ) (rows : List FinalPrediction) (total : ℕ)
    → IsGoverned s
    → Pairwise Other s.forecasts
    → list_final_predictions s user page size ≡ ok (rows, total)
    → let visible = accessible_project_ids s.access user in
      let shown = (list_latest_forecasts s visible page size).0 in
      (rows ≡ map (final_view s) shown) × All (IsShown s user visible) shown
unfolding list_final_predictions
list_final_predictions-agrees s user page size rows total g d h =
    elim (Result-cases (require_prediction_visibility s user)) [
      | inl (e, x) ↦ cc (rw (x, list_final_predictions) at h)
      | inr (u, x) ↦
          let visible = accessible_project_ids s.access user in
          let shown = (list_latest_forecasts s visible page size).0 in
          let same : final_rows s shown ≡ rows = cc (rw (x, list_final_predictions) at h) in
          (sym same ∙ final_rows_lem s g shown, listed-IsShown s user visible page size d)
    ]
